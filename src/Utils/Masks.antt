-- ===== src/Utils/Masks.antt =====
-- tuned/utils/commands.py: CPU masks as numbers, and the sorted lists of the CPUs in them.
pub mod RoundTrip
use tuned.Base.{
  ℕ, zero, suc, ◌+◌, ◌*◌, ◌/◌, ◌%◌, Bool, true, false, List, [], ◌∷◌, if◌then◌else◌, eqb, ltb,
}

-- `m | 2 ** v`: the lowest bit, or the rest of them.
unfoldable pub set_bit : ℕ → ℕ → ℕ
set_bit zero m = if eqb (m % 2) 1 then m else m + 1
set_bit (suc v) m = set_bit v (m / 2) * 2 + m % 2

mask_from : ℕ → List ℕ → ℕ
unfolding set_bit
mask_from m [] = m
mask_from m (v ∷ l) = mask_from (set_bit v m) l

-- `cpulist2bitmask`
unfoldable pub cpulist2bitmask : List ℕ → ℕ
unfolding mask_from
cpulist2bitmask l = mask_from 0 l

cpus_from : ℕ → ℕ → ℕ → List ℕ
cpus_from zero mask cpu = []
cpus_from (suc fuel) mask cpu =
    let rest = cpus_from fuel (mask / 2) (suc cpu) in
    if eqb mask 0 then [] else if eqb (mask % 2) 1 then cpu ∷ rest else rest

-- `bitmask2cpulist`: the mask itself is fuel enough for its halving.
unfoldable pub bitmask2cpulist : ℕ → List ℕ
unfolding cpus_from
bitmask2cpulist mask = cpus_from mask mask 0

insert_sorted : ℕ → List ℕ → List ℕ
insert_sorted x [] = x ∷ []
insert_sorted x (y ∷ ys) =
    let rest = insert_sorted x ys in
    if ltb x y then x ∷ y ∷ ys else if eqb x y then y ∷ ys else y ∷ rest

-- `sorted(list(set(l)))`
unfoldable pub sorted_set : List ℕ → List ℕ
unfolding insert_sorted
sorted_set [] = []
sorted_set (x ∷ xs) = insert_sorted x (sorted_set xs)
