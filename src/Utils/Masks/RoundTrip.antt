-- ===== src/Utils/Masks/RoundTrip.antt =====
-- The masks of tuned/utils/commands.py and the sorted lists of CPUs correspond.
use tuned.Base.{
  ℕ, zero, suc, ◌+◌, ◌*◌, ◌/◌, ◌%◌, ◌≤◌, ◌<◌, ◌≡◌, refl, sym, ap, ◌∙◌, Bool, false, ◌||◌, List, [],
  ◌∷◌, if◌then◌else◌, eqb, ltb, contains, ◌==◌, nat_eq, arith,
}
use tuned.Utils.Masks.{
  set_bit, cpulist2bitmask, mask_from, bitmask2cpulist, cpus_from, sorted_set, insert_sorted,
}
use tuned.Base.{if_intro}

-- Bit i of a mask.
bit : ℕ → ℕ → Bool
bit zero m = eqb (m % 2) 1
bit (suc i) m = bit i (m / 2)

-- Strictly ascending, from k at least.
unfoldable pub Ascending : ℕ → List ℕ → Type 0
Ascending k [] = Unit
Ascending k (x ∷ xs) = (k ≤ x) × Ascending (suc x) xs

bit-0 : (i : ℕ) → bit i 0 ≡ false
unfolding bit
bit-0 zero = refl
bit-0 (suc i) = bit-0 i

half_first : (m : ℕ) → (if eqb (m % 2) 1 then m else m + 1) / 2 ≡ m / 2
half_first m = ground arith

half_rest : (a m : ℕ) → (a * 2 + m % 2) / 2 ≡ a
half_rest a m = omega arith

bit-set_bit : (i v m : ℕ) → bit i (set_bit v m) ≡ (i == v || bit i m)
unfolding bit set_bit
bit-set_bit zero zero m = ground arith
bit-set_bit zero (suc v) m = ground arith
bit-set_bit (suc i) zero m = ap (bit i) (half_first m) ∙ ground arith
bit-set_bit (suc i) (suc v) m =
    ap (bit i) (half_rest (set_bit v (m / 2)) m) ∙ bit-set_bit i v (m / 2) ∙ ground arith

bit-mask_from : (i m : ℕ) (l : List ℕ) → bit i (mask_from m l) ≡ (bit i m || contains l i)
unfolding mask_from
bit-mask_from i m [] = ground arith
bit-mask_from i m (v ∷ l) = ground (arith, bit-mask_from i (set_bit v m) l, bit-set_bit i v m)

-- Masks with the same bits are the same.
same_halves : (m n : ℕ) → m / 2 ≡ n / 2 → eqb (m % 2) 1 ≡ eqb (n % 2) 1 → m ≡ n
same_halves m n h e = ground arith

same_bits : (f m n : ℕ) → m ≤ f → n ≤ f → ((i : ℕ) → bit i m ≡ bit i n) → m ≡ n
unfolding bit
same_bits zero m n h k e = omega arith
same_bits (suc f) m n h k e =
    same_halves m n (same_bits f (m / 2) (n / 2) (omega arith) (omega arith) (λ i. e (suc i))) (e 0)

below : (k i : ℕ) (l : List ℕ) → Ascending k l → i < k → contains l i ≡ false
unfolding Ascending
below k i [] a h = refl
below k i (x ∷ xs) (le, a) h = ground (arith, below (suc x) i xs a)

pub weaken : (j k : ℕ) (l : List ℕ) → j ≤ k → Ascending k l → Ascending j l
unfolding Ascending
weaken j k [] h a = tt
weaken j k (x ∷ xs) h (le, a) = (omega arith, a)

cpus_from-Ascending : (f m cpu : ℕ) → Ascending cpu (cpus_from f m cpu)
unfolding cpus_from Ascending
cpus_from-Ascending zero m cpu = tt
cpus_from-Ascending (suc f) m cpu =
    if_intro (Ascending cpu) (eqb m 0) _ _ (λ _. tt)
      (λ _.
        if_intro (Ascending cpu) (eqb (m % 2) 1) _ _
          (λ _. (omega arith, cpus_from-Ascending f (m / 2) (suc cpu)))
          (λ _. weaken cpu (suc cpu) _ (omega arith) (cpus_from-Ascending f (m / 2) (suc cpu))))

insert_sorted-Ascending :
    (k x : ℕ) (l : List ℕ) → k ≤ x → Ascending k l → Ascending k (insert_sorted x l)
unfolding insert_sorted Ascending
insert_sorted-Ascending k x [] h a = (h, tt)
insert_sorted-Ascending k x (y ∷ ys) h (le, a) =
    if_intro (Ascending k) (ltb x y) _ _ (λ lt. (h, (ground (arith, lt), a)))
      (λ ge.
        if_intro (Ascending k) (eqb x y) _ _ (λ _. (le, a))
          (λ ne. (le, insert_sorted-Ascending (suc y) x ys (ground (arith, ge, ne)) a)))

contains-cpus_from :
    (f m cpu i k : ℕ) → m ≤ f → k ≡ cpu + i → contains (cpus_from f m cpu) k ≡ bit i m
unfolding cpus_from bit
contains-cpus_from zero m cpu i k h e = sym (ap (bit i) (omega arith) ∙ bit-0 i)
contains-cpus_from (suc f) m cpu zero k h e = ground (
  arith,
  below (suc cpu) k (cpus_from f (m / 2) (suc cpu)) (cpus_from-Ascending f (m / 2) (suc cpu)),
)
contains-cpus_from (suc f) m cpu (suc i) k h e =
    ground (arith, contains-cpus_from f (m / 2) (suc cpu) i k, bit-0 i)

contains-insert_sorted :
    (x : ℕ) (l : List ℕ) (i : ℕ) → contains (insert_sorted x l) i ≡ (i == x || contains l i)
unfolding insert_sorted
contains-insert_sorted x [] i = ground arith
contains-insert_sorted x (y ∷ ys) i = ground (arith, contains-insert_sorted x ys i)

pub sorted_set-Ascending : (l : List ℕ) → Ascending 0 (sorted_set l)
unfolding sorted_set Ascending
sorted_set-Ascending [] = tt
sorted_set-Ascending (x ∷ xs) =
    insert_sorted-Ascending 0 x (sorted_set xs) (omega arith) (sorted_set-Ascending xs)

pub contains-sorted_set : (l : List ℕ) (i : ℕ) → contains (sorted_set l) i ≡ contains l i
unfolding sorted_set
contains-sorted_set [] i = refl
contains-sorted_set (x ∷ xs) i =
    ground (arith, contains-insert_sorted x (sorted_set xs) i, contains-sorted_set xs i)

pub same_members :
    (k : ℕ) (xs ys : List ℕ)
    → Ascending k xs
    → Ascending k ys
    → ((i : ℕ) → contains xs i ≡ contains ys i)
    → xs ≡ ys
unfolding Ascending
same_members k [] [] a b e = refl
same_members k [] (y ∷ ys) a b e = absurd (ground (arith, e y))
same_members k (x ∷ xs) [] a b e = absurd (ground (arith, e x))
same_members k (x ∷ xs) (y ∷ ys) (lx, a) (ly, b) e =
    let first : x ≡ y = ground (arith, e x, e y, below (suc x) y xs a, below (suc y) x ys b) in
    ap (λ z. z ∷ xs) first
    ∙ ap (λ l. y ∷ l)
        (same_members (suc y) xs ys (rw first at a) b
          (λ i. ground (arith, first, e i, below (suc x) i xs a, below (suc y) i ys b)))

-- A mask of CPUs is read back as the sorted list of them, each once, and the mask of the list that is
-- read from a mask is that mask.
pub bitmask2cpulist-cpulist2bitmask :
    (l : List ℕ) (m : ℕ)
    → (bitmask2cpulist (cpulist2bitmask l) ≡ sorted_set l)
      × (cpulist2bitmask (bitmask2cpulist m) ≡ m)
unfolding bitmask2cpulist cpulist2bitmask
bitmask2cpulist-cpulist2bitmask l m =
    let mask = mask_from 0 l in
    (
      same_members 0 (cpus_from mask mask 0) (sorted_set l) (cpus_from-Ascending mask mask 0)
          (sorted_set-Ascending l)
          (λ i.
            contains-cpus_from mask mask 0 i i (omega arith) (omega arith)
            ∙ bit-mask_from i 0 l
            ∙ ground (arith, bit-0 i, contains-sorted_set l i)),
      same_bits (m + mask_from 0 (cpus_from m m 0)) (mask_from 0 (cpus_from m m 0)) m (omega arith)
          (omega arith)
          (λ i.
            bit-mask_from i 0 (cpus_from m m 0)
            ∙ ground (arith, bit-0 i, contains-cpus_from m m 0 i i (omega arith) (omega arith))),
    )
