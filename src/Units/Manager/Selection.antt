-- ===== src/Units/Manager/Selection.antt =====
-- The order in which tuned/units/manager.py creates the instances.
use tuned.Base.{
  ℕ, ◌+◌, ◌≡◌, refl, Bool, true, false, List, [], ◌∷◌, All, All-map, arith, if◌then◌else◌,
  Bool-cases, inl, inr,
}
use tuned.Base.Text.{ℤ, pos, negsuc, ltz}
use tuned.Units.Manager.{Info, insert_info, sort_infos}

ltz-asym : (a b : ℤ) → ltz a b ≡ true → ltz b a ≡ false
ltz-asym (pos m) (pos n) h = ground arith
ltz-asym (pos m) (negsuc n) h = cc
ltz-asym (negsuc m) (pos n) h = refl
ltz-asym (negsuc m) (negsuc n) h = ground arith

not_less_trans : (a b c : ℤ) → ltz b a ≡ false → ltz c b ≡ false → ltz c a ≡ false
not_less_trans (pos a) (pos b) (pos c) h k = ground arith
not_less_trans (pos a) (pos b) (negsuc c) h k = cc
not_less_trans (pos a) (negsuc b) c h k = cc
not_less_trans (negsuc a) (pos b) (pos c) h k = refl
not_less_trans (negsuc a) (pos b) (negsuc c) h k = cc
not_less_trans (negsuc a) (negsuc b) (pos c) h k = refl
not_less_trans (negsuc a) (negsuc b) (negsuc c) h k = ground arith

-- No priority of the list is lower.
abbrev pub AtLeast : ℤ → List Info → Type 0
AtLeast p = All (λ i. ltz i.0 p ≡ false)

abbrev pub IsSorted : List Info → Type 0
IsSorted [] = Unit
IsSorted (i ∷ infos) = AtLeast i.0 infos × IsSorted infos

insert_info-AtLeast :
    (p : ℤ) (i : Info) (infos : List Info)
    → ltz i.0 p ≡ false
    → AtLeast p infos
    → AtLeast p (insert_info i infos)
unfolding insert_info
insert_info-AtLeast p i [] h hs = (h, tt)
insert_info-AtLeast p i (j ∷ infos) h (hj, hs) = elim (Bool-cases (ltz j.0 i.0)) [
  | inl e ↦ rw e (hj, insert_info-AtLeast p i infos h hs)
  | inr e ↦ rw e (h, (hj, hs))
]

insert_info-IsSorted :
    (i : Info) (infos : List Info) → IsSorted infos → IsSorted (insert_info i infos)
unfolding insert_info
insert_info-IsSorted i [] s = (tt, tt)
insert_info-IsSorted i (j ∷ infos) (low, s) = elim (Bool-cases (ltz j.0 i.0)) [
  | inl e ↦
      rw e
        (insert_info-AtLeast j.0 i infos (ltz-asym j.0 i.0 e) low, insert_info-IsSorted i infos s)
  | inr e ↦ rw e ((e, All-map _ _ infos (λ k h. not_less_trans i.0 j.0 k.0 e h) low), (low, s))
]

-- How many of the infos pass a test.
abbrev pub count : (Info → Bool) → List Info → ℕ
count f [] = 0
count f (i ∷ infos) = (if f i then 1 else 0) + count f infos

count-insert_info :
    (f : Info → Bool) (i : Info) (infos : List Info)
    → count f (insert_info i infos) ≡ (if f i then 1 else 0) + count f infos
unfolding insert_info
count-insert_info f i [] = refl
count-insert_info f i (j ∷ infos) = ground (arith, count-insert_info f i infos)

sort_infos-IsSorted_from : (infos : List Info) → IsSorted (sort_infos infos)
unfolding sort_infos
sort_infos-IsSorted_from [] = tt
sort_infos-IsSorted_from (i ∷ infos) =
    insert_info-IsSorted i (sort_infos infos) (sort_infos-IsSorted_from infos)

count-sort_infos :
    (f : Info → Bool) (infos : List Info) → count f (sort_infos infos) ≡ count f infos
unfolding sort_infos
count-sort_infos f [] = refl
count-sort_infos f (i ∷ infos) =
    ground (arith, count-insert_info f i (sort_infos infos), count-sort_infos f infos)

-- The instances are created in the order of their priorities, the lowest first, and by the sorting
-- none is lost or doubled: every test is passed by as many of them as before.
pub sort_infos-IsSorted :
    (infos : List Info)
    → IsSorted (sort_infos infos) × ((f : Info → Bool) → count f (sort_infos infos) ≡ count f infos)
sort_infos-IsSorted infos = (sort_infos-IsSorted_from infos, λ f. count-sort_infos f infos)
