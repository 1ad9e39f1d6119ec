-- ===== src/Utils/Cpulist/Packing/Numbers.antt =====
-- Lists of numbers in tuned/utils/commands.py: they are unpacked to themselves, sorted.
use tuned.Base.{ℕ, ◌≡◌, refl, sym, ap, ◌∙◌, some, List, [], ◌∷◌, map, contains, nat_eq, All, String}
use mathlib.Core.Option.{some-injective}
use tuned.Base.Text.Decimal.{show, show-IsDigits}
use tuned.Base.Text.Pieces.{split-digits}
use tuned.Utils.Masks.{sorted_set}
use tuned.Utils.Masks.RoundTrip.{contains-sorted_set}
use tuned.Utils.Cpulist.{
  cpu_items, cpulist_unpack, unpack_items, expand_value, expand_values, range_of, start_scan,
  hex2cpulist,
}
use tuned.Utils.Cpulist.Hex.{cpulist2hex-total, cpulist2hex, hex2cpulist-cpulist2hex}
use tuned.Utils.Cpulist.Packing.{
  IsPlain, show-IsPlain, scan_items-plain, expand_value-plain, int_piece-show, expand-cons, nothing,
}

All-show : (l : List ℕ) → All IsPlain (map show l)
All-show [] = tt
All-show (n ∷ l) = (show-IsPlain n, All-show l)

one_number : (n : ℕ) → range_of (show n ∷ []) ≡ some (n ∷ [])
unfolding range_of
one_number n = rw (range_of, int_piece-show n) refl

expand-show : (n : ℕ) → expand_value (show n) ≡ some (n ∷ [])
expand-show n =
    expand_value-plain (show n) (show-IsPlain n)
    ∙ ap range_of (split-digits 10 (show n) (show-IsDigits n))
    ∙ one_number n

expand-numbers : (l : List ℕ) → expand_values (map show l) ≡ some l
expand-numbers [] = nothing
expand-numbers (n ∷ l) =
    expand-cons (show n) (map show l) (n ∷ []) l (expand-show n) (expand-numbers l)

unpack-numbers : (l : List ℕ) → unpack_items (map show l) ≡ sorted_set l
unfolding unpack_items
unpack-numbers [] = refl
unpack-numbers (n ∷ l) =
    rw
      (
        unpack_items,
        scan_items-plain (map show (n ∷ l)) start_scan refl (All-show (n ∷ l)),
        expand-numbers (n ∷ l),
      )
      refl

unpacked : (l : List ℕ) → cpulist_unpack (cpu_items (map show l)) ≡ some (sorted_set l)
unfolding cpulist_unpack
unpacked l = ap some (unpack-numbers l)

-- The mask of a list of numbers is read back as the same CPUs.
pub mask_of_numbers :
    (l : List ℕ)
    → (mask : String) × (cpulist2hex (cpu_items (map show l)) ≡ some mask)
      × ((x : ℕ) → contains (hex2cpulist mask) x ≡ contains l x)
mask_of_numbers l =
    let items = cpu_items (map show l) in
    let (mask, e) = cpulist2hex-total items (sorted_set l) (unpacked l) in
    let back : hex2cpulist mask ≡ sorted_set l =
      some-injective _ _ (sym (hex2cpulist-cpulist2hex items mask e) ∙ unpacked l) in
    (mask, e, λ x. ap (λ (k : List ℕ). contains k x) back ∙ contains-sorted_set l x)
