-- ===== src/Utils/Cpulist/Hex.antt =====
-- Hexadecimal masks of CPUs in tuned/utils/commands.py, in groups of eight digits.
use tuned.Base.{
  ℕ, zero, suc, ◌-◌, ◌%◌, String, ◌≡◌, refl, sym, ap, ◌∙◌, false, Option, none, some, List,
  if◌then◌else◌, if_intro, eqb, arith, Option-cases, inl, inr,
}
use tuned.Base.Text.{pos, int, digit_value, split}
use tuned.Base.Text.Decimal.{show_hex, IsDigit, IsDigits, show_hex-IsDigits}
use tuned.Base.Text.Decimal.Hexadecimal.{zeros, zeros-IsDigits, int-show_hex}
use tuned.Utils.Masks.{bitmask2cpulist, cpulist2bitmask, sorted_set}
use tuned.Utils.Masks.RoundTrip.{
  bitmask2cpulist-cpulist2bitmask, Ascending, same_members, sorted_set-Ascending,
  contains-sorted_set,
}
use tuned.Utils.Cpulist.{
  CpuSpec, cpu_text, no_cpus, cpu_items, cpulist_unpack, hex2cpulist, without_commas,
  strip_quotes_left, strip_quotes_right,
}
use tuned.Utils.Cpulist.Packing.{unpack_items-Ascending}
use Prim.Native.Char.{Char, code}
use mathlib.Core.Option.{some-injective}
use tuned.Base.{subst}

size : String → ℕ
size String.[] = 0
size (String.◌∷◌ c s) = suc (size s)

-- `s.zfill(ls)` for the next multiple of eight
fill : String → String
unfolding size zeros
fill s = if eqb (size s % 8) 0 then s else zeros (8 - size s % 8) s

-- The groups of eight characters, joined by commas: `left` characters are missing in the first one.
grouped : ℕ → String → String
grouped left String.[] = String.[]
grouped zero (String.◌∷◌ c s) = String.◌∷◌ "," (String.◌∷◌ c (grouped 7 s))
grouped (suc left) (String.◌∷◌ c s) = String.◌∷◌ c (grouped left s)

-- `cpulist2hex`
unfoldable pub cpulist2hex : CpuSpec → Option String
unfolding cpulist_unpack cpulist2bitmask show_hex fill grouped
cpulist2hex spec = elim (cpulist_unpack spec) [
  | none ↦ none
  | some l ↦ some (grouped 8 (fill (show_hex (cpulist2bitmask l))))
]

no_comma : (c : Char) → IsDigit 16 c → eqb (code c) b',' ≡ false
unfolding digit_value
no_comma c (d, (e, h)) = ground arith

without_commas-grouped :
    (left : ℕ) (s : String) → IsDigits 16 s → without_commas (grouped left s) ≡ s
unfolding without_commas grouped
without_commas-grouped left String.[] h = refl
without_commas-grouped zero (String.◌∷◌ c s) (d, h) =
    rw (no_comma c d) (ap (λ t. String.◌∷◌ c t) (without_commas-grouped 7 s h))
without_commas-grouped (suc left) (String.◌∷◌ c s) (d, h) =
    rw (no_comma c d) (ap (λ t. String.◌∷◌ c t) (without_commas-grouped left s h))

fill-IsDigits : (s : String) → IsDigits 16 s → IsDigits 16 (fill s)
unfolding fill
fill-IsDigits s h =
    if_intro (IsDigits 16) (eqb (size s % 8) 0) _ _ (λ _. h)
      (λ _. zeros-IsDigits (8 - size s % 8) s h)

int-fill : (m : ℕ) → int 16 (fill (show_hex m)) ≡ some (pos m)
unfolding fill zeros
int-fill m =
    if_intro (λ t. int 16 t ≡ some (pos m)) (eqb (size (show_hex m) % 8) 0) _ _
      (λ _. int-show_hex 0 m) (λ _. int-show_hex (8 - size (show_hex m) % 8) m)

hex2cpulist-grouped : (m : ℕ) → hex2cpulist (grouped 8 (fill (show_hex m))) ≡ bitmask2cpulist m
unfolding hex2cpulist
hex2cpulist-grouped m =
    rw
      (
        hex2cpulist,
        without_commas-grouped 8 (fill (show_hex m))
            (fill-IsDigits (show_hex m) (show_hex-IsDigits m)),
        int-fill m,
      )
      refl

sorted : (l : List ℕ) → Ascending 0 l → sorted_set l ≡ l
sorted l a = same_members 0 (sorted_set l) l (sorted_set-Ascending l) a (contains-sorted_set l)

unpacked-Ascending : (spec : CpuSpec) (l : List ℕ) → cpulist_unpack spec ≡ some l → Ascending 0 l
unfolding cpulist_unpack
unpacked-Ascending no_cpus l h = absurd (ground (arith, h))
unpacked-Ascending (cpu_text s) l h =
    subst (Ascending 0) (some-injective _ _ h)
      (unpack_items-Ascending (split b',' (strip_quotes_right (strip_quotes_left s))))
unpacked-Ascending (cpu_items items) l h =
    subst (Ascending 0) (some-injective _ _ h) (unpack_items-Ascending items)

no_mask : (spec : CpuSpec) → cpulist_unpack spec ≡ none → cpulist2hex spec ≡ none
unfolding cpulist2hex
no_mask spec e = rw (cpulist2hex, e) refl

mask_of :
    (spec : CpuSpec) (l : List ℕ)
    → cpulist_unpack spec ≡ some l
    → cpulist2hex spec ≡ some (grouped 8 (fill (show_hex (cpulist2bitmask l))))
unfolding cpulist2hex
mask_of spec l e = rw (cpulist2hex, e) refl

pub cpulist2hex-total :
    (spec : CpuSpec) (l : List ℕ)
    → cpulist_unpack spec ≡ some l
    → (mask : String) × (cpulist2hex spec ≡ some mask)
cpulist2hex-total spec l e = (_, mask_of spec l e)

-- The hexadecimal mask of CPUs in any form is read back as the CPUs that the form is unpacked to.
pub hex2cpulist-cpulist2hex :
    (spec : CpuSpec) (mask : String)
    → cpulist2hex spec ≡ some mask
    → cpulist_unpack spec ≡ some (hex2cpulist mask)
hex2cpulist-cpulist2hex spec mask h = elim (Option-cases (cpulist_unpack spec)) [
  | inl e ↦ absurd (ground (arith, h, no_mask spec e))
  | inr (l, e) ↦
      e
      ∙ ap some (
          sym (sorted l (unpacked-Ascending spec l e))
          ∙ sym (bitmask2cpulist-cpulist2bitmask l 0).0
          ∙ sym (hex2cpulist-grouped (cpulist2bitmask l))
          ∙ ap hex2cpulist (some-injective _ _ (sym (mask_of spec l e) ∙ h)))
]
