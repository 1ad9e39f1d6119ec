-- ===== src/Base/Text/Pieces.antt =====
-- Where a text of digits and minus signs is split.
use Prim.Native.Char.{Char, code}
use Prim.Native.String.{String, [], ◌∷◌, ◌++◌ as ◌<>◌}
use Prim.Native.Nat.{ℕ, ◌≤◌}
use mathlib.Core.List.{List}
use native.Mathlib.Omega.{arith}
use mathlib.Core.Bool.{false}
use mathlib.Core.Path.{◌≡◌, refl, ap, ◌∙◌, sym, subst}
use text.Mathlib.TextLemmas.{cons-append, nil-append}
use tuned.Base.Equality.{eqb}
use tuned.Base.Text.{split, extend_first, digit_value}
use tuned.Base.Text.Decimal.{IsDigit, IsDigits}

not_digit : (base : ℕ) (c : Char) → IsDigit base c → eqb (code c) b'-' ≡ false
unfolding digit_value
not_digit base c (d, (e, h)) = ground arith

-- No digit is a minus sign.
pub split-digits : (base : ℕ) (s : String) → IsDigits base s → split b'-' s ≡ List.◌∷◌ s List.[]
unfolding split extend_first
split-digits base [] h = refl
split-digits base (c ∷ s) (d, h) =
    rw (not_digit base c d) (ap (extend_first c) (split-digits base s h))

dash-cons : (t : String) → "-" <> t ≡ "-" ∷ t
dash-cons t = cons-append "-" [] t ∙ ap (λ u. "-" ∷ u) (nil-append t)

-- The digits before a minus sign are the first piece.
pub split-dash :
    (base : ℕ) (s t : String)
    → IsDigits base s
    → split b'-' (s <> ("-" <> t)) ≡ List.◌∷◌ s (split b'-' t)
unfolding split extend_first
split-dash base [] t h = ap (split b'-') (nil-append ("-" <> t) ∙ dash-cons t)
split-dash base (c ∷ s) t (d, h) =
    ap (split b'-') (cons-append c s ("-" <> t))
    ∙ rw (not_digit base c d) (ap (extend_first c) (split-dash base s t h))

-- All characters come before the colon, as digits and minus signs do.
abbrev pub IsLow : String → Type 0
IsLow [] = Unit
IsLow (c ∷ s) = (code c ≤ b'9') × IsLow s

low_digit : (c : Char) → IsDigit 10 c → code c ≤ b'9'
unfolding digit_value
low_digit c (d, (e, h)) = ground arith

pub digits-IsLow : (s : String) → IsDigits 10 s → IsLow s
digits-IsLow [] h = tt
digits-IsLow (c ∷ s) (d, h) = (low_digit c d, digits-IsLow s h)

pub dash-IsLow : (s t : String) → IsLow s → IsLow t → IsLow (s <> ("-" <> t))
dash-IsLow [] t h k = subst IsLow (sym (nil-append ("-" <> t) ∙ dash-cons t)) (omega arith, k)
dash-IsLow (c ∷ s) t (d, h) k =
    subst IsLow (sym (cons-append c s ("-" <> t))) (d, dash-IsLow s t h k)

pub cons-dash : (c : Char) (s t : String) → (c ∷ s) <> ("-" <> t) ≡ c ∷ (s <> ("-" <> t))
cons-dash c s t = cons-append c s ("-" <> t)
