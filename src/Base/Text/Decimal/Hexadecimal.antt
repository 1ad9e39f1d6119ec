-- ===== src/Base/Text/Decimal/Hexadecimal.antt =====
-- Hexadecimal digits with zeros in front, and what `int()` makes of them.
use Prim.Native.Char.{Char, code}
use Prim.Native.String.{String, [], ◌∷◌}
use Prim.Native.Nat.{ℕ, zero, suc}
use native.Mathlib.Omega.{arith}
use mathlib.Core.Bool.{true, false, ◌||◌}
use mathlib.Core.Option
use mathlib.Core.Option.{Option, none, some}
use mathlib.Core.Path.{◌≡◌, refl, ap, ◌∙◌}
use tuned.Base.Equality.{eqb}
use tuned.Base.Text.{pos, int, digits, unprefixed, digit_value}
use tuned.Base.Text.Decimal.{
  show_hex, IsDigit, IsDigits, show_hex-IsDigits, step_digit, digits-show_digits, int-digits,
}
use mathlib.Core.Path.{sym}

-- `s.zfill(len(s) + n)`
unfoldable pub zeros : ℕ → String → String
zeros zero s = s
zeros (suc n) s = "0" ∷ zeros n s

zero-IsDigit : IsDigit 16 "0"
unfolding digit_value
zero-IsDigit = (0, (refl, omega arith))

pub zeros-IsDigits : (n : ℕ) (s : String) → IsDigits 16 s → IsDigits 16 (zeros n s)
unfolding zeros
zeros-IsDigits zero s h = h
zeros-IsDigits (suc n) s h = (zero-IsDigit, zeros-IsDigits n s h)

-- Whether another digit came before makes no difference to digits that follow.
digits-start :
    (acc m : ℕ) (s : String)
    → IsDigits 16 s
    → digits 16 false acc s ≡ some m
    → digits 16 true acc s ≡ some m
unfolding digits
digits-start acc m [] h e = absurd (ground (arith, e))
digits-start acc m (c ∷ s) ((d, (v, lt)), h) e =
    step_digit 16 c d acc true s v lt ∙ sym (step_digit 16 c d acc false s v lt) ∙ e

value_zero : digit_value (code "0") ≡ some 0
unfolding digit_value
value_zero = refl

digits-zeros :
    (n m : ℕ) (s : String)
    → IsDigits 16 s
    → digits 16 false 0 s ≡ some m
    → digits 16 false 0 (zeros n s) ≡ some m
unfolding zeros
digits-zeros zero m s h e = e
digits-zeros (suc n) m s h e =
    step_digit 16 "0" 0 0 false (zeros n s) value_zero (omega arith)
    ∙ digits-start 0 m (zeros n s) (zeros-IsDigits n s h) (digits-zeros n m s h e)

not_x : (c : Char) → IsDigit 16 c → (eqb (code c) b'x' || eqb (code c) b'X') ≡ false
unfolding digit_value
not_x c (d, (e, h)) = ground arith

unprefixed-16 : (s : String) → IsDigits 16 s → unprefixed 16 s ≡ digits 16 false 0 s
unfolding unprefixed
unprefixed-16 [] h = refl
unprefixed-16 (a ∷ []) h = refl
unprefixed-16 (a ∷ b ∷ []) h = refl
unprefixed-16 (a ∷ b ∷ c ∷ s) (ha, (hb, h)) = ground (arith, not_x b hb)

int-hexadecimal :
    (s : String) (m : ℕ) → IsDigits 16 s → digits 16 false 0 s ≡ some m → int 16 s ≡ some (pos m)
unfolding digits
int-hexadecimal [] m h e = absurd (ground (arith, e))
int-hexadecimal (c ∷ s) m h e =
    int-digits 16 c s h ∙ ap (Option.map pos) (unprefixed-16 (c ∷ s) h ∙ e)

-- Reading the hexadecimal text of a number, with zeros in front, gives the number.
pub int-show_hex : (n m : ℕ) → int 16 (zeros n (show_hex m)) ≡ some (pos m)
unfolding show_hex digits
int-show_hex n m =
    int-hexadecimal (zeros n (show_hex m)) m (zeros-IsDigits n (show_hex m) (show_hex-IsDigits m)) (
      digits-zeros n m (show_hex m) (show_hex-IsDigits m) (
        digits-show_digits 16 (omega arith) (λ k. omega arith) (λ k. omega arith)
          (λ k h. omega arith) (λ k f h l. omega arith) (suc m) m [] (omega arith)))
