-- ===== src/Base/Text/Decimal.antt =====
-- Python's `str()` and `"%x" %` of a natural number, and what `int()` makes of the digits.
pub mod Hexadecimal
use Prim.Native.Char.{Char, code}
use Prim.Native.String.{String, [], ◌∷◌}
use Prim.Native.Nat.{ℕ, zero, suc, ◌+◌, ◌*◌, ◌/◌, ◌%◌, ◌≤◌, ◌<◌}
use native.Mathlib.Omega.{arith}
use mathlib.Core.Bool.{Bool, true, false, ◌&&◌, ◌||◌}
use mathlib.Core.Option
use mathlib.Core.Option.{Option, none, some}
use mathlib.Core.Path.{◌≡◌, refl, ap, ◌∙◌}
use tuned.Base.Equality.{if◌then◌else◌, if_intro, ltb, leb, eqb}
use tuned.Base.Text.{
  ℤ, pos, int, digits, signed, unprefixed, strip_right, is_space, blank_end-false, strip-cons,
  digit_value,
}

-- The character at a place of a text; the last one stands for all later ones.
nth : Char → ℕ → String → Char
nth last d [] = last
nth last zero (c ∷ s) = c
nth last (suc d) (c ∷ s) = nth c d s

digit_char : ℕ → Char
unfolding nth
digit_char d = nth "0" d "0123456789abcdef"

module _ (base : ℕ) where
  show_digits : ℕ → ℕ → String → String
  unfolding digit_char
  show_digits zero n s = s
  show_digits (suc fuel) n s =
      let s' = digit_char (n % base) ∷ s in
      let longer = show_digits fuel (n / base) s' in if ltb n base then s' else longer

-- `str(n)`: a number has fewer digits than its successor is large.
unfoldable pub show : ℕ → String
unfolding show_digits
show n = show_digits 10 (suc n) n []

-- `"%x" % n`
unfoldable pub show_hex : ℕ → String
unfolding show_digits
show_hex n = show_digits 16 (suc n) n []

-- The value of a character as a digit.
abbrev pub IsDigit : ℕ → Char → Type 0
IsDigit base c = (d : ℕ) × ((digit_value (code c) ≡ some d) × (d < base))

-- All characters are digits.
abbrev pub IsDigits : ℕ → String → Type 0
IsDigits base [] = Unit
IsDigits base (c ∷ s) = IsDigit base c × IsDigits base s

Values : ℕ → String → Type 0
Values k [] = Unit
Values k (c ∷ s) = (digit_value (code c) ≡ some k) × Values (suc k) s

size : String → ℕ
size [] = 0
size (c ∷ s) = suc (size s)

value-nth :
    (last : Char) (k d : ℕ) (s : String)
    → Values k s
    → d < size s
    → digit_value (code (nth last d s)) ≡ some (k + d)
unfolding nth Values size
value-nth last k d [] h lt = absurd (omega arith)
value-nth last k zero (c ∷ s) (e, h) lt = e ∙ ap some (omega arith)
value-nth last k (suc d) (c ∷ s) (e, h) lt =
    value-nth c (suc k) d s h (omega arith) ∙ ap some (omega arith)

value-digit_char : (d : ℕ) → d < 16 → digit_value (code (digit_char d)) ≡ some d
unfolding digit_char Values size digit_value
value-digit_char d h =
    value-nth "0" 0 d "0123456789abcdef"
      (
        refl,
        (
          refl,
          (
            refl,
            (
              refl,
              (
                refl,
                (
                  refl,
                  (
                    refl,
                    (refl, (refl, (refl, (refl, (refl, (refl, (refl, (refl, (refl, tt))))))))),
                  ),
                ),
              ),
            ),
          ),
        ),
      )
      h
    ∙ ap some (omega arith)

step_digit :
    (base : ℕ) (c : Char) (d acc : ℕ) (ready : Bool) (s : String)
    → digit_value (code c) ≡ some d
    → d < base
    → digits base ready acc (c ∷ s) ≡ digits base true (acc * base + d) s
unfolding digits digit_value
step_digit base c d acc ready s e h = ground arith

-- What division by the base does, which is clear for each numeral.
module _ (base : ℕ) (fits : base ≤ 16) (remainder : (n : ℕ) → n % base < base)
    (parts : (n : ℕ) → n / base * base + n % base ≡ n) (whole : (n : ℕ) → n < base → n % base ≡ n)
    (shorter : (n f : ℕ) → base ≤ n → n < suc f → n / base < f) where
  digit : (n : ℕ) → digit_value (code (digit_char (n % base))) ≡ some (n % base)
  digit n = value-digit_char (n % base) (omega (arith, remainder n))

  digits-show_digits :
      (f n : ℕ) (s : String)
      → n < f
      → digits base false 0 (show_digits base f n s) ≡ digits base true n s
  unfolding show_digits
  digits-show_digits zero n s h = absurd (omega arith)
  digits-show_digits (suc f) n s h =
      let c = digit_char (n % base) in
      if_intro (λ (t : String). digits base false 0 t ≡ digits base true n s) (ltb n base) _ _
        (λ small.
          step_digit base c (n % base) 0 false s (digit n) (remainder n)
          ∙ ap (λ k. digits base true k s) (ground (arith, small, whole n)))
        (λ large.
          digits-show_digits f (n / base) (c ∷ s) (shorter n f (ground (arith, large)) h)
          ∙ step_digit base c (n % base) (n / base) true s (digit n) (remainder n)
          ∙ ap (λ k. digits base true k s) (parts n))

  show_digits-IsDigits :
      (f n : ℕ) (s : String) → IsDigits base s → IsDigits base (show_digits base f n s)
  unfolding show_digits
  show_digits-IsDigits zero n s h = h
  show_digits-IsDigits (suc f) n s h =
      let h' : IsDigits base (digit_char (n % base) ∷ s) =
        ((n % base, (digit n, remainder n)), h) in
      if_intro (IsDigits base) (ltb n base) _ _ (λ _. h')
        (λ _. show_digits-IsDigits f (n / base) _ h')

pub show-IsDigits : (n : ℕ) → IsDigits 10 (show n)
unfolding show
show-IsDigits n =
    show_digits-IsDigits 10 (omega arith) (λ k. omega arith) (λ k. omega arith) (λ k h. omega arith)
      (λ k f h l. omega arith) (suc n) n [] tt

pub show_hex-IsDigits : (n : ℕ) → IsDigits 16 (show_hex n)
unfolding show_hex
show_hex-IsDigits n =
    show_digits-IsDigits 16 (omega arith) (λ k. omega arith) (λ k. omega arith) (λ k h. omega arith)
      (λ k f h l. omega arith) (suc n) n [] tt

pub digit_not_space : (base : ℕ) (c : Char) → IsDigit base c → is_space (code c) ≡ false
unfolding is_space digit_value
digit_not_space base c (d, (e, h)) = ground arith

pub strip_right-digits : (base : ℕ) (s : String) → IsDigits base s → strip_right s ≡ s
unfolding strip_right
strip_right-digits base [] h = refl
strip_right-digits base (c ∷ s) (d, h) =
    rw (strip_right-digits base s h, digit_not_space base c d, blank_end-false s) refl

unprefixed-10 : (s : String) → unprefixed 10 s ≡ digits 10 false 0 s
unfolding unprefixed
unprefixed-10 [] = refl
unprefixed-10 (a ∷ []) = refl
unprefixed-10 (a ∷ b ∷ []) = refl
unprefixed-10 (a ∷ b ∷ c ∷ s) = refl

signed-digit :
    (base : ℕ) (c : Char) (s : String)
    → IsDigit base c
    → signed base (c ∷ s) ≡ Option.map pos (unprefixed base (c ∷ s))
unfolding signed digit_value
signed-digit base c s (d, (e, h)) = ground arith

int-digits :
    (base : ℕ) (c : Char) (s : String)
    → IsDigits base (c ∷ s)
    → int base (c ∷ s) ≡ Option.map pos (unprefixed base (c ∷ s))
unfolding int
int-digits base c s (d, h) =
    ap (signed base)
      (strip-cons c s (digit_not_space base c d) ∙ ap (λ t. c ∷ t) (strip_right-digits base s h))
    ∙ signed-digit base c s d

int-decimal : (s : String) → IsDigits 10 s → int 10 s ≡ Option.map pos (digits 10 false 0 s)
unfolding int digits
int-decimal [] h = refl
int-decimal (c ∷ s) h = int-digits 10 c s h ∙ ap (Option.map pos) (unprefixed-10 (c ∷ s))

-- Reading the text of a number gives the number.
pub int-show : (n : ℕ) → int 10 (show n) ≡ some (pos n)
unfolding show digits
int-show n =
    int-decimal (show n) (show-IsDigits n)
    ∙ ap (Option.map pos) (
        digits-show_digits 10 (omega arith) (λ k. omega arith) (λ k. omega arith)
          (λ k h. omega arith) (λ k f h l. omega arith) (suc n) n [] (omega arith))

cons_of : (s : String) (n : ℕ) → int 10 s ≡ some (pos n) → (c : Char) × ((t : String) × (s ≡ c ∷ t))
unfolding int digits
cons_of [] n h = absurd (ground (arith, h))
cons_of (c ∷ t) n h = (c, (t, refl))

-- The text of a number is not empty.
pub show-cons : (n : ℕ) → (c : Char) × ((t : String) × (show n ≡ c ∷ t))
show-cons n = cons_of (show n) n (int-show n)
