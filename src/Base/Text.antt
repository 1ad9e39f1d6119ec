-- ===== src/Base/Text.antt =====
-- Python's `str` methods and `int()`, as far as the program uses them, on ASCII text.
pub mod Decimal
pub mod Lines
pub mod Pieces
pub mod Search
pub mod Words
use Prim.Native.Char.{Char, code}
use Prim.Native.String.{String, [], ◌∷◌}
use Prim.Native.Nat.{ℕ, zero, suc, ◌+◌, ◌*◌, ◌-◌}
use mathlib.Core.List.{List}
use mathlib.Core.Logic.{◌⊎◌}
use native.Mathlib.Omega.{arith}
use mathlib.Core.Bool.{Bool, true, false, ◌&&◌, ◌||◌}
use mathlib.Core.Option
use mathlib.Core.Option.{Option, none, some}
use mathlib.Core.Path.{◌≡◌, refl, ap, ◌∙◌}
use tuned.Base.Equality.{if◌then◌else◌, ltb, leb, eqb}

-- `negsuc n` is -(n + 1).
pub data ℤ : Type 0 where
  pos : ℕ → ℤ
  negsuc : ℕ → ℤ

abbrev pub ltz : ℤ → ℤ → Bool
ltz (pos m) (pos n) = ltb m n
ltz (pos m) (negsuc n) = false
ltz (negsuc m) (pos n) = true
ltz (negsuc m) (negsuc n) = ltb n m

abbrev pub eqz : ℤ → ℤ → Bool
eqz (pos m) (pos n) = eqb m n
eqz (pos m) (negsuc n) = false
eqz (negsuc m) (pos n) = false
eqz (negsuc m) (negsuc n) = eqb m n

abbrev pub negate : ℕ → ℤ
negate zero = pos 0
negate (suc n) = negsuc n

unfoldable pub is_space : ℕ → Bool
is_space c = leb 9 c && leb c 13 || leb 28 c && leb c 32

-- `s.lstrip()`
unfoldable pub strip_left : String → String
unfolding is_space
strip_left [] = []
strip_left (c ∷ s) = let rest = strip_left s in if is_space (code c) then rest else c ∷ s

blank_end : Bool → String → Bool
blank_end space [] = space
blank_end space (c ∷ s) = false

-- `s.rstrip()`
unfoldable pub strip_right : String → String
unfolding is_space blank_end
strip_right [] = []
strip_right (c ∷ s) =
    let rest = strip_right s in if blank_end (is_space (code c)) rest then [] else c ∷ rest

-- `s.strip()`
unfoldable pub strip : String → String
unfolding strip_left strip_right
strip s = strip_right (strip_left s)

extend_first : Char → List String → List String
extend_first c List.[] = List.◌∷◌ (c ∷ []) List.[]
extend_first c (List.◌∷◌ x xs) = List.◌∷◌ (c ∷ x) xs

-- `s.split(sep)` at a separator of one character
unfoldable pub split : ℕ → String → List String
unfolding extend_first
split sep [] = List.◌∷◌ [] List.[]
split sep (c ∷ s) =
    let rest = split sep s in if eqb (code c) sep then List.◌∷◌ [] rest else extend_first c rest

split_spaces : String → List String
unfolding is_space extend_first
split_spaces [] = List.◌∷◌ [] List.[]
split_spaces (c ∷ s) =
    let rest = split_spaces s in if is_space (code c) then List.◌∷◌ [] rest else extend_first c rest

full_words : List String → List String
full_words List.[] = List.[]
full_words (List.◌∷◌ [] l) = full_words l
full_words (List.◌∷◌ (c ∷ s) l) = List.◌∷◌ (c ∷ s) (full_words l)

-- `s.split()`
unfoldable pub words : String → List String
unfolding split_spaces full_words
words s = full_words (split_spaces s)

-- The value of a digit, letters of either case included.
unfoldable pub digit_value : ℕ → Option ℕ
digit_value c =
    if leb b'0' c && leb c b'9'
    then some (c - b'0')
    else if leb b'a' c && leb c b'z'
    then some (c - b'a' + 10)
    else if leb b'A' c && leb c b'Z'
    then some (c - b'A' + 10)
    else none

-- Digits of a base, one `_` allowed between two of them. `ready` says that the last was a digit.
digits : ℕ → Bool → ℕ → String → Option ℕ
unfolding digit_value
digits base ready acc [] = if ready then some acc else none
digits base ready acc (c ∷ s) =
    let skip = digits base false acc s in
    let more = λ (d : ℕ). digits base true (acc * base + d) s in
    if eqb (code c) b'_'
    then (if ready then skip else none)
    else elim (digit_value (code c)) [ none ↦ none | some d ↦ if ltb d base then more d else none ]

-- With base 16 a prefix `0x` may stand in front of the digits, and a `_` behind the prefix.
unprefixed : ℕ → String → Option ℕ
unfolding digits
unprefixed base (z ∷ x ∷ u ∷ s) =
    if eqb base 16 && eqb (code z) b'0' && (eqb (code x) b'x' || eqb (code x) b'X')
    then digits base false 0 (if eqb (code u) b'_' then s else u ∷ s)
    else digits base false 0 (z ∷ x ∷ u ∷ s)
unprefixed base s = digits base false 0 s

signed : ℕ → String → Option ℤ
unfolding unprefixed
signed base [] = none
signed base (c ∷ s) =
    if eqb (code c) b'-'
    then Option.map negate (unprefixed base s)
    else if eqb (code c) b'+'
    then Option.map pos (unprefixed base s)
    else Option.map pos (unprefixed base (c ∷ s))

-- `int(s, base)` for base 10 or 16; `none` is the `ValueError`.
unfoldable pub int : ℕ → String → Option ℤ
unfolding strip signed
int base s = signed base (strip s)

-- `str.lower()` of one character
lower_code : ℕ → ℕ
lower_code c = if leb b'A' c && leb c b'Z' then c + 32 else c

-- `s.lower() == t` for a lower-case text `t`
unfoldable pub is_lower_text : String → String → Bool
unfolding lower_code
is_lower_text [] [] = true
is_lower_text [] (d ∷ t) = false
is_lower_text (c ∷ s) [] = false
is_lower_text (c ∷ s) (d ∷ t) = eqb (lower_code (code c)) (code d) && is_lower_text s t

int_examples :
    (int 10 " -42 " ≡ some (negsuc 41))
    × (int 10 "1_000" ≡ some (pos 1000))
    × (int 16 "0xff" ≡ some (pos 255))
    × (int 10 "ff" ≡ none)
    × (int 10 "" ≡ none)
unfolding int
int_examples = (refl, refl, refl, refl, refl)

-- A text that begins with an operator is no number.
digits_operator :
    (c : Char) (s : String) → (code c ≡ b'<') ⊎ (code c ≡ b'>') → digits 10 false 0 (c ∷ s) ≡ none
unfolding digits
digits_operator c s h = ground arith

unprefixed_operator :
    (c : Char) (s : String) → (code c ≡ b'<') ⊎ (code c ≡ b'>') → unprefixed 10 (c ∷ s) ≡ none
unfolding unprefixed
unprefixed_operator c [] h = digits_operator c [] h
unprefixed_operator c (x ∷ []) h = digits_operator c (x ∷ []) h
unprefixed_operator c (x ∷ u ∷ s) h = ground (arith, digits_operator c (x ∷ u ∷ s) h)

operator_not_space : (n : ℕ) → (n ≡ b'<') ⊎ (n ≡ b'>') → is_space n ≡ false
unfolding is_space
operator_not_space n h = ground arith

blank_end-false : (s : String) → blank_end false s ≡ false
unfolding blank_end
blank_end-false [] = refl
blank_end-false (c ∷ s) = refl

strip-cons : (c : Char) (s : String) → is_space (code c) ≡ false → strip (c ∷ s) ≡ c ∷ strip_right s
unfolding strip
strip-cons c s h = rw (h, strip_left, h, blank_end-false (strip_right s)) refl

signed_operator :
    (c : Char) (s : String) → (code c ≡ b'<') ⊎ (code c ≡ b'>') → signed 10 (c ∷ s) ≡ none
unfolding signed
signed_operator c s h = ground (arith, unprefixed_operator c s h)

pub int_operator :
    (c : Char) (s : String) → (code c ≡ b'<') ⊎ (code c ≡ b'>') → int 10 (c ∷ s) ≡ none
unfolding int
int_operator c s h =
    ap (signed 10) (strip-cons c s (operator_not_space (code c) h))
    ∙ signed_operator c (strip_right s) h
