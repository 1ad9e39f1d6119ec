-- ===== src/Profiles/Parser.antt =====
-- tuned/profiles/functions/parser.py: the expansion of function calls in the text of a profile. The
-- functions are a parameter, and so is the last substitution of `expand`, a regular expression.
pub mod Ends
use Prim.Native.Char.{Char, code}
use Prim.Native.String
use tuned.Base.{
  ℕ, zero, suc, ◌+◌, ◌-◌, String, ◌<>◌, Bool, true, false, not, ◌&&◌, ◌||◌, Option, none, some,
  List, [], ◌∷◌, ◌++◌, if◌then◌else◌, eqb, leb, ltb, ◌==◌, string_eq,
}

size : String → ℕ
size String.[] = 0
size (String.◌∷◌ c s) = suc (size s)

-- `s[:n]` and `s[n:]`
take_chars : ℕ → String → String
take_chars zero s = ""
take_chars (suc n) String.[] = ""
take_chars (suc n) (String.◌∷◌ c s) = String.◌∷◌ c (take_chars n s)

drop_chars : ℕ → String → String
drop_chars zero s = s
drop_chars (suc n) String.[] = ""
drop_chars (suc n) (String.◌∷◌ c s) = drop_chars n s

starts_with_char : ℕ → String → Bool
starts_with_char b String.[] = false
starts_with_char b (String.◌∷◌ c s) = eqb (code c) b

starts_call : String → Bool
unfolding starts_with_char
starts_call String.[] = false
starts_call (String.◌∷◌ c s) = eqb (code c) b'$' && starts_with_char b'{' s

extend_first : Char → List String → List String
extend_first c [] = String.◌∷◌ c "" ∷ []
extend_first c (x ∷ xs) = String.◌∷◌ c x ∷ xs

-- `re.split(r'(?<!\\):', s)`, for whether a backslash stands before
split_colons : Bool → String → List String
unfolding extend_first
split_colons escaped String.[] = "" ∷ []
split_colons escaped (String.◌∷◌ c s) =
    let rest = split_colons (eqb (code c) 92) s in
    if eqb (code c) b':' && not escaped then "" ∷ rest else extend_first c rest

-- `str.replace(r"\:", ":")`
unescape_colons : String → String
unfolding starts_with_char
unescape_colons String.[] = ""
unescape_colons (String.◌∷◌ c s) =
    let rest = unescape_colons s in
    if eqb (code c) 92 && starts_with_char b':' s then rest else String.◌∷◌ c rest

unescape_all : List String → List String
unfolding unescape_colons
unescape_all [] = []
unescape_all (s ∷ l) = unescape_colons s ∷ unescape_all l

is_word_code : ℕ → Bool
is_word_code c =
    leb b'0' c && leb c b'9' || leb b'a' c && leb c b'z' || leb b'A' c && leb c b'Z' || eqb c b'_'

-- `re.match(r'\w+$', s)` behind the first character, which may end before a newline
is_word_rest : String → Bool
unfolding is_word_code
is_word_rest String.[] = true
is_word_rest (String.◌∷◌ c String.[]) = is_word_code (code c) || eqb (code c) 10
is_word_rest (String.◌∷◌ c (String.◌∷◌ d s)) =
    let later = is_word_rest (String.◌∷◌ d s) in is_word_code (code c) && later

is_word : String → Bool
unfolding is_word_code is_word_rest
is_word String.[] = false
is_word (String.◌∷◌ c s) = is_word_code (code c) && is_word_rest s

-- The fields of `Parser`.
pub record ParserState : Type 0 where
  pub cnt : ℕ
  pub str : String
  pub stack : List (Bool × ℕ)
  pub esc : Bool

-- How `_process` ends: it returns, also where a brace has no partner, or an `IndexError` leaves it.
-- `unfinished` says that the fuel has run out.
pub data Expansion : Type 0 where
  expanded unpaired_close unpaired_open : String → Expansion
  index_error unfinished : Expansion

pub data Round : Type 0 where
  ended : Expansion → Round
  goes_on : ParserState → Round

unfoldable pub parse_init : String → ParserState
parse_init s = record { cnt = 0; str = s; stack = []; esc = false }

-- `_curr_char() == c`
at_char : ℕ → ParserState → Bool
unfolding drop_chars starts_with_char
at_char b p = starts_with_char b (drop_chars p.cnt p.str)

-- `_sub`, whose counter stops at 0
sub : ℕ → ℕ → String → ParserState → ParserState
unfolding take_chars drop_chars size
sub a b s p = record p {
  str = take_chars a p.str <> (s <> drop_chars (b + 1) p.str);
  cnt = p.cnt + size s - (b - a + 1);
}

-- A function of the repository on its arguments: `none` if it is not implemented, and else what it
-- returns, which may be `None`.
module _ (call : String → List String → Option (Option String)) where
  finish_call : ℕ → ParserState → Option (Option String) → ParserState
  unfolding sub
  finish_call from p none = p
  finish_call from p (some none) = p
  finish_call from p (some (some s)) = sub from p.cnt s p

  call_named : ℕ → ParserState → List String → Option ParserState
  unfolding finish_call is_word
  call_named from p [] = none
  call_named from p (name ∷ args) =
      if not (is_word name) then some p else some (finish_call from p (call name args))

  call_split : ℕ → ParserState → List String → Option ParserState
  unfolding call_named unescape_all
  call_split from p [] = some p
  call_split from p (head ∷ rest) =
      if not (head == "$" <> "{f") then some p else call_named from p (unescape_all rest)

  -- `_process_func`; `none` is the `IndexError` for a call without a name.
  unfoldable pub process_func : ℕ → ParserState → Option ParserState
  unfolding take_chars drop_chars split_colons call_split
  process_func from p =
      call_split from p (split_colons false (take_chars (p.cnt - from) (drop_chars from p.str)))

  -- The end of a round of the loop.
  advance : ParserState → ParserState
  unfolding at_char
  advance p = record p { esc = at_char 92 p; cnt = p.cnt + 1 }

  -- One round of the loop for a closing brace: `none` is the `IndexError`.
  close_brace : Bool × ℕ → List (Bool × ℕ) → ParserState → Option ParserState
  unfolding process_func
  close_brace (escaped, from) stack p =
      if escaped
      then some (record p { stack = stack })
      else process_func from (record p { stack = stack })

  -- One round of the loop: it goes on, or the parser has ended.
  unfoldable pub next_round : ParserState → Round
  unfolding at_char close_brace starts_call drop_chars advance size
  next_round p =
      if not (ltb p.cnt (size p.str))
      then (elim p.stack [ [] ↦ ended (expanded p.str) | _ ∷ _ ↦ ended (unpaired_open p.str) ])
      else if at_char b'}' p
      then (elim p.stack [
        | [] ↦ ended (unpaired_close p.str)
        | top ∷ stack ↦ elim (close_brace top stack p) [
          | none ↦ ended index_error
          | some p' ↦ goes_on (advance p')
        ]
      ])
      else if starts_call (drop_chars p.cnt p.str)
      then goes_on (advance (record p { stack = (p.esc, p.cnt) ∷ p.stack }))
      else goes_on (advance p)

  -- The loop of `_process`.
  unfoldable pub process_loop : ℕ → ParserState → Expansion
  unfolding next_round
  process_loop zero p = unfinished
  process_loop (suc fuel) p = elim (next_round p) [
    | ended outcome ↦ outcome
    | goes_on p' ↦ process_loop fuel p'
  ]

  -- `_process`: each round brings the end of the text one character nearer, so its length is fuel
  -- enough, and one round more for the test at the end.
  unfoldable pub process : String → Expansion
  unfolding process_loop parse_init size
  process s = process_loop (suc (size s)) (parse_init s)
