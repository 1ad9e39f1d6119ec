-- ===== src/Profiles/Parser/Ends.antt =====
-- The parser of tuned/profiles/functions/parser.py ends for every text and all functions.
use text.Mathlib.TextLemmas.{cons-append, nil-append}
use tuned.Base.{
  ℕ, zero, suc, ◌+◌, ◌-◌, ◌≤◌, ◌<◌, String, ◌<>◌, ◌≡◌, ◌≢◌, refl, ap, ◌∙◌, sym, subst, Bool, true,
  false, not, Option, none, some, List, [], ◌∷◌, if_intro, ltb, arith, ◌==◌, string_eq,
}
use tuned.Profiles.Parser.{
  size, take_chars, drop_chars, ParserState, Round, ended, goes_on, expanded, unpaired_close,
  unpaired_open, index_error, unfinished, parse_init, sub, finish_call, call_named, call_split,
  process_func, advance, close_brace, next_round, process_loop, process, at_char, starts_call,
  is_word, unescape_all,
}

size-append : (s t : String) → size (s <> t) ≡ size s + size t
unfolding size
size-append String.[] t = ap size (nil-append t) ∙ omega arith
size-append (String.◌∷◌ c s) t =
    ap size (cons-append c s t) ∙ ap suc (size-append s t) ∙ omega arith

size-take : (n : ℕ) (s : String) → size (take_chars n s) ≤ n
unfolding size take_chars
size-take zero s = omega arith
size-take (suc n) String.[] = omega arith
size-take (suc n) (String.◌∷◌ c s) = omega (arith, size-take n s)

size-drop : (n : ℕ) (s : String) → size (drop_chars n s) ≡ size s - n
unfolding size drop_chars
size-drop zero s = omega arith
size-drop (suc n) String.[] = omega arith
size-drop (suc n) (String.◌∷◌ c s) = size-drop n s ∙ omega arith

-- The positions of the open braces, the inner ones later.
Below : ℕ → List (Bool × ℕ) → Type 0
Below n [] = Unit
Below n ((e, k) ∷ stack) = (k ≤ n) × Below k stack

weaken : (m n : ℕ) (stack : List (Bool × ℕ)) → m ≤ n → Below m stack → Below n stack
unfolding Below
weaken m n [] h b = tt
weaken m n ((e, k) ∷ stack) h (le, b) = (omega arith, b)

-- The text left is shorter behind the next character of q than in p.
Nearer : ℕ → ParserState → ParserState → Type 0
Nearer from p q =
    (q.stack ≡ p.stack) × (from ≤ q.cnt + 1) × (size q.str - (q.cnt + 1) < size p.str - p.cnt)

KeepsOn : ℕ → ParserState → Option ParserState → Type 0
KeepsOn from p none = Unit
KeepsOn from p (some q) = Nearer from p q

sub-Nearer :
    (from : ℕ) (s : String) (p : ParserState)
    → from ≤ p.cnt
    → p.cnt < size p.str
    → Nearer from p (sub from p.cnt s p)
unfolding sub Nearer
sub-Nearer from s p le lt = (
  refl,
  omega arith,
  omega (
    arith,
    size-append (take_chars from p.str) (s <> drop_chars (p.cnt + 1) p.str),
    size-append s (drop_chars (p.cnt + 1) p.str),
    size-take from p.str,
    size-drop (p.cnt + 1) p.str,
  ),
)

module _ (call : String → List String → Option (Option String)) where
  finish_call-Nearer :
      (from : ℕ) (p : ParserState) (r : Option (Option String))
      → from ≤ p.cnt
      → p.cnt < size p.str
      → Nearer from p (finish_call call from p r)
  unfolding finish_call Nearer
  finish_call-Nearer from p none le lt = (refl, omega arith, omega arith)
  finish_call-Nearer from p (some none) le lt = (refl, omega arith, omega arith)
  finish_call-Nearer from p (some (some s)) le lt = sub-Nearer from s p le lt

  call_named-KeepsOn :
      (from : ℕ) (p : ParserState) (l : List String)
      → from ≤ p.cnt
      → p.cnt < size p.str
      → KeepsOn from p (call_named call from p l)
  unfolding call_named KeepsOn Nearer
  call_named-KeepsOn from p [] le lt = tt
  call_named-KeepsOn from p (name ∷ args) le lt =
      if_intro (KeepsOn from p) (not (is_word name)) _ _ (λ _. (refl, omega arith, omega arith))
        (λ _. finish_call-Nearer from p (call name args) le lt)

  call_split-KeepsOn :
      (from : ℕ) (p : ParserState) (l : List String)
      → from ≤ p.cnt
      → p.cnt < size p.str
      → KeepsOn from p (call_split call from p l)
  unfolding call_split KeepsOn Nearer
  call_split-KeepsOn from p [] le lt = (refl, omega arith, omega arith)
  call_split-KeepsOn from p (head ∷ rest) le lt =
      if_intro (KeepsOn from p) (not (head == "$" <> "{f")) _ _
        (λ _. (refl, omega arith, omega arith))
        (λ _. call_named-KeepsOn from p (unescape_all rest) le lt)

  close_brace-KeepsOn :
      (e : Bool) (from : ℕ) (stack : List (Bool × ℕ)) (p : ParserState)
      → from ≤ p.cnt
      → p.cnt < size p.str
      → KeepsOn from (record p { stack = stack }) (close_brace call (e, from) stack p)
  unfolding close_brace process_func KeepsOn Nearer
  close_brace-KeepsOn true from stack p le lt = (refl, omega arith, omega arith)
  close_brace-KeepsOn false from stack p le lt =
      call_split-KeepsOn from (record p { stack = stack }) _ le lt

  -- After a round the parser has ended, or the open braces are in order and less text is left.
  Progress : ParserState → Round → Type 0
  Progress p (ended o) = o ≢ unfinished
  Progress p (goes_on q) = Below q.cnt q.stack × (size q.str - q.cnt < size p.str - p.cnt)

  at_end :
      (stack : List (Bool × ℕ)) (p : ParserState)
      → Progress p
          (elim stack [ [] ↦ ended (expanded p.str) | _ ∷ _ ↦ ended (unpaired_open p.str) ])
  unfolding Progress
  at_end [] p = λ h. grind (arith, h)
  at_end (_ ∷ _) p = λ h. grind (arith, h)

  closed :
      (from : ℕ) (stack : List (Bool × ℕ)) (p : ParserState) (o : Option ParserState)
      → KeepsOn from (record p { stack = stack }) o
      → Below from stack
      → Progress p (elim o [ none ↦ ended index_error | some q ↦ goes_on (advance call q) ])
  unfolding Progress KeepsOn Nearer advance
  closed from stack p none k b = λ h. grind (arith, h)
  closed from stack p (some q) (same, le, near) b =
      (subst (Below (q.cnt + 1)) (sym same) (weaken from (q.cnt + 1) stack le b), near)

  at_close :
      (stack : List (Bool × ℕ)) (p : ParserState)
      → Below p.cnt stack
      → p.cnt < size p.str
      → Progress p (elim stack [
        | [] ↦ ended (unpaired_close p.str)
        | top ∷ rest ↦ elim (close_brace call top rest p) [
          | none ↦ ended index_error
          | some q ↦ goes_on (advance call q)
        ]
      ])
  unfolding Progress Below
  at_close [] p b lt = λ h. grind (arith, h)
  at_close ((e, from) ∷ rest) p (le, b) lt =
      closed from rest p (close_brace call (e, from) rest p)
        (close_brace-KeepsOn e from rest p le lt) b

  next_round-Progress : (p : ParserState) → Below p.cnt p.stack → Progress p (next_round call p)
  unfolding next_round advance Progress Below
  next_round-Progress p b =
      if_intro (Progress p) (not (ltb p.cnt (size p.str))) _ _ (λ _. at_end p.stack p)
        (λ in_text.
          let lt : p.cnt < size p.str = ground (arith, in_text) in
          if_intro (Progress p) (at_char b'}' p) _ _ (λ _. at_close p.stack p b lt)
            (λ _.
              if_intro (Progress p) (starts_call (drop_chars p.cnt p.str)) _ _
                (λ _. ((omega arith, b), omega arith))
                (λ _. (weaken p.cnt (p.cnt + 1) p.stack (omega arith) b, omega arith))))

  after_round :
      (fuel : ℕ) (p : ParserState) (r : Round)
      → Progress p r
      → size p.str - p.cnt < suc fuel
      → ((q : ParserState)
          → Below q.cnt q.stack
          → size q.str - q.cnt < fuel
          → process_loop call fuel q ≢ unfinished)
      → elim r [ ended o ↦ o | goes_on q ↦ process_loop call fuel q ] ≢ unfinished
  unfolding Progress
  after_round fuel p (ended o) h lt later = h
  after_round fuel p (goes_on q) (b, h) lt later = later q b (omega (arith, h, lt))

  process_loop-Ends :
      (fuel : ℕ) (p : ParserState)
      → Below p.cnt p.stack
      → size p.str - p.cnt < fuel
      → process_loop call fuel p ≢ unfinished
  unfolding process_loop
  process_loop-Ends zero p b lt = absurd (omega arith)
  process_loop-Ends (suc fuel) p b lt =
      after_round fuel p (next_round call p) (next_round-Progress p b) lt
        (λ q b' lt'. process_loop-Ends fuel q b' lt')

  -- Whatever the functions give, the parser ends for every text: its length and one round more are
  -- fuel enough, since each round brings the end of the text nearer, also where a call is replaced
  -- by a longer text.
  pub process-Ends : (s : String) → process call s ≢ unfinished
  unfolding process parse_init Below
  process-Ends s = process_loop-Ends (suc (size s)) (parse_init s) tt (omega arith)
