-- ===== src/Base/Text/Words.antt =====
-- Words of a text, as `s.split()` gives them and `" ".join(l)` joins them.
use Prim.Native.Char.{Char, code}
use Prim.Native.String.{String, [], ◌∷◌, ◌++◌ as ◌<>◌}
use mathlib.Core.List.{List}
use mathlib.Core.Bool.{false}
use mathlib.Core.Path.{◌≡◌, refl, ap, ◌∙◌}
use mathlib.Core.Logic.{inl, inr}
use text.Mathlib.TextLemmas.{cons-append, nil-append}
use tuned.Base.Equality.{Bool-cases}
use tuned.Base.Lists.{All}
use tuned.Base.Text.{is_space, split_spaces, full_words, extend_first, words}

-- `" ".join(l)`
unfoldable pub join_words : List String → String
join_words List.[] = []
join_words (List.◌∷◌ w List.[]) = w
join_words (List.◌∷◌ w (List.◌∷◌ v l)) = let rest = join_words (List.◌∷◌ v l) in w <> (" " <> rest)

-- No character is a space.
abbrev pub IsSolid : String → Type 0
IsSolid [] = Unit
IsSolid (c ∷ s) = (is_space (code c) ≡ false) × IsSolid s

abbrev pub IsWord : String → Type 0
IsWord [] = ⊥
IsWord (c ∷ s) = IsSolid (c ∷ s)

split_solid : (s : String) → IsSolid s → split_spaces s ≡ List.◌∷◌ s List.[]
unfolding split_spaces extend_first
split_solid [] h = refl
split_solid (c ∷ s) (solid, h) = rw solid (ap (extend_first c) (split_solid s h))

space-cons : (t : String) → " " <> t ≡ " " ∷ t
space-cons t = cons-append " " [] t ∙ ap (λ u. " " ∷ u) (nil-append t)

split_space :
    (s t : String) → IsSolid s → split_spaces (s <> (" " <> t)) ≡ List.◌∷◌ s (split_spaces t)
unfolding split_spaces extend_first
split_space [] t h = ap split_spaces (nil-append (" " <> t) ∙ space-cons t)
split_space (c ∷ s) t (solid, h) =
    ap split_spaces (cons-append c s (" " <> t))
    ∙ rw solid (ap (extend_first c) (split_space s t h))

word_first :
    (w : String) (l : List String)
    → IsWord w
    → full_words (List.◌∷◌ w l) ≡ List.◌∷◌ w (full_words l)
unfolding full_words
word_first [] l h = absurd h
word_first (c ∷ s) l h = refl

word-IsSolid : (w : String) → IsWord w → IsSolid w
word-IsSolid [] h = tt
word-IsSolid (c ∷ s) h = h

-- Words that are joined are split again into the same words.
pub words-join_words : (l : List String) → All IsWord l → words (join_words l) ≡ l
unfolding words join_words
words-join_words List.[] h = nothing
  where
    nothing : words [] ≡ List.[]
    nothing = refl
words-join_words (List.◌∷◌ w List.[]) (hw, h) =
    ap full_words (split_solid w (word-IsSolid w hw)) ∙ word_first w List.[] hw
words-join_words (List.◌∷◌ w (List.◌∷◌ v l)) (hw, h) =
    ap full_words (split_space w (join_words (List.◌∷◌ v l)) (word-IsSolid w hw))
    ∙ word_first w _ hw
    ∙ ap (λ k. List.◌∷◌ w k) (words-join_words (List.◌∷◌ v l) h)

extend-IsSolid :
    (c : Char) (l : List String)
    → is_space (code c) ≡ false
    → All IsSolid l
    → All IsSolid (extend_first c l)
unfolding extend_first
extend-IsSolid c List.[] solid h = ((solid, tt), tt)
extend-IsSolid c (List.◌∷◌ x xs) solid (hx, h) = ((solid, hx), h)

pieces-IsSolid : (s : String) → All IsSolid (split_spaces s)
unfolding split_spaces
pieces-IsSolid [] = (tt, tt)
pieces-IsSolid (c ∷ s) = elim (Bool-cases (is_space (code c))) [
  | inl e ↦ rw (split_spaces, e) (tt, pieces-IsSolid s)
  | inr e ↦ rw (split_spaces, e) (extend-IsSolid c (split_spaces s) e (pieces-IsSolid s))
]

full_words_words : (l : List String) → All IsSolid l → All IsWord (full_words l)
unfolding full_words
full_words_words List.[] h = tt
full_words_words (List.◌∷◌ [] l) (_, h) = full_words_words l h
full_words_words (List.◌∷◌ (c ∷ s) l) (hw, h) = (hw, full_words_words l h)

-- What a text is split into are words.
pub words-IsWord : (s : String) → All IsWord (words s)
unfolding words
words-IsWord s = full_words_words (split_spaces s) (pieces-IsSolid s)
