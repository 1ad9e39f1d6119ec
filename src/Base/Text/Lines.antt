-- ===== src/Base/Text/Lines.antt =====
-- Stripping a line that ends with a newline.
use Prim.Native.Char.{code}
use Prim.Native.String.{String, [], ◌∷◌, ◌++◌ as ◌<>◌}
use mathlib.Core.Bool.{Bool, true, false}
use mathlib.Core.Path.{◌≡◌, refl, ap, ◌∙◌}
use text.Mathlib.TextLemmas.{cons-append}
use tuned.Base.Equality.{if◌then◌else◌}
use tuned.Base.Text.{strip, strip_left, strip_right, is_space, blank_end}

strip_right-newline : (s : String) → strip_right (s <> "\n") ≡ strip_right s
unfolding strip_right is_space blank_end
strip_right-newline [] = refl
strip_right-newline (c ∷ s) =
    ap strip_right (cons-append c s "\n")
    ∙ ap (λ rest. if blank_end (is_space (code c)) rest then [] else c ∷ rest)
        (strip_right-newline s)

same_strip :
    (b : Bool) (x y u v : String)
    → strip_right x ≡ strip_right u
    → strip_right y ≡ strip_right v
    → strip_right (if b then x else y) ≡ strip_right (if b then u else v)
same_strip true x y u v h k = h
same_strip false x y u v h k = k

-- A newline at the end is stripped with the other space.
pub strip-newline : (s : String) → strip (s <> "\n") ≡ strip s
unfolding strip strip_left strip_right is_space blank_end
strip-newline [] = refl
strip-newline (c ∷ s) =
    ap strip (cons-append c s "\n")
    ∙ same_strip (is_space (code c)) (strip_left (s <> "\n")) (c ∷ (s <> "\n")) (strip_left s)
        (c ∷ s) (strip-newline s)
        (ap (λ rest. if blank_end (is_space (code c)) rest then [] else c ∷ rest)
          (strip_right-newline s))
