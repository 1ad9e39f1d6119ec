-- ===== src/Plugins/Commands/Keys.antt =====
-- The keys under which old values are stored.
use Prim.Native.Char.{Char, code}
use Prim.Native.String.append
use text.Mathlib.TextLemmas.{append_cancel_left}
use tuned.Base.{sym, ◌≢◌, ap, ◌∙◌, String, ◌<>◌, ◌≡◌, refl, false, Option, none, some, eqb, arith}
use tuned.Plugins.Commands.{storage_key, or_empty}

-- A name without a slash.
abbrev pub IsPlain : String → Type 0
IsPlain String.[] = Unit
IsPlain (String.◌∷◌ c s) = (eqb (code c) b'/' ≡ false) × IsPlain s

slash : Char
slash = "/"

code-slash : code slash ≡ b'/'
unfolding slash
code-slash = refl

slash-append : (b : String) → ("/" <> b) ≡ String.◌∷◌ slash b
unfolding slash
slash-append b = append.cons slash String.[] b ∙ ap (String.◌∷◌ slash) (append.nil b)

split_at_slash :
    (a b c d : String)
    → IsPlain a
    → IsPlain c
    → (a <> ("/" <> b)) ≡ (c <> ("/" <> d))
    → (a ≡ c) × (b ≡ d)
split_at_slash String.[] b String.[] d ha hc e =
    (refl, cc (append.nil ("/" <> b), append.nil ("/" <> d), slash-append b, slash-append d))
split_at_slash String.[] b (String.◌∷◌ x c) d ha hc e =
    ground (arith, append.nil ("/" <> b), slash-append b, append.cons x c ("/" <> d), code-slash)
split_at_slash (String.◌∷◌ x a) b String.[] d ha hc e =
    ground (arith, append.nil ("/" <> d), slash-append d, append.cons x a ("/" <> b), code-slash)
split_at_slash (String.◌∷◌ x a) b (String.◌∷◌ y c) d ha hc e = ground (
  arith,
  split_at_slash a b c d ha.1 hc.1,
  append.cons x a ("/" <> b),
  append.cons y c ("/" <> d),
)

or_empty-injective :
    (d e : Option String) → d ≢ some "" → e ≢ some "" → or_empty d ≡ or_empty e → d ≡ e
or_empty-injective none none hd he p = refl
or_empty-injective none (some e) hd he p = absurd (he (ap some (sym p)))
or_empty-injective (some d) none hd he p = absurd (hd (ap some p))
or_empty-injective (some d) (some e) hd he p = ap some p

-- Two values are stored under one key of a class only if they are of the same instance, command
-- and device, provided that no name of an instance or a command has a slash and no device is the
-- empty text.
pub storage_key-injective :
    (class_name i j c e : String) (d f : Option String)
    → IsPlain i
    → IsPlain j
    → IsPlain c
    → IsPlain e
    → d ≢ some ""
    → f ≢ some ""
    → storage_key class_name i c d ≡ storage_key class_name j e f
    → (i ≡ j) × (c ≡ e) × (d ≡ f)
unfolding storage_key
storage_key-injective class_name i j c e d f hi hj hc he hd hf p =
    let behind_class = append_cancel_left class_name _ _ p in
    let behind_slash = append_cancel_left "/" _ _ behind_class in
    let (same_i, behind_i) = split_at_slash i _ j _ hi hj behind_slash in
    let (same_c, behind_c) = split_at_slash c _ e _ hc he behind_i in
    (same_i, same_c, or_empty-injective d f hd hf behind_c)
