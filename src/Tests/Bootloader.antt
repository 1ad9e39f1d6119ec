-- ===== src/Tests/Bootloader.antt =====
-- An rpm-ostree that keeps its kernel arguments as a text.
use tuned.Base.{
  String, ◌≡◌, refl, Bool, true, false, none, some, List, [], ◌∷◌, ◌++◌, All, All-append, string_eq,
  arith, Option-cases, Bool-cases, inl, inr, ◌==◌, subst,
}
use mathlib.Core.Option.{some-injective}
use tuned.Base.Text.{words}
use tuned.Base.Text.Words.{join_words, IsWord, words-join_words, words-IsWord}
use tuned.Plugins.Bootloader.{
  Ostree, Boot, remove_first, remove_each, rpm_ostree_update, remove_rpm_ostree_tuning,
}
use tuned.Plugins.Bootloader.Kargs.{IsLawful, updates, remove-updates}

abbrev changed : List String → List String → String → Bool × String
changed deleted appended text = elim (remove_each deleted (words text)) [
  | none ↦ (false, text)
  | some left ↦ (true, join_words (left ++ appended))
]

abbrev ostree : Ostree
ostree = record {
  Sys = String;
  status = λ text. (some "State: idle", text);
  kargs = λ text. (some text, text);
  modify = changed;
  sleep = λ text. text;
}

first_words :
    (a : String) (l left : List String)
    → All IsWord l
    → remove_first a l ≡ some left
    → All IsWord left
unfolding remove_first
first_words a [] left h e = absurd (ground arith)
first_words a (x ∷ l) left (hx, h) e = elim (Bool-cases (a == x)) [
  | inl same ↦ subst (All IsWord) (ground arith) h
  | inr differ ↦ elim (Option-cases (remove_first a l)) [
    | inl k ↦ absurd (ground arith)
    | inr (rest, k) ↦
        let new : (x ∷ rest) ≡ left = ground arith in
        subst (All IsWord) new (hx, first_words a l rest h k)
  ]
]

each_words :
    (ks l left : List String) → All IsWord l → remove_each ks l ≡ some left → All IsWord left
unfolding remove_each
each_words [] l left h e = subst (All IsWord) (some-injective l left e) h
each_words (k ∷ ks) l left h e = elim (Option-cases (remove_first k l)) [
  | inl n ↦ absurd (ground arith)
  | inr (rest, n) ↦ each_words ks rest left (first_words k l rest h n) (ground arith)
]

changed_lem :
    (deleted appended left : List String) (text : String)
    → All IsWord appended
    → remove_each deleted (words text) ≡ some left
    → (text' : String) × (changed deleted appended text ≡ (true, text'))
      × (words text' ≡ left ++ appended)
changed_lem deleted appended left text solid e = (
  join_words (left ++ appended),
  rw (changed, e) refl,
  words-join_words (left ++ appended) (
      All-append IsWord left appended (each_words deleted (words text) left (words-IsWord text) e)
        solid),
)

ostree-IsLawful : IsLawful ostree
unfolding words
ostree-IsLawful = record {
  current = words;
  idle = λ text. ("State: idle", [], refl, refl);
  read = λ text. (text, refl, refl);
  modified = changed_lem;
}

abbrev installed : Boot ostree
installed = record { cmdline_val = ""; tuned_var = none; sys = "ro quiet nosmt" }

remove-updates_example :
    (b' : Boot ostree) × (updates ostree ("isolcpus=1 quiet" ∷ "nohz=on" ∷ []) installed ≡ some b')
    × (words (remove_rpm_ostree_tuning ostree b').sys ≡ words "ro quiet nosmt")
unfolding ostree-IsLawful
remove-updates_example =
    remove-updates ostree-IsLawful ("isolcpus=1 quiet" ∷ "nohz=on" ∷ []) installed refl

-- An argument that was appended and then removed by hand: the update raises a `ValueError`.
gone : rpm_ostree_update ostree (record installed { tuned_var = some "isolcpus=1" }) ≡ none
unfolding rpm_ostree_update words string_eq remove_each
gone = refl
