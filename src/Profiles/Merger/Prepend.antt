-- ===== src/Profiles/Merger/Prepend.antt =====
-- The order and the values of a profile's variables after a `variables` unit is merged in.
use mathlib.Core.Option.{or_else}
use mathlib.Core.List.{reverse-append}
use tuned.Base.{String, ◌≡◌, refl, sym, ◌∙◌, true, false, none}
use tuned.Base.{List, [], ◌∷◌, ◌++◌, reverse, arith, contains, string_eq, if◌then◌else◌}
use tuned.Base.{Bool-cases, inl, inr}
use tuned.Base.Dict.{NodupKeys, keys, lookup, lookup-erase, lookup-update, update, erase}
use tuned.Base.Dict.{
  keys-IsNodup, lookup-cases, lookup-nil, keys-update, keys-erase, contains-keys, lookup-cons,
}
use tuned.Base.Names.{
  remove, diff, inter, contains-inter, IsNodup, diff-nil, diff_congr, remove_absent, remove-append,
  remove-diff, contains-diff, contains-append, diff-cons_old, diff-cons_new, diff-append_diff,
}
use tuned.Profiles.Unit.{Value, Options, ProfileUnit}
use tuned.Profiles.Merger.{move_to_front, prepend_all, update_variables, merge_variables}

lookup-move_to_front : (j k : String) (d : Options) → lookup j (move_to_front k d) ≡ lookup j d
unfolding move_to_front
lookup-move_to_front j k d = elim (lookup-cases k d) [
  | inl h ↦ rw (h, move_to_front) refl
  | inr (v, h) ↦
      rw (h, move_to_front) (ground (arith, lookup-erase j k d, lookup-cons j k v (erase k d)))
]

lookup-prepend_all :
    (j : String) (ow ks : List String) (d : Options) → lookup j (prepend_all ow ks d) ≡ lookup j d
unfolding prepend_all
lookup-prepend_all j ow [] d = refl
lookup-prepend_all j ow (k ∷ ks) d = ground (
  arith,
  lookup-prepend_all j ow ks d,
  lookup-prepend_all j ow ks (move_to_front k d),
  lookup-move_to_front j k d,
)

lookup-update_variables :
    (k : String) (before : Options) (unit : ProfileUnit)
    → NodupKeys unit.options
    → lookup k (update_variables before unit) ≡ or_else (lookup k unit.options) (lookup k before)
unfolding update_variables
lookup-update_variables k before unit u = elim (Bool-cases unit.prepend) [
  | inl p ↦ rw p (
      lookup-prepend_all k (inter (keys before) (keys unit.options)) (reverse (keys unit.options))
        (update before unit.options)
      ∙ lookup-update k before unit.options u)
  | inr p ↦ rw p (lookup-update k before unit.options u)
]

-- A merged variable has the newer value, or else the older one, unless the newer unit replaces
-- all variables. Prepending changes no value.
pub lookup-merge_variables :
    (k : String) (variables : Options) (unit : ProfileUnit)
    → NodupKeys unit.options
    → lookup k (merge_variables variables unit)
      ≡ or_else (lookup k unit.options) (if unit.replace then none else lookup k variables)
unfolding merge_variables or_else
lookup-merge_variables k variables unit u = ground (
  arith,
  lookup-update_variables k (if unit.replace then [] else variables) unit u,
  lookup-nil {V = Value} k,
)

-- A key moves in front of the others.
keys-move_to_front :
    (k : String) (d : Options)
    → contains (keys d) k ≡ true
    → keys (move_to_front k d) ≡ k ∷ remove k (keys d)
unfolding move_to_front
keys-move_to_front k d h = ground (arith, contains-keys d k, keys-erase k d)

prepend_all-append :
    (ow ks js : List String) (d : Options)
    → prepend_all ow (ks ++ js) d ≡ prepend_all ow js (prepend_all ow ks d)
unfolding prepend_all
prepend_all-append ow [] js d = refl
prepend_all-append ow (k ∷ ks) js d = prepend_all-append ow ks js _

still_there :
    (ow : List String) (k : String) (ks : List String) (d : Options)
    → contains (keys d) k ≡ true
    → contains (keys (prepend_all ow ks d)) k ≡ true
still_there ow k ks d h =
    ground (
      arith,
      contains-keys d k,
      contains-keys (prepend_all ow ks d) k,
      lookup-prepend_all k ow ks d,
    )

-- The last round of the loop.
keys-prepend_all_last :
    (ow : List String) (k : String) (ks : List String) (d : Options)
    → contains (keys d) k ≡ true
    → contains ks k ≡ false
    → keys (prepend_all ow (reverse ks) d) ≡ diff ks ow ++ diff (keys d) (diff ks ow)
    → keys (prepend_all ow (k ∷ []) (prepend_all ow (reverse ks) d))
      ≡ diff (k ∷ ks) ow ++ diff (keys d) (diff (k ∷ ks) ow)
keys-prepend_all_last ow k ks d there fresh ih = elim (Bool-cases (contains ow k)) [
  | inl old ↦ unfold prepend_all in rw (old, diff-cons_old k ks ow old) ih
  | inr new ↦
      unfold prepend_all in
      rw
        (
          new,
          diff-cons_new k ks ow new,
          keys-move_to_front k (prepend_all ow (reverse ks) d)
              (still_there ow k (reverse ks) d there),
          ih,
          remove-append,
          remove_absent k (diff ks ow) (ground (arith, contains-diff ks ow k)),
          remove-diff,
        )
        refl
]

-- The new keys, in their order, stand in front of the rest.
keys-prepend_all :
    (ow ks : List String) (d : Options)
    → IsNodup ks
    → ((x : String) → contains ks x ≡ true → contains (keys d) x ≡ true)
    → keys (prepend_all ow (reverse ks) d) ≡ diff ks ow ++ diff (keys d) (diff ks ow)
keys-prepend_all ow [] d u w = unfold prepend_all diff in sym (diff-nil (keys d))
keys-prepend_all ow (k ∷ ks) d (fresh, u) w =
    rw (reverse-append (k ∷ []) ks, prepend_all-append)
      (keys-prepend_all_last ow k ks d (w k (ground arith)) fresh
        (keys-prepend_all ow ks d u (λ x p. w x (ground arith))))

-- The variables that a `prepend` unit without `replace` adds come first, in the order of the unit,
-- if its option names are distinct. The older ones, also those that it overwrites, follow in their
-- old order.
pub keys-prepend :
    (variables : Options) (unit : ProfileUnit)
    → NodupKeys unit.options
    → unit.prepend ≡ true
    → unit.replace ≡ false
    → keys (merge_variables variables unit)
      ≡ diff (keys unit.options) (keys variables) ++ keys variables
unfolding merge_variables update_variables
keys-prepend variables unit u p r =
    let news = keys unit.options in
    let olds = keys variables in
    let after = update variables unit.options in
    rw (p, r)
      (keys-prepend_all (inter olds news) news after (keys-IsNodup unit.options u) (λ x h.
          rw (keys-update variables unit.options u)
            (ground (arith, contains-append olds (diff news olds) x, contains-diff news olds x)))
        ∙ rw
            (
              diff_congr news (inter olds news) olds
                  (λ x h. ground (arith, contains-inter olds news x)),
              keys-update variables unit.options u,
              diff-append_diff,
            )
            refl)
