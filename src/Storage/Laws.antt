-- ===== src/Storage/Laws.antt =====
-- A provider is a map from pairs of a namespace and an option.
use tuned.Base.{String, ◌≡◌, ◌&&◌, Option, none, some, arith, ◌==◌, string_eq}
use tuned.Base.{if◌then◌else◌}
use tuned.Base.Dict.{lookup, lookup-insert, lookup-erase, lookup-nil}
use tuned.Storage.{Provider, set_default, section_of, set, get, unset}
use tuned.Base.Dict.{insert}
use tuned.Base.Dict.{Dict}
use tuned.Base.Dict.{erase}
use tuned.Base.{◌∙◌}
use tuned.Base.{[]}

module _ {ℓ} {V : Type ℓ} where
  -- What a read would answer.
  unfoldable pub entry : String → String → Provider V → Option V
  entry namespace option p = elim (lookup namespace p) [ none ↦ none | some d ↦ lookup option d ]

  entry-set_default : (n o m : String) (p : Provider V) → entry n o (set_default m p) ≡ entry n o p
  unfolding entry set_default
  entry-set_default n o m p = ground (arith, lookup-insert n m [] p, lookup-nil {V = V} o)

  lookup-section_of : (n o : String) (p : Provider V) → lookup o (section_of n p) ≡ entry n o p
  unfolding entry section_of
  lookup-section_of n o p = ground (arith, lookup-nil {V = V} o)

  -- `q[m] = d` for a namespace `m`.
  entry-insert :
      (n o m : String) (d : Dict String V) (q : Provider V)
      → entry n o (insert m d q) ≡ (if n == m then lookup o d else entry n o q)
  unfolding entry
  entry-insert n o m d q = ground (arith, lookup-insert n m d q)

  -- After a write the option of the namespace has the new value, and all others are unchanged,
  -- those of the same name in other namespaces too.
  pub entry-set :
      (n o m k : String) (v : V) (p : Provider V)
      → entry n o (set m k v p) ≡ (if n == m && o == k then some v else entry n o p)
  unfolding set
  entry-set n o m k v p =
      let q = set_default m p in
      ground (
        arith,
        entry-insert n o m (insert k v (section_of m q)) q,
        lookup-insert o k v (section_of m q),
        lookup-section_of m o q,
        entry-set_default n o m p,
      )

  -- After an `unset` the option of the namespace is gone, and all others are unchanged.
  pub entry-unset :
      (n o m k : String) (p : Provider V)
      → entry n o (unset m k p) ≡ (if n == m && o == k then none else entry n o p)
  unfolding unset
  entry-unset n o m k p =
      let q = set_default m p in
      ground (
        arith,
        entry-insert n o m (erase k (section_of m q)) q,
        lookup-erase o k (section_of m q),
        lookup-section_of m o q,
        lookup-section_of m k q,
        entry-set_default n o m p,
      )

  -- A read answers the entry, and changes no answer of a later read.
  pub get-entry :
      (m k : String) (p : Provider V)
      → ((get m k p).0 ≡ entry m k p) × ((n o : String) → entry n o (get m k p).1 ≡ entry n o p)
  unfolding get
  get-entry m k p = (
    lookup-section_of m k (set_default m p) ∙ entry-set_default m k m p,
    λ n o. entry-set_default n o m p,
  )
