-- ===== src/Base/Dict.antt =====
-- Dicts in insertion order, as Python keeps them. Proofs elsewhere go by the laws.
use mathlib.Core.Option.{or_else}
use mathlib.Core.Logic.{◌⊎◌, inl, inr}
use mathlib.Core.Path.{◌≡◌, refl}
use mathlib.Core.Bool.{Bool, true, false}
use mathlib.Core.Option.{Option, none, some}
use mathlib.Core.List.{List, [], ◌∷◌}
use native.Mathlib.Omega.{arith}
use mathlib.Core.List.{append-nil, append_assoc, ◌++◌}
use tuned.Base.Names.{remove, diff, diff-cons, IsNodup}
use tuned.Base.Lists.{select, All}
use tuned.Base.Equality.{if_intro, Bool-cases, Eq, ◌==◌, contains, if◌then◌else◌}

abbrev pub Dict {ℓ κ} : Type ℓ → Type κ → Type (ℓ ⊔ κ)
Dict K V = List (K × V)

abbrev pub keys {ℓ κ} : {K : Type ℓ} {V : Type κ} → Dict K V → List K
keys [] = []
keys ((k, _) ∷ d) = k ∷ keys d

abbrev pub values {ℓ κ} : {K : Type ℓ} {V : Type κ} → Dict K V → List V
values [] = []
values ((_, v) ∷ d) = v ∷ values d

module _ {ℓ κ} {K : Type ℓ} {V : Type κ} ⦃e : Eq K⦄ where
  unfoldable pub lookup : K → Dict K V → Option V
  lookup k [] = none
  lookup k ((j, v) ∷ d) = if k == j then some v else lookup k d

  -- `k in d`
  abbrev pub has : Dict K V → K → Bool
  has d k = elim (lookup k d) [ none ↦ false | some _ ↦ true ]

  -- `d[k] = v`: an old key keeps its place.
  unfoldable pub insert : K → V → Dict K V → Dict K V
  insert k v [] = (k, v) ∷ []
  insert k v ((j, w) ∷ d) = if k == j then (k, v) ∷ d else (j, w) ∷ insert k v d

  -- `d.pop(k, None)`. Every entry of the key goes; a real dict has at most one.
  unfoldable pub erase : K → Dict K V → Dict K V
  erase k [] = []
  erase k ((j, w) ∷ d) = let rest = erase k d in if k == j then rest else (j, w) ∷ rest

  -- `d.update(e)`
  unfoldable pub update : Dict K V → Dict K V → Dict K V
  unfolding insert
  update d [] = d
  update d ((k, v) ∷ new) = update (insert k v d) new

  abbrev pub NodupKeys : Dict K V → Type κ
  NodupKeys [] = Unit
  NodupKeys ((k, _) ∷ d) = (lookup k d ≡ none) × NodupKeys d

  pub lookup-nil : (k : K) → lookup k [] ≡ none
  unfolding lookup
  lookup-nil k = refl

  pub lookup-cons :
      (j k : K) (v : V) (d : Dict K V)
      → lookup j ((k, v) ∷ d) ≡ (if j == k then some v else lookup j d)
  unfolding lookup
  lookup-cons j k v d = refl

  pub lookup-insert :
      (j k : K) (v : V) (d : Dict K V)
      → lookup j (insert k v d) ≡ (if j == k then some v else lookup j d)
  unfolding insert lookup
  lookup-insert j k v [] = refl
  lookup-insert j k v (_ ∷ d) = ground (arith, lookup-insert j k v d)

  pub lookup-erase :
      (j k : K) (d : Dict K V) → lookup j (erase k d) ≡ (if j == k then none else lookup j d)
  unfolding erase lookup
  lookup-erase j k [] = ground arith
  lookup-erase j k (_ ∷ d) = ground (arith, lookup-erase j k d)

  pub lookup-update :
      (j : K) (d new : Dict K V)
      → NodupKeys new
      → lookup j (update d new) ≡ or_else (lookup j new) (lookup j d)
  unfolding update lookup or_else
  lookup-update j d [] u = refl
  lookup-update j d ((k, v) ∷ new) (fresh, u) =
      ground (arith, lookup-update j (insert k v d) new u, lookup-insert j k v d)

  pub contains-keys : (d : Dict K V) (k : K) → contains (keys d) k ≡ has d k
  unfolding lookup
  contains-keys [] k = refl
  contains-keys (_ ∷ d) k = ground (arith, contains-keys d k)

  pub insert-NodupKeys : (k : K) (v : V) (d : Dict K V) → NodupKeys d → NodupKeys (insert k v d)
  unfolding insert
  insert-NodupKeys k v [] _ = (lookup-nil k, tt)
  insert-NodupKeys k v ((j, _) ∷ d) (fresh, u) =
      ground (arith, insert-NodupKeys k v d u, lookup-insert j k v d)

  pub update-NodupKeys : (d new : Dict K V) → NodupKeys d → NodupKeys (update d new)
  unfolding update
  update-NodupKeys d [] u = u
  update-NodupKeys d ((k, v) ∷ new) u =
      update-NodupKeys (insert k v d) new (insert-NodupKeys k v d u)

  pub erase-NodupKeys : (k : K) (d : Dict K V) → NodupKeys d → NodupKeys (erase k d)
  unfolding erase
  erase-NodupKeys k [] _ = tt
  erase-NodupKeys k ((j, _) ∷ d) (fresh, u) =
      ground (arith, erase-NodupKeys k d u, lookup-erase j k d)

  pub keys-insert :
      (k : K) (v : V) (d : Dict K V)
      → keys (insert k v d) ≡ (if contains (keys d) k then keys d else keys d ++ (k ∷ []))
  unfolding insert
  keys-insert k v [] = refl
  keys-insert k v ((j, w) ∷ d) = ground (arith, keys-insert k v d)

  pub keys-erase : (k : K) (d : Dict K V) → keys (erase k d) ≡ remove k (keys d)
  unfolding erase remove
  keys-erase k [] = refl
  keys-erase k ((j, w) ∷ d) = ground (arith, keys-erase k d)

  pub contains_of_fresh : (k : K) (d : Dict K V) → lookup k d ≡ none → contains (keys d) k ≡ false
  contains_of_fresh k d h = ground (arith, contains-keys d k)

  -- The keys that `update` adds come behind the old ones, in their order.
  pub keys-update :
      (d new : Dict K V) → NodupKeys new → keys (update d new) ≡ keys d ++ diff (keys new) (keys d)
  unfolding update diff select
  keys-update d [] u = rw append-nil
  keys-update d ((k, v) ∷ new) (fresh, u) = elim (Bool-cases (contains (keys d) k)) [
    | inl old ↦ rw (keys-update (insert k v d) new u, keys-insert, old) refl
    | inr absent ↦
        rw
          (
            keys-update (insert k v d) new u,
            keys-insert,
            absent,
            diff-cons k (keys new) (keys d) (contains_of_fresh k new fresh),
          )
          (append_assoc (keys d) (k ∷ []) _)
  ]

  pub lookup-cases :
      (k : K) (d : Dict K V) → (lookup k d ≡ none) ⊎ ((v : V) × (lookup k d ≡ some v))
  unfolding lookup
  lookup-cases k d = ground arith

  pub keys-IsNodup : (d : Dict K V) → NodupKeys d → IsNodup (keys d)
  keys-IsNodup [] u = tt
  keys-IsNodup ((k, v) ∷ d) (fresh, u) = (contains_of_fresh k d fresh, keys-IsNodup d u)

  pub erase_absent : (k : K) (d : Dict K V) → lookup k d ≡ none → erase k d ≡ d
  unfolding erase lookup
  erase_absent k [] h = refl
  erase_absent k ((j, w) ∷ d) h = ground (arith, erase_absent k d)

  -- What holds of all values of both holds of those after an `update`.
  pub All-insert {μ} :
      (P : V → Type μ) (k : K) (v : V) (d : Dict K V)
      → P v
      → All P (values d)
      → All P (values (insert k v d))
  unfolding insert
  All-insert P k v [] h _ = (h, tt)
  All-insert P k v ((j, w) ∷ d) h (hw, hd) =
      if_intro (λ (x : Dict K V). All P (values x)) (k == j) _ _ (λ _. (h, hd))
        (λ _. (hw, All-insert P k v d h hd))

  pub All-update {μ} :
      (P : V → Type μ) (d new : Dict K V)
      → All P (values d)
      → All P (values new)
      → All P (values (update d new))
  unfolding update
  All-update P d [] h _ = h
  All-update P d ((k, v) ∷ new) h (hv, hn) =
      All-update P (insert k v d) new (All-insert P k v d hv h) hn
