-- ===== src/Base/Names.antt =====
-- Python's sets: a list of members, read through `contains`. A loop over a set takes the list's
-- order, and a theorem about every list covers every order.
use mathlib.Core.Path.{◌≡◌, refl}
use mathlib.Core.Bool.{Bool, false, true, not, ◌&&◌, ◌||◌}
use mathlib.Core.List.{append-nil, List, [], ◌∷◌, ◌++◌}
use native.Mathlib.Omega.{arith}
use tuned.Base.Equality.{Eq, ◌==◌, contains, if◌then◌else◌}
use tuned.Base.Lists.{select, select-append}

module _ {ℓ} {A : Type ℓ} ⦃e : Eq A⦄ where
  -- `s.add(a)`
  unfoldable pub add : A → List A → List A
  add a s = if contains s a then s else a ∷ s

  -- `s.discard(a)`
  unfoldable pub remove : A → List A → List A
  unfolding select
  remove a s = select (λ x. not (x == a)) s

  -- `s | t`
  unfoldable pub union : List A → List A → List A
  unfolding select
  union s t = s ++ select (λ x. not (contains s x)) t

  -- `s - t`
  unfoldable pub diff : List A → List A → List A
  unfolding select
  diff s t = select (λ x. not (contains t x)) s

  -- `s & t`
  unfoldable pub inter : List A → List A → List A
  unfolding select
  inter s t = select (contains t) s

  pub contains-append :
      (s t : List A) (x : A) → contains (s ++ t) x ≡ (contains s x || contains t x)
  contains-append [] t x = refl
  contains-append (y ∷ s) t x = ground (arith, contains-append s t x)

  pub contains-select :
      (p : A → Bool) (s : List A) (x : A) → contains (select p s) x ≡ (contains s x && p x)
  unfolding select
  contains-select p [] x = refl
  contains-select p (y ∷ s) x = ground (arith, contains-select p s x)

  pub contains-add : (a : A) (s : List A) (x : A) → contains (add a s) x ≡ (x == a || contains s x)
  unfolding add
  contains-add a s x = ground arith

  pub contains-remove :
      (a : A) (s : List A) (x : A) → contains (remove a s) x ≡ (contains s x && not (x == a))
  unfolding remove
  contains-remove a s x = contains-select (λ y. not (y == a)) s x

  pub contains-union :
      (s t : List A) (x : A) → contains (union s t) x ≡ (contains s x || contains t x)
  unfolding union
  contains-union s t x = ground (
    arith,
    contains-append s (select (λ y. not (contains s y)) t) x,
    contains-select (λ y. not (contains s y)) t x,
  )

  pub contains-diff :
      (s t : List A) (x : A) → contains (diff s t) x ≡ (contains s x && not (contains t x))
  unfolding diff
  contains-diff s t x = contains-select (λ y. not (contains t y)) s x

  pub contains-inter :
      (s t : List A) (x : A) → contains (inter s t) x ≡ (contains s x && contains t x)
  unfolding inter
  contains-inter s t x = contains-select (contains t) s x

  -- A filter by membership in `s` and in `k ∷ s` agree on a list without `k`.
  pub diff-cons : (k : A) (l s : List A) → contains l k ≡ false → diff l (s ++ (k ∷ [])) ≡ diff l s
  unfolding diff select
  diff-cons k [] s h = refl
  diff-cons k (x ∷ l) s h = ground (arith, diff-cons k l s, contains-append s (k ∷ []) x)

  -- No member is listed twice.
  abbrev pub IsNodup : List A → Type 0
  IsNodup [] = Unit
  IsNodup (x ∷ s) = (contains s x ≡ false) × IsNodup s

  pub remove_absent : (k : A) (s : List A) → contains s k ≡ false → remove k s ≡ s
  unfolding remove
  remove_absent k [] h = refl
  remove_absent k (x ∷ s) h = ground (arith, remove_absent k s)

  pub remove-append : (k : A) (s t : List A) → remove k (s ++ t) ≡ remove k s ++ remove k t
  unfolding remove
  remove-append k s t = select-append (λ x. not (x == k)) s t

  pub remove-diff : (k : A) (s t : List A) → remove k (diff s t) ≡ diff s (k ∷ t)
  unfolding remove diff
  remove-diff k [] t = refl
  remove-diff k (x ∷ s) t = ground (arith, remove-diff k s t)

  pub diff-append : (s s' t : List A) → diff (s ++ s') t ≡ diff s t ++ diff s' t
  unfolding diff
  diff-append s s' t = select-append (λ x. not (contains t x)) s s'

  -- Two sets that agree on the members of a list leave the same of it.
  pub diff_congr :
      (s t t' : List A)
      → ((x : A) → contains s x ≡ true → contains t x ≡ contains t' x)
      → diff s t ≡ diff s t'
  unfolding diff select
  diff_congr [] t t' h = refl
  diff_congr (y ∷ s) t t' h = ground (arith, diff_congr s t t' (λ x p. h x (ground arith)), h y)

  pub diff-nil : (s : List A) → diff s [] ≡ s
  unfolding diff select
  diff-nil [] = refl
  diff-nil (x ∷ s) = rw (diff-nil s)

  pub diff_within :
      (s t : List A) → ((x : A) → contains s x ≡ true → contains t x ≡ true) → diff s t ≡ []
  unfolding diff select
  diff_within [] t h = refl
  diff_within (y ∷ s) t h = ground (arith, diff_within s t (λ x p. h x (ground arith)), h y)

  pub diff-IsNodup : (s t : List A) → IsNodup s → IsNodup (diff s t)
  unfolding diff select
  diff-IsNodup [] t u = tt
  diff-IsNodup (x ∷ s) t (fresh, u) =
      ground (arith, diff-IsNodup s t u, contains-select (λ y. not (contains t y)) s x)

  pub inter-IsNodup : (s t : List A) → IsNodup s → IsNodup (inter s t)
  unfolding inter select
  inter-IsNodup [] t u = tt
  inter-IsNodup (x ∷ s) t (fresh, u) =
      ground (arith, inter-IsNodup s t u, contains-select (contains t) s x)

  pub diff-cons_old : (k : A) (s t : List A) → contains t k ≡ true → diff (k ∷ s) t ≡ diff s t
  unfolding diff
  diff-cons_old k s t h = ground arith

  pub diff-cons_new : (k : A) (s t : List A) → contains t k ≡ false → diff (k ∷ s) t ≡ k ∷ diff s t
  unfolding diff
  diff-cons_new k s t h = ground arith

  -- Taking from a union what the second set adds leaves the first set.
  pub diff-append_diff : (s t : List A) → diff (s ++ diff t s) (diff t s) ≡ s
  diff-append_diff s t =
      rw
        (
          diff-append,
          diff_within (diff t s) (diff t s) (λ x p. p),
          append-nil,
          diff_congr s (diff t s) [] (λ x p. ground (arith, contains-diff t s x)),
        )
        (diff-nil s)
