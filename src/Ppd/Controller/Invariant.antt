-- ===== src/Ppd/Controller/Invariant.antt =====
-- What holds of the state of tuned/ppd/controller.py after any calls.
use tuned.Base.{
  ℕ, String, ◌≡◌, ◌≢◌, refl, sym, ap, Bool, false, not, ◌&&◌, some, [], ◌∷◌, ◌⊎◌, inl, inr,
}
use tuned.Base.{◌==◌, string_eq, nat_eq, option_eq, if◌then◌else◌, arith, Option-cases, if_intro}
use tuned.Base.Dict.{Dict, NodupKeys, lookup, insert, insert-NodupKeys, erase-NodupKeys}
use tuned.Ppd.Config.{PpdConfig, power_saver, performance, has_basic}
use tuned.Ppd.Config.Inverse.{IsFaithful}
use tuned.Ppd.Controller.{
  Tuned, Ppd, Hold, Reply, returned, refused, key_error, unknown, effective_hold_profile,
  any_power_saver, is_empty_dict,
}
use tuned.Ppd.Controller.{switch_profile, cancel}
use tuned.Ppd.Controller.Holds.{Accepts, IsKnown, Switched, switch_profile_lem}
use tuned.Ppd.Controller.{hold_profile}
use tuned.Ppd.Controller.{release_profile}
use tuned.Ppd.Controller.{remove_hold}
use tuned.Base.{subst}
use tuned.Ppd.Config.{balanced}
use tuned.Ppd.Controller.Holds.{cancel-OnlyHolds}
use tuned.Ppd.Controller.Holds.{holds-cancel}
use tuned.Ppd.Controller.{add_hold}
use tuned.Ppd.Controller.{with_cookie}

-- The profile that is to be active for a base profile and holds.
unfoldable pub wanted : String → Dict ℕ Hold → String
unfolding is_empty_dict effective_hold_profile
wanted base holds = if is_empty_dict holds then base else effective_hold_profile holds

module _ {T : Tuned} where
  -- The configuration is faithful, no cookie is given twice, and the base profile is known.
  pub record Ready (p : Ppd T) : Type 0 where
    pub faithful : IsFaithful p.config
    pub distinct : NodupKeys p.holds
    pub known_base : IsKnown p.config p.base

  -- Also the active profile is that of the holds, or the base profile without holds, or, then,
  -- "unknown".
  pub record Inv (p : Ppd T) : Type 0 where
    pub ready : Ready p
    pub shown :
        (p.active ≡ some (wanted p.base p.holds)) ⊎ ((p.holds ≡ []) × (p.active ≡ some unknown))

-- The three profiles that every configuration has are known.
pub basic-IsKnown :
    (c : PpdConfig) (profile : String)
    → IsFaithful c
    → (profile ≡ power_saver) ⊎ ((profile ≡ balanced) ⊎ (profile ≡ performance))
    → IsKnown c profile
unfolding has_basic
basic-IsKnown c profile f (inl e) b = rw e (ground (arith, f.basic b))
basic-IsKnown c profile f (inr (inl e)) b = rw e (ground (arith, f.basic b))
basic-IsKnown c profile f (inr (inr e)) b = rw e (ground (arith, f.basic b))

pub wanted-IsKnown :
    (c : PpdConfig) (base : String) (holds : Dict ℕ Hold)
    → IsFaithful c
    → IsKnown c base
    → IsKnown c (wanted base holds)
unfolding effective_hold_profile wanted is_empty_dict
wanted-IsKnown c base holds f known =
    if_intro (IsKnown c) (is_empty_dict holds) _ _ (λ _. known)
      (λ _.
        if_intro (IsKnown c) (any_power_saver holds) _ _
          (λ _. basic-IsKnown c power_saver f (inl refl))
          (λ _. basic-IsKnown c performance f (inr (inr refl))))

pub not_empty : (c : ℕ) (h : Hold) (holds : Dict ℕ Hold) → is_empty_dict (insert c h holds) ≡ false
unfolding is_empty_dict insert
not_empty c h [] = refl
not_empty c h ((k, v) ∷ d) =
    if_intro (λ x. is_empty_dict x ≡ false) (c == k) _ _ (λ _. refl) (λ _. refl)

module _ {T : Tuned} where
  -- The invariant after a call, whose reply is a value.
  abbrev pub Keeps : {A : Type 0} → Reply A × Ppd T → Type 0
  Keeps (r, q) = Inv q × (r ≢ key_error)

  settled :
      (profile : String) (p : Ppd T) (out : Reply Bool × Ppd T)
      → Ready p
      → profile ≡ wanted p.base p.holds
      → Switched T profile p out
      → Keeps out
  settled profile p (r, q) ready w (ok, e) = (
    subst Inv (sym e) (record {
      ready = record {
        faithful = ready.faithful;
        distinct = ready.distinct;
        known_base = ready.known_base;
      };
      shown = inl (ap some w);
    }),
    λ h. grind (arith, ok, h),
  )

  -- A switch to the wanted profile establishes the invariant.
  pub settle :
      (profile : String) (p : Ppd T)
      → Accepts T
      → Ready p
      → profile ≡ wanted p.base p.holds
      → Keeps (switch_profile T profile p)
  settle profile p accepts ready w = settled profile p (switch_profile T profile p) ready w (
      switch_profile_lem T profile p accepts (
        subst (IsKnown p.config) (sym w)
          (wanted-IsKnown p.config p.base p.holds ready.faithful ready.known_base)))

  pub cancel-Ready : (cookie : ℕ) (p : Ppd T) → Ready p → Ready (cancel T cookie p)
  cancel-Ready cookie p ready = subst Ready (sym (cancel-OnlyHolds T cookie p)) (record {
    faithful = ready.faithful;
    distinct = rw (holds-cancel T cookie p) (erase-NodupKeys cookie p.holds ready.distinct);
    known_base = ready.known_base;
  })

  -- Releasing a hold, asked for or because its process is gone.
  pub remove_hold-Inv :
      (cookie : ℕ) (p : Ppd T) → Accepts T → Ready p → Keeps (remove_hold T cookie p)
  unfolding remove_hold wanted
  remove_hold-Inv cookie p accepts ready =
      settle _ (cancel T cookie p) accepts (cancel-Ready cookie p ready) refl

  pub refused-Keeps : {A : Type 0} (p : Ppd T) → Inv p → Keeps {A = A} (refused, p)
  refused-Keeps p inv = (inv, λ h. grind (arith, h))

  with_cookie-Keeps : (c : ℕ) (out : Reply Bool × Ppd T) → Keeps out → Keeps (with_cookie T c out)
  with_cookie-Keeps c (returned b, q) k = (k.0, λ h. grind (arith, h))
  with_cookie-Keeps c (refused, q) k = (k.0, λ h. grind (arith, h))
  with_cookie-Keeps c (key_error, q) k = absurd (k.1 refl)

  pub release_profile-Inv :
      (cookie : ℕ) (caller : String) (p : Ppd T)
      → Accepts T
      → Inv p
      → Keeps (release_profile T cookie caller p)
  unfolding release_profile
  release_profile-Inv cookie caller p accepts inv = elim (Option-cases (lookup cookie p.holds)) [
    | inl e ↦ rw (e, release_profile) (refused-Keeps p inv)
    | inr (h, e) ↦
        rw (e, release_profile)
          (if_intro {A = Reply Bool × Ppd T} Keeps (h.caller == caller) _ _
            (λ _. remove_hold-Inv cookie p accepts inv.ready) (λ _. refused-Keeps p inv))
  ]

  pub hold_profile-Inv :
      (h : Hold) (cookie : ℕ) (p : Ppd T) → Accepts T → Inv p → Keeps (hold_profile T h cookie p)
  unfolding hold_profile wanted
  hold_profile-Inv h cookie p accepts inv =
      if_intro {A = Reply ℕ × Ppd T} Keeps
        (not (h.profile == power_saver) && not (h.profile == performance)) _ _
        (λ _. refused-Keeps p inv)
        (λ _. with_cookie-Keeps cookie _ (
          settle (effective_hold_profile (insert cookie h p.holds)) (add_hold T cookie h p) accepts
            (record {
              faithful = inv.ready.faithful;
              distinct = insert-NodupKeys cookie h p.holds inv.ready.distinct;
              known_base = inv.ready.known_base;
            })
            (rw (not_empty cookie h p.holds) refl)))
