-- ===== src/Ppd/Controller/Restore.antt =====
-- The base profile comes back when the holds of tuned/ppd/controller.py are released.
use tuned.Base.{
  ℕ, String, ◌≡◌, ◌≢◌, refl, sym, ap, ◌∙◌, Bool, true, not, ◌&&◌, none, some, List, [], ◌∷◌, ◌⊎◌,
  inl, inr,
}
use tuned.Base.{◌==◌, contains, string_eq, nat_eq, option_eq, arith, if_intro}
use tuned.Base.Dict.{Dict, keys, lookup, insert, erase, insert-NodupKeys}
use tuned.Ppd.Config.{power_saver, performance}
use tuned.Ppd.Controller.{
  Tuned, Ppd, Hold, Reply, returned, refused, key_error, effective_hold_profile,
}
use tuned.Ppd.Controller.{cancel}
use tuned.Ppd.Controller.Holds.{Accepts, IsKnown, switch_profile_lem}
use tuned.Ppd.Controller.{hold_profile}
use tuned.Ppd.Controller.{release_profile}
use tuned.Ppd.Controller.{remove_hold}
use tuned.Base.{subst}
use tuned.Ppd.Controller.Holds.{cancel-OnlyHolds}
use tuned.Ppd.Controller.Holds.{holds-cancel}
use tuned.Ppd.Controller.{add_hold}
use tuned.Ppd.Controller.{with_cookie}
use tuned.Ppd.Controller.Invariant.{wanted, Ready}
use tuned.Base.Dict.{contains-keys}
use tuned.Base.{map}
use tuned.Ppd.Controller.Runs.{disappear, outcome, step, run}
use tuned.Ppd.Controller.Invariant.{cancel-Ready}
use tuned.Ppd.Controller.Invariant.{wanted-IsKnown}
use tuned.Ppd.Controller.Holds.{no_keys}
use tuned.Base.Dict.{lookup-insert}
use tuned.Ppd.Controller.Invariant.{not_empty}
use tuned.Base.Dict.{lookup-erase}

erase-insert : (k : ℕ) (h : Hold) (d : Dict ℕ Hold) → lookup k d ≡ none → erase k (insert k h d) ≡ d
unfolding erase insert lookup
erase-insert k h [] fresh = ground arith
erase-insert k h ((j, v) ∷ d) fresh = ground (arith, erase-insert k h d)

refused_kind :
    (profile : String)
    → (profile ≡ power_saver) ⊎ (profile ≡ performance)
    → (not (profile == power_saver) && not (profile == performance)) ≢ true
refused_kind profile (inl e) = rw e (λ h. ground (arith, h))
refused_kind profile (inr e) = rw e (λ h. ground (arith, h))

effective-wanted :
    (c : ℕ) (h : Hold) (base : String) (holds : Dict ℕ Hold)
    → wanted base (insert c h holds) ≡ effective_hold_profile (insert c h holds)
unfolding wanted
effective-wanted c h base holds = rw (not_empty c h holds) refl

module _ {T : Tuned} where
  -- The state q after a hold is gone from p.
  abbrev pub Released : ℕ → Ppd T → Ppd T → Type 0
  Released cookie p q =
      Ready q
      × (q.holds ≡ erase cookie p.holds)
      × (q.base ≡ p.base)
      × (q.active ≡ some (wanted p.base (erase cookie p.holds)))

  -- If TuneD accepts the switch, a removed hold is gone and nothing but it, the base profile stays,
  -- and the active profile is the one that the other holds ask for, or the base profile if there
  -- are none.
  pub remove_hold_lem :
      (cookie : ℕ) (p : Ppd T) → Accepts T → Ready p → Released cookie p (remove_hold T cookie p).1
  unfolding remove_hold wanted
  remove_hold_lem cookie p accepts ready =
      let q = cancel T cookie p in
      let ready' = cancel-Ready cookie p ready in
      let base : q.base ≡ p.base = ap (λ (x : Ppd T). x.base) (cancel-OnlyHolds T cookie p) in
      let holds : q.holds ≡ erase cookie p.holds = holds-cancel T cookie p in
      let (_, e) =
        switch_profile_lem T (wanted q.base q.holds) q accepts
          (wanted-IsKnown q.config q.base q.holds ready'.faithful ready'.known_base) in
      subst (Released cookie p) (sym e) (
        record {
          faithful = ready'.faithful;
          distinct = ready'.distinct;
          known_base = ready'.known_base;
        },
        holds,
        base,
        rw (base, holds) refl,
      )

  -- The state q after a hold was added to p.
  abbrev Holding : ℕ → Hold → Ppd T → Ppd T → Type 0
  Holding cookie h p q = Ready q × (q.holds ≡ insert cookie h p.holds) × (q.base ≡ p.base)

  with_cookie-state : (c : ℕ) (out : Reply Bool × Ppd T) → (with_cookie T c out).1 ≡ out.1
  with_cookie-state c (returned b, q) = refl
  with_cookie-state c (refused, q) = refl
  with_cookie-state c (key_error, q) = refl

  hold_profile_lem :
      (h : Hold) (cookie : ℕ) (p : Ppd T)
      → Accepts T
      → Ready p
      → (h.profile ≡ power_saver) ⊎ (h.profile ≡ performance)
      → Holding cookie h p (hold_profile T h cookie p).1
  unfolding hold_profile
  hold_profile_lem h cookie p accepts ready kind =
      let holds = insert cookie h p.holds in
      let q = add_hold T cookie h p in
      let ready' : Ready q = record {
        faithful = ready.faithful;
        distinct = insert-NodupKeys cookie h p.holds ready.distinct;
        known_base = ready.known_base;
      } in
      let switched = switch_profile_lem T (effective_hold_profile holds) q accepts (
        subst (IsKnown p.config) (effective-wanted cookie h p.base p.holds)
          (wanted-IsKnown p.config p.base holds ready.faithful ready.known_base)) in
      if_intro {A = Reply ℕ × Ppd T} (λ o. Holding cookie h p o.1)
        (not (h.profile == power_saver) && not (h.profile == performance)) _ _
        (λ e. absurd (refused_kind h.profile kind e))
        (λ _. subst (Holding cookie h p) (sym (with_cookie-state cookie _)) (
          subst (Holding cookie h p) (sym switched.1) (
            record {
              faithful = ready'.faithful;
              distinct = ready'.distinct;
              known_base = ready'.known_base;
            },
            refl,
            refl,
          )))

  own_release :
      (cookie : ℕ) (h : Hold) (q : Ppd T)
      → lookup cookie q.holds ≡ some h
      → (release_profile T cookie h.caller q).1 ≡ (remove_hold T cookie q).1
  unfolding release_profile
  own_release cookie h q found =
      rw (found, release_profile)
        (if_intro {A = Reply Bool × Ppd T} (λ o. o.1 ≡ (remove_hold T cookie q).1)
          (h.caller == h.caller) _ _ (λ _. refl) (λ e. absurd (ground (arith, e))))

  outcome-state : (out : Reply Bool × Ppd T) → (outcome out).1 ≡ out.1
  outcome-state (returned b, q) = refl
  outcome-state (refused, q) = refl
  outcome-state (key_error, q) = refl

  -- With a faithful configuration, a known base profile and a TuneD that accepts every profile, a
  -- hold of power-saver or performance with a fresh cookie and its release by the same process leave
  -- the holds and the base profile as they were, and make the profile active that they ask for.
  pub release_profile-hold_profile :
      (h : Hold) (cookie : ℕ) (p : Ppd T)
      → Accepts T
      → Ready p
      → (h.profile ≡ power_saver) ⊎ (h.profile ≡ performance)
      → lookup cookie p.holds ≡ none
      → let q = (release_profile T cookie h.caller (hold_profile T h cookie p).1).1 in
        (q.holds ≡ p.holds) × (q.base ≡ p.base) × (q.active ≡ some (wanted p.base p.holds))
  release_profile-hold_profile h cookie p accepts ready kind fresh =
      let q = (hold_profile T h cookie p).1 in
      let (ready', holds, base) = hold_profile_lem h cookie p accepts ready kind in
      let (_, holds', base', active) = remove_hold_lem cookie q accepts ready' in
      let found : lookup cookie q.holds ≡ some h =
        rw (holds, lookup-insert cookie cookie h p.holds) (ground arith) in
      let same : erase cookie q.holds ≡ p.holds = rw holds (erase-insert cookie h p.holds fresh) in
      subst
        (λ (x : Ppd T).
          (x.holds ≡ p.holds) × (x.base ≡ p.base) × (x.active ≡ some (wanted p.base p.holds)))
        (sym (own_release cookie h q found))
        (rw (holds', same) refl, base' ∙ base, rw (active, base, same) refl)

  -- With a faithful configuration, a known base profile, a TuneD that accepts every profile, and the
  -- profile active that the holds ask for: when the processes of all holds disappear, in whatever
  -- order, the base profile is active in the end.
  pub run-disappear :
      (cookies : List ℕ) (p : Ppd T)
      → Accepts T
      → Ready p
      → p.active ≡ some (wanted p.base p.holds)
      → ((k : ℕ) → contains (keys p.holds) k ≡ true → contains cookies k ≡ true)
      → (run T (map disappear cookies) p).active ≡ some p.base
  unfolding run step wanted
  run-disappear [] p accepts ready shown all = shown ∙ ap some (rw (no_keys p.holds all) refl)
  run-disappear (k ∷ ks) p accepts ready shown all =
      let (ready', holds, base, active) = remove_hold_lem k p accepts ready in
      subst (λ x. (run T (map disappear ks) x).active ≡ some p.base)
        (sym (outcome-state (remove_hold T k p)))
        (run-disappear ks (remove_hold T k p).1 accepts ready' (rw (holds, base) active) (λ j a.
            ground (
              arith,
              all j,
              rw holds at a,
              contains-keys (erase k p.holds) j,
              contains-keys p.holds j,
              lookup-erase j k p.holds,
            ))
          ∙ ap some base)
