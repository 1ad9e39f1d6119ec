-- ===== src/Ppd/Controller/Holds.antt =====
-- Clearing the holds and switching the profile in tuned/ppd/controller.py.
use tuned.Base.{
  ℕ, String, ◌≡◌, ◌≢◌, refl, sym, ap, ◌∙◌, Bool, true, false, none, some, List, [], ◌∷◌, inl, inr,
}
use tuned.Base.{
  ◌==◌, contains, string_eq, nat_eq, option_eq, if◌then◌else◌, arith, Option-cases, if_intro,
}
use tuned.Base.Dict.{Dict, keys, lookup-erase, erase, erase_absent, has, contains-keys}
use tuned.Ppd.Config.{PpdConfig, get_profile, profile_map}
use tuned.Ppd.Controller.{Tuned, Ppd, Hold, Reply, returned}
use tuned.Ppd.Controller.{
  set_tuned_profile, make_active, switch_profile, cancel, cancel_all, clear_holds,
}

-- TuneD switches to every profile of the configuration.
abbrev pub Accepts : Tuned → Type 0
Accepts T = (t : String) (s : T.Sys) → (T.switch t s).0 ≡ true

-- A profile of the configuration, on mains and on battery.
abbrev pub IsKnown : PpdConfig → String → Type 0
IsKnown c profile = (b : Bool) → has (profile_map c.ppd_to_tuned b) profile ≡ true

pub no_keys : (d : Dict ℕ Hold) → ((k : ℕ) → contains (keys d) k ≡ true → false ≡ true) → d ≡ []
no_keys [] h = refl
no_keys ((k, v) ∷ d) h = absurd (ground (arith, h k))

module _ (T : Tuned) where
  -- Nothing but the holds and the signals differs.
  abbrev pub OnlyHolds : Ppd T → Ppd T → Type 0
  OnlyHolds p q = q ≡ record p { holds = q.holds; signals = q.signals }

  pub cancel-OnlyHolds : (cookie : ℕ) (p : Ppd T) → OnlyHolds p (cancel T cookie p)
  unfolding cancel
  cancel-OnlyHolds cookie p =
      if_intro (OnlyHolds p) (has p.holds cookie) _ _ (λ _. refl) (λ _. refl)

  pub holds-cancel : (cookie : ℕ) (p : Ppd T) → (cancel T cookie p).holds ≡ erase cookie p.holds
  unfolding cancel
  holds-cancel cookie p =
      if_intro {A = Ppd T} (λ q. q.holds ≡ erase cookie p.holds) (has p.holds cookie) _ _
        (λ _. refl) (λ h. sym (erase_absent cookie p.holds (ground (arith, h))))

  OnlyHolds-trans : (p q r : Ppd T) → OnlyHolds p q → OnlyHolds q r → OnlyHolds p r
  OnlyHolds-trans p q r h k =
      k ∙ ap (λ (x : Ppd T). record x { holds = r.holds; signals = r.signals }) h

  cancel_all-OnlyHolds : (cookies : List ℕ) (p : Ppd T) → OnlyHolds p (cancel_all T cookies p)
  unfolding cancel_all
  cancel_all-OnlyHolds [] p = refl
  cancel_all-OnlyHolds (k ∷ ks) p =
      OnlyHolds-trans p (cancel T k p) (cancel_all T ks (cancel T k p)) (cancel-OnlyHolds k p)
        (cancel_all-OnlyHolds ks (cancel T k p))

  no_holds :
      (cookies : List ℕ) (p : Ppd T)
      → ((k : ℕ) → contains (keys p.holds) k ≡ true → contains cookies k ≡ true)
      → (cancel_all T cookies p).holds ≡ []
  unfolding cancel_all
  no_holds [] p h = no_keys p.holds h
  no_holds (k ∷ ks) p h = no_holds ks (cancel T k p) (λ j a. ground (
    arith,
    h j,
    rw holds-cancel at a,
    contains-keys (erase k p.holds) j,
    contains-keys p.holds j,
    lookup-erase j k p.holds,
  ))

  -- All holds are gone, and nothing else has changed but the signals.
  pub clear_holds_lem :
      (p : Ppd T) → clear_holds T p ≡ record p { holds = []; signals = (clear_holds T p).signals }
  unfolding clear_holds
  clear_holds_lem p =
      cancel_all-OnlyHolds (keys p.holds) p
      ∙ ap
          (λ (d : Dict ℕ Hold). record p {
            holds = d;
            signals = (cancel_all T (keys p.holds) p).signals;
          })
          (no_holds (keys p.holds) p (λ k h. h))

  make_active_lem :
      (profile : String) (p : Ppd T)
      → make_active T profile p
        ≡ record p { active = some profile; signals = (make_active T profile p).signals }
  unfolding make_active
  make_active_lem profile p =
      if_intro {A = Ppd T} (λ q. q ≡ record p { active = some profile; signals = q.signals })
        (p.active == some profile) _ _ (λ h. ap (λ a. record p { active = a }) (ground (arith, h)))
        (λ _. refl)

  -- The state after a switch: the profile is active, and TuneD may have been told.
  abbrev pub Switched : String → Ppd T → Reply Bool × Ppd T → Type 0
  Switched profile p (r, q) =
      (r ≡ returned true)
      × (q ≡ record p { active = some profile; signals = q.signals; sys = q.sys })

  set_tuned_profile-sys :
      (t : String) (p : Ppd T)
      → (set_tuned_profile T t p).1 ≡ record p { sys = (set_tuned_profile T t p).1.sys }
  unfolding set_tuned_profile
  set_tuned_profile-sys t p =
      if_intro {A = Bool × Ppd T} (λ r. r.1 ≡ record p { sys = r.1.sys })
        (T.active_profile p.sys == t) _ _ (λ _. refl) (λ _. refl)

  set_tuned_profile_lem : (t : String) (p : Ppd T) → Accepts T → (set_tuned_profile T t p).0 ≡ true
  unfolding set_tuned_profile
  set_tuned_profile_lem t p accepts =
      if_intro {A = Bool × Ppd T} (λ r. r.0 ≡ true) (T.active_profile p.sys == t) _ _ (λ _. refl)
        (λ _. accepts t p.sys)

  Switched-after :
      (profile : String) (p : Ppd T) (ok : Bool) (q : Ppd T)
      → ok ≡ true
      → q ≡ record p { sys = q.sys }
      → Switched profile p
          (if ok then (returned true, make_active T profile q) else (returned false, q))
  Switched-after profile p false q h e = absurd (ground (arith, h))
  Switched-after profile p true q h e = (
    refl,
    make_active_lem profile q
        ∙ ap
            (λ (x : Ppd T). record x {
              active = some profile;
              signals = (make_active T profile q).signals;
              sys = q.sys;
            })
            e
        ∙ ap
            (λ (y : T.Sys). record p {
              active = some profile;
              signals = (make_active T profile q).signals;
              sys = y;
            })
            (sym (ap (λ (x : Ppd T). x.sys) (make_active_lem profile q))),
  )

  unknown_profile :
      (p : Ppd T) (profile : String)
      → IsKnown p.config profile
      → get_profile p.config.ppd_to_tuned profile p.on_battery ≢ none
  unfolding get_profile
  unknown_profile p profile known h = ground (arith, known p.on_battery)

  -- A profile of the configuration becomes the active one if TuneD accepts it.
  pub switch_profile_lem :
      (profile : String) (p : Ppd T)
      → Accepts T
      → IsKnown p.config profile
      → Switched profile p (switch_profile T profile p)
  unfolding switch_profile
  switch_profile_lem profile p accepts known =
      elim (Option-cases (get_profile p.config.ppd_to_tuned profile p.on_battery)) [
        | inl h ↦ absurd (unknown_profile p profile known h)
        | inr (t, h) ↦
            rw (h, switch_profile)
              (Switched-after profile p _ (set_tuned_profile T t p).1
                (set_tuned_profile_lem t p accepts) (set_tuned_profile-sys t p))
      ]

  -- Switching to the profile that is active already changes at most TuneD.
  pub switch_profile-active :
      (profile : String) (p : Ppd T)
      → p.active ≡ some profile
      → let q = (switch_profile T profile p).1 in q ≡ record p { signals = q.signals; sys = q.sys }
  unfolding switch_profile
  switch_profile-active profile p h =
      elim (Option-cases (get_profile p.config.ppd_to_tuned profile p.on_battery)) [
        | inl e ↦ rw (e, switch_profile) refl
        | inr (t, e) ↦
            let q = (set_tuned_profile T t p).1 in
            let m = make_active T profile q in
            rw (e, switch_profile)
              (if_intro {A = Reply Bool × Ppd T}
                (λ r. r.1 ≡ record p { signals = r.1.signals; sys = r.1.sys })
                (set_tuned_profile T t p).0 (returned true, m) (returned false, q)
                (λ _.
                  (Switched-after profile p true q refl (set_tuned_profile-sys t p)).1
                  ∙ ap (λ a. record p { active = a; signals = m.signals; sys = m.sys }) (sym h))
                (λ _.
                  set_tuned_profile-sys t p
                  ∙ ap (λ l. record p { signals = l; sys = q.sys })
                      (sym (ap (λ (x : Ppd T). x.signals) (set_tuned_profile-sys t p)))))
      ]
