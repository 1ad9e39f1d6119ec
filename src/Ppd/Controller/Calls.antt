-- ===== src/Ppd/Controller/Calls.antt =====
-- Every call of tuned/ppd/controller.py keeps the invariant of its state.
use tuned.Base.{
  String, ◌≡◌, refl, sym, ap, Bool, true, false, ◌&&◌, Option, none, some, List, [], ◌⊎◌, inl, inr,
}
use tuned.Base.{◌==◌, contains, string_eq, nat_eq, option_eq, arith, Option-cases, if_intro}
use tuned.Ppd.Config.{get_profile, profile_keys, power_saver, performance}
use tuned.Ppd.Config.Inverse.{IsFaithful}
use tuned.Ppd.Controller.{Tuned, Ppd, Reply, returned, refused, key_error, unknown, is_empty_dict}
use tuned.Ppd.Controller.{switch_profile, clear_holds}
use tuned.Ppd.Controller.Holds.{Accepts, IsKnown, Switched, clear_holds_lem, switch_profile_lem}
use tuned.Base.{subst}
use tuned.Ppd.Config.{balanced}
use tuned.Ppd.Controller.{Signal}
use tuned.Ppd.Controller.{finish_setting}
use tuned.Ppd.Controller.{saved_after}
use tuned.Ppd.Controller.{save_base}
use tuned.Ppd.Controller.Invariant.{wanted, basic-IsKnown, Inv, Ready, Keeps, settle, refused-Keeps}
use tuned.Ppd.Controller.{platform_profile}
use tuned.Ppd.Controller.{set_active_profile}
use tuned.Ppd.Controller.{check_platform_profile}
use tuned.Ppd.Controller.{strip}
use tuned.Base.Dict.{contains-keys}
use tuned.Ppd.Controller.{upower_changed}
use tuned.Ppd.Controller.{check_performance_degraded}
use tuned.Ppd.Controller.{adopt_profile}
use tuned.Ppd.Controller.{tuned_profile_changed}
use tuned.Ppd.Controller.Holds.{switch_profile-active}
use tuned.Ppd.Controller.{ppd_profile_of}

platform_profile-basic :
    (name profile : String)
    → platform_profile name ≡ some profile
    → (profile ≡ power_saver) ⊎ ((profile ≡ balanced) ⊎ (profile ≡ performance))
unfolding platform_profile
platform_profile-basic name profile h = ground arith

module _ {T : Tuned} where
  clear_holds-Ready : (p : Ppd T) → Ready p → Ready (clear_holds T p)
  clear_holds-Ready p ready =
      subst Ready (sym (clear_holds_lem T p))
        (record { faithful = ready.faithful; distinct = tt; known_base = ready.known_base })

  save_base-Inv :
      (profile : String) (p q : Ppd T) (signals : List Signal) (sys : T.Sys)
      → Ready p
      → p.holds ≡ []
      → IsKnown p.config profile
      → q ≡ record p { active = some profile; signals = signals; sys = sys }
      → Inv (save_base T profile q)
  unfolding wanted is_empty_dict
  save_base-Inv profile p q signals sys ready empty known e =
      subst (λ x. Inv (save_base T profile x)) (sym e)
        (record {
          ready = record {
            faithful = ready.faithful;
            distinct = ready.distinct;
            known_base = known;
          };
          shown = inl (rw empty refl);
        })

  pub finish_setting-Keeps :
      (profile : String) (p : Ppd T) (out : Reply Bool × Ppd T)
      → Ready p
      → p.holds ≡ []
      → IsKnown p.config profile
      → Switched T profile p out
      → Keeps (finish_setting T profile out) × Keeps (saved_after T profile out)
  finish_setting-Keeps profile p (key_error, q) ready empty known (ok, e) = grind (arith, ok)
  finish_setting-Keeps profile p (refused, q) ready empty known (ok, e) = grind (arith, ok)
  finish_setting-Keeps profile p (returned false, q) ready empty known (ok, e) = grind (arith, ok)
  finish_setting-Keeps profile p (returned true, q) ready empty known (ok, e) =
      let inv = save_base-Inv profile p q q.signals q.sys ready empty known e in
      ((inv, λ h. grind (arith, h)), (inv, λ h. grind (arith, h)))

  -- Clearing the holds, switching and saving the base profile.
  cleared-Keeps :
      (profile : String) (p : Ppd T)
      → Accepts T
      → Ready p
      → IsKnown p.config profile
      → let out = switch_profile T profile (clear_holds T p) in
        Keeps (finish_setting T profile out) × Keeps (saved_after T profile out)
  cleared-Keeps profile p accepts ready known =
      let q = clear_holds T p in
      let known' : IsKnown q.config profile =
        subst (λ (x : Ppd T). IsKnown x.config profile) (sym (clear_holds_lem T p)) known in
      finish_setting-Keeps profile q (switch_profile T profile q) (clear_holds-Ready p ready)
        (ap (λ (x : Ppd T). x.holds) (clear_holds_lem T p)) known'
        (switch_profile_lem T profile q accepts known')

  pub set_active_profile-Inv :
      (profile : String) (p : Ppd T) → Accepts T → Inv p → Keeps (set_active_profile T profile p)
  unfolding set_active_profile profile_keys
  set_active_profile-Inv profile p accepts inv =
      if_intro {A = Reply Bool × Ppd T} Keeps
        (contains (profile_keys p.config.ppd_to_tuned p.on_battery) profile) _ _
        (λ h.
          (cleared-Keeps profile p accepts inv.ready
            (λ b. inv.ready.faithful.same_keys profile p.on_battery b (rw contains-keys at h))).0)
        (λ _. refused-Keeps p inv)

  pub check_platform_profile-Inv :
      (content : String) (p : Ppd T)
      → Accepts T
      → Inv p
      → Keeps (check_platform_profile T content p)
  unfolding check_platform_profile
  check_platform_profile-Inv content p accepts inv =
      elim (Option-cases (platform_profile (strip content))) [
        | inl e ↦ rw (e, check_platform_profile) (inv, λ h. grind (arith, h))
        | inr (profile, e) ↦
            rw (e, check_platform_profile)
              (cleared-Keeps profile p accepts inv.ready (
                basic-IsKnown p.config profile inv.ready.faithful
                  (platform_profile-basic (strip content) profile e))).1
      ]

  pub upower_changed-Inv :
      (on_battery : Bool) (p : Ppd T)
      → Accepts T
      → Inv p
      → Inv (upower_changed T on_battery p).1
        × ((upower_changed T on_battery p).0 ≡ key_error → p.active ≡ some unknown)
  unfolding upower_changed
  upower_changed-Inv on_battery p accepts inv = elim inv.shown [
    | inl e ↦
        let (kept, fine) =
          settle (wanted p.base p.holds) (record p { on_battery = on_battery }) accepts
            (record {
              faithful = inv.ready.faithful;
              distinct = inv.ready.distinct;
              known_base = inv.ready.known_base;
            })
            refl in
        rw (e, upower_changed) (kept, λ h. absurd (fine h))
    | inr (empty, e) ↦
        let p' = record p { on_battery = on_battery } in
        rw (e, upower_changed)
          (
            subst Inv (sym (switch_profile-active T unknown p' e)) (record {
              ready = record {
                faithful = inv.ready.faithful;
                distinct = inv.ready.distinct;
                known_base = inv.ready.known_base;
              };
              shown = inr (empty, e);
            }),
            λ _. refl,
          )
  ]

  adopt_profile-Inv :
      (profile : String) (p : Ppd T)
      → Inv p
      → (profile ≡ unknown) ⊎ (IsKnown p.config profile)
      → Inv (adopt_profile T profile p)
  unfolding adopt_profile wanted is_empty_dict
  adopt_profile-Inv profile p inv known =
      if_intro Inv (p.active == some profile) _ _ (λ _. inv)
        (λ _. rw (clear_holds_lem T p) (
          if_intro Inv (profile == unknown) _ _
            (λ h. record {
              ready = record {
                faithful = inv.ready.faithful;
                distinct = tt;
                known_base = inv.ready.known_base;
              };
              shown = inr (refl, ap some (ground (arith, h)));
            })
            (λ h. record {
              ready = record {
                faithful = inv.ready.faithful;
                distinct = tt;
                known_base = elim known [ inl e ↦ absurd (ground (arith, h, e)) | inr k ↦ k ];
              };
              shown = inl refl;
            })))

  ppd_profile_of-IsKnown :
      (t : String) (p : Ppd T)
      → IsFaithful p.config
      → (ppd_profile_of T t p ≡ unknown) ⊎ (IsKnown p.config (ppd_profile_of T t p))
  unfolding get_profile
  ppd_profile_of-IsKnown t p f =
      elim (Option-cases (get_profile p.config.tuned_to_ppd t p.on_battery)) [
        | inl e ↦ rw (e, ppd_profile_of) (inl refl)
        | inr (profile, e) ↦
            rw (e, ppd_profile_of)
              (inr (λ b. f.same_keys profile p.on_battery b (
                ap (λ o. elim o [ none ↦ false | some _ ↦ true ])
                  (f.back profile t p.on_battery e))))
      ]

  pub tuned_profile_changed-Inv :
      (t : String) (result : Bool) (p : Ppd T) → Inv p → Inv (tuned_profile_changed T t result p)
  unfolding tuned_profile_changed
  tuned_profile_changed-Inv t result p inv =
      if_intro Inv (result && T.active_profile p.sys == t) _ _
        (λ _.
          adopt_profile-Inv (ppd_profile_of T t p) p inv
            (ppd_profile_of-IsKnown t p inv.ready.faithful))
        (λ _. inv)

  pub check_performance_degraded-Inv :
      (no_turbo lap_mode : Option String) (p : Ppd T)
      → Inv p
      → Inv (check_performance_degraded T no_turbo lap_mode p)
  unfolding check_performance_degraded
  check_performance_degraded-Inv no_turbo lap_mode p inv =
      if_intro Inv _ _ _ (λ _. inv)
        (λ _. record {
          ready = record {
            faithful = inv.ready.faithful;
            distinct = inv.ready.distinct;
            known_base = inv.ready.known_base;
          };
          shown = inv.shown;
        })
