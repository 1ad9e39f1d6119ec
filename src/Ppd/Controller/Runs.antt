-- ===== src/Ppd/Controller/Runs.antt =====
-- Runs of tuned/ppd/controller.py: a start and the calls that follow it.
use tuned.Base.{
  ℕ, String, ◌≡◌, refl, sym, ap, Bool, true, false, ◌&&◌, Option, none, some, List, [], ◌∷◌, inl,
  inr,
}
use tuned.Base.{string_eq, nat_eq, option_eq, arith, Option-cases, if_intro}
use tuned.Ppd.Config.{PpdConfig}
use tuned.Ppd.Config.Inverse.{IsFaithful}
use tuned.Ppd.Controller.{Tuned, Ppd, Hold, Reply, returned, refused, key_error, unknown}
use tuned.Ppd.Controller.{switch_profile}
use tuned.Ppd.Controller.Holds.{Accepts, IsKnown, switch_profile_lem}
use tuned.Ppd.Controller.{hold_profile}
use tuned.Ppd.Controller.{release_profile}
use tuned.Ppd.Controller.{remove_hold}
use tuned.Base.{subst}
use tuned.Ppd.Controller.Invariant.{
  Inv, Ready, Keeps, remove_hold-Inv, release_profile-Inv, hold_profile-Inv,
}
use tuned.Ppd.Controller.{set_active_profile}
use tuned.Ppd.Controller.{check_platform_profile}
use tuned.Ppd.Controller.{upower_changed}
use tuned.Ppd.Controller.{check_performance_degraded}
use tuned.Ppd.Controller.{tuned_profile_changed}
use tuned.Ppd.Controller.Calls.{
  set_active_profile-Inv, check_platform_profile-Inv, upower_changed-Inv, tuned_profile_changed-Inv,
  check_performance_degraded-Inv,
}
use tuned.Ppd.Controller.{choose_cookie}
use tuned.Ppd.Controller.{initialize}
use tuned.Ppd.Controller.{first_base}
use tuned.Ppd.Controller.{not_degraded}
use tuned.Ppd.Controller.Calls.{finish_setting-Keeps}

-- What calls the controller: the D-Bus methods and the property, the callback for a process that
-- is gone, the files of the platform profile and of degradation, the power supply and TuneD.
pub data Call : Type 0 where
  hold : Hold → List ℕ → Call
  release : ℕ → String → Call
  disappear : ℕ → Call
  set_active : String → Call
  platform_written : String → Call
  power_supply : Bool → Call
  tuned_changed : String → Bool → Call
  degradation : Option String → Option String → Call

-- The state after a call, and whether a `KeyError` leaves it.
abbrev pub outcome : {A : Type 0} {T : Tuned} → Reply A × Ppd T → Bool × Ppd T
outcome (key_error, p) = (true, p)
outcome (refused, p) = (false, p)
outcome (returned a, p) = (false, p)

module _ (T : Tuned) where
  unfoldable pub step : Call → Ppd T → Bool × Ppd T
  unfolding hold_profile choose_cookie release_profile remove_hold set_active_profile
      check_platform_profile upower_changed tuned_profile_changed check_performance_degraded
  step (hold h draws) p = elim (choose_cookie draws p.holds) [
    | none ↦ (false, p)
    | some cookie ↦ outcome (hold_profile T h cookie p)
  ]
  step (release cookie caller) p = outcome (release_profile T cookie caller p)
  step (disappear cookie) p = outcome (remove_hold T cookie p)
  step (set_active profile) p = outcome (set_active_profile T profile p)
  step (platform_written content) p = outcome (check_platform_profile T content p)
  step (power_supply on_battery) p = outcome (upower_changed T on_battery p)
  step (tuned_changed t result) p = (false, tuned_profile_changed T t result p)
  step (degradation no_turbo lap_mode) p = (false, check_performance_degraded T no_turbo lap_mode p)

  unfoldable pub run : List Call → Ppd T → Ppd T
  unfolding step
  run [] p = p
  run (c ∷ cs) p = run cs (step c p).1

module _ {T : Tuned} where
  outcome-Inv : {A : Type 0} (out : Reply A × Ppd T) → Inv out.1 → Inv (outcome out).1
  outcome-Inv (key_error, p) inv = inv
  outcome-Inv (refused, p) inv = inv
  outcome-Inv (returned a, p) inv = inv

  outcome-fine : {A : Type 0} (out : Reply A × Ppd T) → (outcome out).0 ≡ true → out.0 ≡ key_error
  outcome-fine (key_error, p) h = refl
  outcome-fine (refused, p) h = absurd (ground (arith, h))
  outcome-fine (returned a, p) h = absurd (ground (arith, h))

  -- The invariant after a call, and a `KeyError` only where the active profile was "unknown".
  abbrev pub Steps : Ppd T → Bool × Ppd T → Type 0
  Steps p (raised, q) = Inv q × (raised ≡ true → p.active ≡ some unknown)

  Keeps-Steps : {A : Type 0} (p : Ppd T) (out : Reply A × Ppd T) → Keeps out → Steps p (outcome out)
  Keeps-Steps p out (inv, fine) = (outcome-Inv out inv, λ h. absurd (fine (outcome-fine out h)))

  silent : (p q : Ppd T) → Inv q → Steps p (false, q)
  silent p q inv = (inv, λ h. absurd (ground (arith, h)))

  -- If TuneD accepts every profile, a call keeps the invariant of the state, and a `KeyError` leaves
  -- the call only where the active profile was "unknown".
  pub step-Steps : (c : Call) (p : Ppd T) → Accepts T → Inv p → Steps p (step T c p)
  unfolding step
  step-Steps (hold h draws) p accepts inv = elim (Option-cases (choose_cookie draws p.holds)) [
    | inl e ↦ rw (e, step) (silent p p inv)
    | inr (cookie, e) ↦ rw (e, step) (Keeps-Steps p _ (hold_profile-Inv h cookie p accepts inv))
  ]
  step-Steps (release cookie caller) p accepts inv =
      Keeps-Steps p _ (release_profile-Inv cookie caller p accepts inv)
  step-Steps (disappear cookie) p accepts inv =
      Keeps-Steps p _ (remove_hold-Inv cookie p accepts inv.ready)
  step-Steps (set_active profile) p accepts inv =
      Keeps-Steps p _ (set_active_profile-Inv profile p accepts inv)
  step-Steps (platform_written content) p accepts inv =
      Keeps-Steps p _ (check_platform_profile-Inv content p accepts inv)
  step-Steps (power_supply on_battery) p accepts inv =
      let (kept, fine) = upower_changed-Inv on_battery p accepts inv in
      (outcome-Inv _ kept, λ h. fine (outcome-fine _ h))
  step-Steps (tuned_changed t result) p accepts inv =
      silent p _ (tuned_profile_changed-Inv t result p inv)
  step-Steps (degradation no_turbo lap_mode) p accepts inv =
      silent p _ (check_performance_degraded-Inv no_turbo lap_mode p inv)

  run-Inv : (cs : List Call) (p : Ppd T) → Accepts T → Inv p → Inv (run T cs p)
  unfolding run
  run-Inv [] p accepts inv = inv
  run-Inv (c ∷ cs) p accepts inv = run-Inv cs _ accepts (step-Steps c p accepts inv).0

  degraded_lem :
      (no_turbo lap_mode : Option String) (p : Ppd T)
      → let q = check_performance_degraded T no_turbo lap_mode p in
        q ≡ record p { degraded = q.degraded; signals = q.signals }
  unfolding check_performance_degraded
  degraded_lem no_turbo lap_mode p =
      if_intro {A = Ppd T} (λ q. q ≡ record p { degraded = q.degraded; signals = q.signals }) _ _ _
        (λ _. refl) (λ _. refl)

  initialize-Inv :
      (config : PpdConfig) (saved no_turbo lap_mode : Option String) (on_battery : Bool)
      (sys : T.Sys)
      → Accepts T
      → IsFaithful config
      → IsKnown config (first_base T saved config (config.battery_detection && on_battery) sys)
      → Keeps (initialize T config saved on_battery no_turbo lap_mode sys)
  unfolding initialize
  initialize-Inv config saved no_turbo lap_mode on_battery sys accepts f known =
      let battery = config.battery_detection && on_battery in
      let base = first_base T saved config battery sys in
      let p : Ppd T = record {
        config = config;
        active = none;
        base = base;
        holds = [];
        on_battery = battery;
        degraded = not_degraded;
        saved_base = saved;
        signals = [];
        sys = sys;
      } in
      let q = check_performance_degraded T no_turbo lap_mode p in
      let same = sym (degraded_lem no_turbo lap_mode p) in
      let known' : IsKnown q.config base =
        subst (λ (x : Ppd T). IsKnown x.config base) same known in
      (finish_setting-Keeps base q (switch_profile T base q)
        (subst Ready same (record { faithful = f; distinct = tt; known_base = known }))
        (ap (λ (x : Ppd T). x.holds) (degraded_lem no_turbo lap_mode p)) known'
        (switch_profile_lem T base q accepts known')).1

  -- After the start with a base profile that a faithful configuration knows, and after any calls,
  -- with a TuneD that accepts every profile, the active profile is the one that the holds ask
  -- for, power-saver before performance, or without holds the base profile or "unknown"; the base
  -- profile is known, and no cookie stands for two holds.
  pub run-initialize-Inv :
      (cs : List Call) (config : PpdConfig) (saved no_turbo lap_mode : Option String)
      (on_battery : Bool) (sys : T.Sys)
      → Accepts T
      → IsFaithful config
      → IsKnown config (first_base T saved config (config.battery_detection && on_battery) sys)
      → Inv (run T cs (initialize T config saved on_battery no_turbo lap_mode sys).1)
  run-initialize-Inv cs config saved no_turbo lap_mode on_battery sys accepts f known =
      run-Inv cs _ accepts
        (initialize-Inv config saved no_turbo lap_mode on_battery sys accepts f known).0
