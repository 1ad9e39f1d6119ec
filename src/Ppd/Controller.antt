-- ===== src/Ppd/Controller.antt =====
-- tuned/ppd/controller.py: the active and the base profile of power-profiles-daemon, and the holds
-- by which processes ask for another one for a while. TuneD itself is a parameter.
pub mod Holds
pub mod Invariant
pub mod Calls
pub mod Restore
pub mod Runs
use tuned.Base.{
  ℕ, String, Bool, true, false, not, ◌&&◌, ◌||◌, Option, none, some, List, [], ◌∷◌, ◌++◌,
}
use tuned.Base.{◌<>◌, ◌==◌, contains, string_eq, nat_eq, option_eq, if◌then◌else◌, length, eqb}
use tuned.Base.Dict.{Dict, keys, lookup, insert, erase, has}
use tuned.Base.Text.{strip}
use tuned.Ppd.Config.{PpdConfig, get_profile, profile_keys, power_saver, performance}

abbrev pub unknown : String
unknown = "unknown"

-- `ProfileHold`, without its watch, which the bus keeps
pub record Hold : Type 0 where
  pub profile : String
  pub reason : String
  pub app_id : String
  pub caller : String

-- `PerformanceDegraded`
pub data Degraded : Type 0 where
  not_degraded lap_detected high_temperature : Degraded

abbrev pub same_degraded : Degraded → Degraded → Bool
same_degraded not_degraded not_degraded = true
same_degraded lap_detected lap_detected = true
same_degraded high_temperature high_temperature = true
same_degraded _ _ = false

-- The signals of the D-Bus interface.
pub data Signal : Type 0 where
  active_changed : String → Signal
  holds_changed : List Hold → Signal
  released : ℕ → Signal
  degraded_changed : Degraded → Signal

-- TuneD's D-Bus interface: its active and its recommended profile, and the switch to a profile.
pub record Tuned : Type 1 where
  pub Sys : Type 0
  pub active_profile : Sys → String
  pub recommend_profile : Sys → String
  pub switch : String → Sys → Bool × Sys

-- What a method does: it returns, or it raises a `DBusException`, or a `KeyError` leaves it.
pub data Reply {ℓ} (A : Type ℓ) : Type ℓ where
  returned : A → Reply A
  refused : Reply A
  key_error : Reply A

unfoldable pub hold_list : Dict ℕ Hold → List Hold
hold_list [] = []
hold_list ((_, h) ∷ holds) = h ∷ hold_list holds

unfoldable pub any_power_saver : Dict ℕ Hold → Bool
any_power_saver [] = false
any_power_saver ((_, h) ∷ holds) = h.profile == power_saver || any_power_saver holds

pub is_empty_dict : Dict ℕ Hold → Bool
is_empty_dict [] = true
is_empty_dict (_ ∷ _) = false

-- `_effective_hold_profile`
unfoldable pub effective_hold_profile : Dict ℕ Hold → String
unfolding any_power_saver
effective_hold_profile holds = if any_power_saver holds then power_saver else performance

-- The loop of `add`, for the random numbers that are drawn; `none` if none of them will do.
unfoldable pub choose_cookie : List ℕ → Dict ℕ Hold → Option ℕ
unfolding lookup
choose_cookie [] holds = none
choose_cookie (n ∷ ns) holds =
    let later = choose_cookie ns holds in if eqb n 0 || has holds n then later else some n

-- `PLATFORM_PROFILE_MAPPING`
unfoldable pub platform_profile : String → Option String
platform_profile name =
    if name == "low-power"
    then some power_saver
    else if name == "balanced"
    then some "balanced"
    else if name == "performance"
    then some performance
    else none

abbrev is_one : Option String → Bool
is_one none = false
is_one (some content) = strip content == "1"

module _ (T : Tuned) where
  open T use {Sys, active_profile, recommend_profile, switch}

  -- The fields of `Controller` and of its `ProfileHoldManager`; `active` is `None` at first.
  pub record Ppd : Type 0 where
    pub config : PpdConfig
    pub active : Option String
    pub base : String
    pub holds : Dict ℕ Hold
    pub on_battery : Bool
    pub degraded : Degraded
    pub saved_base : Option String
    pub signals : List Signal
    pub sys : Sys

  abbrev send : Signal → Ppd → Ppd
  send s p = record p { signals = p.signals ++ (s ∷ []) }

  -- `_set_tuned_profile`
  unfoldable pub set_tuned_profile : String → Ppd → Bool × Ppd
  set_tuned_profile tuned_profile p =
      if active_profile p.sys == tuned_profile
      then (true, p)
      else (let (ok, sys) = switch tuned_profile p.sys in (ok, record p { sys = sys }))

  unfoldable pub make_active : String → Ppd → Ppd
  make_active profile p =
      if p.active == some profile
      then p
      else record (send (active_changed profile) p) { active = some profile }

  -- `switch_profile`
  unfoldable pub switch_profile : String → Ppd → Reply Bool × Ppd
  unfolding set_tuned_profile make_active get_profile
  switch_profile profile p = elim (get_profile p.config.ppd_to_tuned profile p.on_battery) [
    | none ↦ (key_error, p)
    | some tuned_profile ↦
        let (ok, p') = set_tuned_profile tuned_profile p in
        if ok then (returned true, make_active profile p') else (returned false, p')
  ]

  -- `ProfileHoldManager._cancel`
  unfoldable pub cancel : ℕ → Ppd → Ppd
  unfolding lookup erase hold_list
  cancel cookie p =
      if has p.holds cookie
      then (let holds = erase cookie p.holds in
          send (holds_changed (hold_list holds))
            (send (released cookie) (record p { holds = holds })))
      else p

  cancel_all : List ℕ → Ppd → Ppd
  unfolding cancel
  cancel_all [] p = p
  cancel_all (cookie ∷ cookies) p = cancel_all cookies (cancel cookie p)

  -- `ProfileHoldManager.clear`
  unfoldable pub clear_holds : Ppd → Ppd
  unfolding cancel_all
  clear_holds p = cancel_all (keys p.holds) p

  abbrev add_hold : ℕ → Hold → Ppd → Ppd
  add_hold cookie h p =
      let holds = insert cookie h p.holds in
      send (holds_changed (hold_list holds)) (record p { holds = holds })

  abbrev with_cookie : ℕ → Reply Bool × Ppd → Reply ℕ × Ppd
  with_cookie cookie (key_error, p) = (key_error, p)
  with_cookie cookie (refused, p) = (refused, p)
  with_cookie cookie (returned b, p) = (returned cookie, p)

  -- `HoldProfile` and `ProfileHoldManager.add`, for the cookie that is drawn
  unfoldable pub hold_profile : Hold → ℕ → Ppd → Reply ℕ × Ppd
  unfolding insert switch_profile effective_hold_profile
  hold_profile h cookie p =
      if not (h.profile == power_saver) && not (h.profile == performance)
      then (refused, p)
      else with_cookie cookie
          (switch_profile (effective_hold_profile (insert cookie h p.holds)) (add_hold cookie h p))

  -- `ProfileHoldManager.remove`, also the callback for a process that disappears
  unfoldable pub remove_hold : ℕ → Ppd → Reply Bool × Ppd
  unfolding cancel effective_hold_profile switch_profile is_empty_dict
  remove_hold cookie p =
      let p' = cancel cookie p in
      switch_profile (if is_empty_dict p'.holds then p'.base else effective_hold_profile p'.holds)
        p'

  -- `ReleaseProfile`
  unfoldable pub release_profile : ℕ → String → Ppd → Reply Bool × Ppd
  unfolding remove_hold lookup
  release_profile cookie caller p = elim (lookup cookie p.holds) [
    | none ↦ (refused, p)
    | some h ↦ if h.caller == caller then remove_hold cookie p else (refused, p)
  ]

  abbrev save_base : String → Ppd → Ppd
  save_base profile p = record p { base = profile; saved_base = some (profile <> "\n") }

  abbrev finish_setting : String → Reply Bool × Ppd → Reply Bool × Ppd
  finish_setting profile (key_error, p) = (key_error, p)
  finish_setting profile (refused, p) = (refused, p)
  finish_setting profile (returned false, p) = (refused, p)
  finish_setting profile (returned true, p) = (returned true, save_base profile p)

  -- `set_active_profile`
  unfoldable pub set_active_profile : String → Ppd → Reply Bool × Ppd
  unfolding switch_profile clear_holds profile_keys
  set_active_profile profile p =
      if contains (profile_keys p.config.ppd_to_tuned p.on_battery) profile
      then finish_setting profile (switch_profile profile (clear_holds p))
      else (refused, p)

  abbrev saved_after : String → Reply Bool × Ppd → Reply Bool × Ppd
  saved_after profile (key_error, p) = (key_error, p)
  saved_after profile (refused, p) = (refused, p)
  saved_after profile (returned b, p) = (returned b, save_base profile p)

  -- `check_platform_profile`, for what the file says
  unfoldable pub check_platform_profile : String → Ppd → Reply Bool × Ppd
  unfolding platform_profile clear_holds switch_profile strip
  check_platform_profile content p = elim (platform_profile (strip content)) [
    | none ↦ (returned true, p)
    | some profile ↦ saved_after profile (switch_profile profile (clear_holds p))
  ]

  -- `_upower_changed`, for the new state of the power supply. An active profile of `None` is no
  -- key of the mapping.
  unfoldable pub upower_changed : Bool → Ppd → Reply Bool × Ppd
  unfolding switch_profile
  upower_changed on_battery p = elim p.active [
    | none ↦ (key_error, record p { on_battery = on_battery })
    | some profile ↦ switch_profile profile (record p { on_battery = on_battery })
  ]

  abbrev ppd_profile_of : String → Ppd → String
  ppd_profile_of tuned_profile p =
      elim (get_profile p.config.tuned_to_ppd tuned_profile p.on_battery) [
        | none ↦ unknown
        | some profile ↦ profile
      ]

  -- The change of the active profile in `_tuned_profile_changed`.
  unfoldable pub adopt_profile : String → Ppd → Ppd
  unfolding clear_holds
  adopt_profile profile p =
      if p.active == some profile
      then p
      else (let p' =
            send (active_changed profile) (record (clear_holds p) { active = some profile }) in
          if profile == unknown then p' else save_base profile p')

  -- `_tuned_profile_changed`
  unfoldable pub tuned_profile_changed : String → Bool → Ppd → Ppd
  unfolding adopt_profile get_profile
  tuned_profile_changed tuned_profile result p =
      if result && active_profile p.sys == tuned_profile
      then adopt_profile (ppd_profile_of tuned_profile p) p
      else p

  -- `check_performance_degraded`, for the files that exist and what they say
  unfoldable pub check_performance_degraded : Option String → Option String → Ppd → Ppd
  unfolding strip
  check_performance_degraded no_turbo lap_mode p =
      let degraded =
        if is_one lap_mode
        then lap_detected
        else if is_one no_turbo
        then high_temperature
        else not_degraded in
      if same_degraded degraded p.degraded
      then p
      else send (degraded_changed degraded) (record p { degraded = degraded })

  -- The base profile of `initialize`: the saved one, or the recommended one, or the default.
  unfoldable pub first_base : Option String → PpdConfig → Bool → Sys → String
  unfolding strip get_profile
  first_base saved config on_battery sys =
      let recommended : String =
        elim (get_profile config.tuned_to_ppd (recommend_profile sys) on_battery) [
          | none ↦ config.default_profile
          | some p ↦ if p == "" then config.default_profile else p
        ] in
      elim saved [ none ↦ recommended | some s ↦ if strip s == "" then recommended else strip s ]

  -- `initialize`, for the saved text, the power supply and the files that tell of degradation. A
  -- `KeyError` ends the daemon.
  unfoldable pub initialize :
      PpdConfig → Option String → Bool → Option String → Option String → Sys → Reply Bool × Ppd
  unfolding first_base switch_profile check_performance_degraded
  initialize config saved on_battery no_turbo lap_mode sys =
      let battery = config.battery_detection && on_battery in
      let base = first_base saved config battery sys in
      let p = check_performance_degraded no_turbo lap_mode (record {
        config = config;
        active = none;
        base = base;
        holds = [];
        on_battery = battery;
        degraded = not_degraded;
        saved_base = saved;
        signals = [];
        sys = sys;
      }) in
      saved_after base (switch_profile base p)
