-- ===== src/Daemon/Loop.antt =====
-- The thread of the daemon: `_thread_code` in tuned/daemon/daemon.py, with the intervals that
-- `Daemon.__init__` computes for it.
pub mod Rounds
pub mod Ending
use tuned.Base.{
  ℕ, zero, suc, ◌+◌, ◌-◌, ◌/◌, String, Bool, true, false, not, ◌&&◌, ◌||◌, Option, none, some, List,
  [], ◌∷◌,
}
use tuned.Base.{◌==◌, string_eq, if◌then◌else◌, leb, ltb}
use tuned.Base.Dict.{lookup, insert}
use tuned.Base.Text.{ℤ, pos, negsuc}
use tuned.Profiles.Unit.{Value, Profile, ProfileUnit, create_unit}
use tuned.Plugins.Tuning.{Rollback, none_at_all, soft, full}

-- `CFG_DEF_SLEEP_INTERVAL`
abbrev default_sleep : ℕ
default_sleep = 1

-- The sleep interval of a configuration: one that is not positive gives the default.
unfoldable pub sleep_interval : ℤ → ℕ
sleep_interval (pos zero) = default_sleep
sleep_interval (pos (suc n)) = suc n
sleep_interval (negsuc n) = default_sleep

-- The update interval for a sleep interval: zero stays, less than the sleep interval is that.
unfoldable pub update_interval : ℕ → ℤ → ℕ
update_interval sleep (pos zero) = 0
update_interval sleep (pos (suc n)) = if ltb (suc n) sleep then sleep else suc n
update_interval sleep (negsuc n) = sleep

-- An update interval of zero turns dynamic tuning off.
unfoldable pub is_dynamic : ℤ → Bool → Bool
is_dynamic (pos zero) dynamic = false
is_dynamic (pos (suc n)) dynamic = dynamic
is_dynamic (negsuc n) dynamic = dynamic

-- `self._sleep_cycles`
unfoldable pub sleep_cycles : ℤ → ℤ → ℕ
unfolding sleep_interval update_interval
sleep_cycles sleep update = update_interval (sleep_interval sleep) update / sleep_interval sleep

-- What the thread asks of the unit manager and of the exports.
pub record Calls : Type 1 where
  pub Units : Type 0
  pub create : Profile → Units → Units
  -- the files that keep the profiles' names, the exports and the signal of a changed profile
  pub save_active_profile : Units → Units
  pub save_post_loaded_profile : Units → Units
  pub start_exports : Units → Units
  pub notify_profile_changed : Units → Units
  pub start_tuning : Units → Units
  pub update_monitors : Units → Units
  pub update_tuning : Units → Units
  pub stop_tuning : Rollback → Units → Units
  pub destroy_all : Units → Units

-- The options of the daemon that its thread reads.
pub record Settings : Type 0 where
  pub is_daemon : Bool
  pub dynamic_tuning : Bool
  pub cycles : ℕ
  pub rollback : String

-- `_full_rollback_required`: the two `systemctl` calls with their outputs; the second's regular
-- expression is the library's.
pub record Systemctl : Type 0 where
  pub running_fails : Bool
  pub running_out : String
  pub jobs_failed : Bool
  pub jobs_shut_down : Bool

module _ (is_stopping : String → Bool) where
  unfoldable pub full_rollback_required : Systemctl → Bool
  full_rollback_required s =
      if s.running_fails
      then false
      else if is_stopping s.running_out
      then false
      else not s.jobs_shut_down && not s.jobs_failed

-- The kind of rollback at the end, where the thread ends by a profile switch or not.
unfoldable pub choose_rollback : Settings → Bool → Bool → Rollback
choose_rollback o profile_switch required =
    if profile_switch
    then full
    else if not required
    then soft
    else if o.rollback == "not_on_exit"
    then none_at_all
    else if o.is_daemon
    then full
    else soft

-- `_ensure_bootloader_unit`, where `has_bootc` says that the `bootc` command succeeds
unfoldable pub ensure_bootloader_unit : (Value → List String) → Bool → Profile → Profile
unfolding lookup insert create_unit
ensure_bootloader_unit split_drop has_bootc p = elim (lookup "bootloader" p.units) [
  | some u ↦ p
  | none ↦
      if has_bootc
      then record p { units = insert "bootloader" (create_unit split_drop "bootloader" []) p.units }
      else p
]

module _ (C : Calls) where
  open C use {
    Units, save_active_profile, save_post_loaded_profile, start_exports, notify_profile_changed,
  }
  open C use {create, start_tuning, update_monitors, update_tuning, stop_tuning, destroy_all}

  -- The main loop, for a number of waits that time out before the thread is to terminate.
  unfoldable pub main_loop : Settings → ℕ → ℕ → Units → Units
  main_loop o zero count u = u
  main_loop o (suc waits) count u =
      if not o.dynamic_tuning
      then main_loop o waits count u
      else if leb count 1
      then main_loop o waits o.cycles (update_tuning (update_monitors u))
      else main_loop o waits (count - 1) u

  -- `_thread_code` up to its main loop; the flags of the threads are not part of the model.
  unfoldable pub begin : Settings → Profile → Units → Units
  begin o profile u =
      let tuned =
        start_tuning (save_post_loaded_profile (save_active_profile (create profile u))) in
      notify_profile_changed (if o.is_daemon then start_exports tuned else tuned)

  -- `_thread_code`; without a profile it raises an exception at once.
  unfoldable pub thread_code :
      (Value → List String)
      → Settings
      → ℕ
      → Bool
      → Bool
      → Bool
      → Option Profile
      → Units
      → Option Units
  unfolding begin main_loop choose_rollback ensure_bootloader_unit
  thread_code split_drop o waits profile_switch required has_bootc none u = none
  thread_code split_drop o waits profile_switch required has_bootc (some profile) u =
      let tuned = begin o (ensure_bootloader_unit split_drop has_bootc profile) u in
      let waited = if o.is_daemon then main_loop o waits o.cycles tuned else tuned in
      some (
        destroy_all (
          if o.is_daemon
          then stop_tuning (choose_rollback o profile_switch required) waited
          else waited))
