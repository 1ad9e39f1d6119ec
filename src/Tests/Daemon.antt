-- ===== src/Tests/Daemon.antt =====
-- A daemon whose thread counts its updates, and one that is to load a profile.
use tuned.Base.{
  ℕ, suc, ◌/◌, String, ◌≡◌, refl, true, false, Option, none, some, List, [], ◌∷◌, string_eq, arith,
}
use tuned.Base.Text.{words}
use tuned.Profiles.Unit.{Profile, empty_profile}
use tuned.Daemon.Loop.{Calls, Settings, main_loop}
use tuned.Daemon.Loop.Rounds.{updated, main_loop_lem}
use tuned.Daemon.Switch.{Daemon, set_profile, set_all_profiles}
use tuned.Daemon.Switch.Outcome.{
  OnlySignals, IsSwitched, Replaced, set_profile_lem, set_all_profiles_lem,
}

abbrev counting : Calls
counting = record {
  Units = ℕ;
  create = λ p u. u;
  save_active_profile = λ u. u;
  save_post_loaded_profile = λ u. u;
  start_exports = λ u. u;
  notify_profile_changed = λ u. u;
  start_tuning = λ u. u;
  update_monitors = λ u. u;
  update_tuning = λ u. suc u;
  stop_tuning = λ r u. u;
  destroy_all = λ u. u;
}

abbrev daemon_settings : Settings
daemon_settings = record { is_daemon = true; dynamic_tuning = true; cycles = 10; rollback = "auto" }

abbrev pub idle_daemon : Daemon
idle_daemon = record {
  profile = none;
  manual = none;
  active_profiles = [];
  post_loaded = none;
  running = false;
  profile_applied = false;
  profile_switch = false;
  signals = [];
  saved_active = none;
  saved_post_loaded = none;
}

abbrev pub known_names : List String
known_names = "balanced" ∷ "powersave" ∷ []

abbrev pub named : List String → Option Profile
named names = some empty_profile

main_loop_lem_example : main_loop counting daemon_settings 25 10 0 ≡ updated counting (25 / 10) 0
main_loop_lem_example = main_loop_lem counting daemon_settings refl 25 0 (omega arith)

set_profile_lem_example :
    ((set_profile known_names named (some "balanced") true idle_daemon).0 ≡ false
      → OnlySignals idle_daemon
          (set_profile known_names named (some "balanced") true idle_daemon).1)
    × ((set_profile known_names named (some "balanced") true idle_daemon).0 ≡ true
        → IsSwitched known_names named "balanced" true idle_daemon
            (set_profile known_names named (some "balanced") true idle_daemon).1)
set_profile_lem_example = set_profile_lem known_names named "balanced" true idle_daemon

set_all_profiles_lem_example :
    Replaced known_names named "balanced"
      (some "extra")
      true
      true
      idle_daemon
      (set_all_profiles known_names named (some "balanced") true (some "extra") true idle_daemon)
set_all_profiles_lem_example =
    set_all_profiles_lem known_names named "balanced" (some "extra") true true idle_daemon

-- "extra" is not known: the call raises, and the post-loaded profile is replaced.
replaced_early :
    let (ok, d) =
      set_all_profiles known_names named (some "balanced") true (some "extra") true idle_daemon in
    (ok ≡ false) × (d.post_loaded ≡ some "extra")
unfolding set_all_profiles string_eq words
replaced_early = (refl, refl)
