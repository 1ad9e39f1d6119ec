-- ===== src/Daemon/Loop/Ending.antt =====
-- How the thread of tuned/daemon/daemon.py ends.
use tuned.Base.{◌≡◌, Bool, true, false, not, ◌&&◌, ◌||◌, arith, ◌==◌, string_eq}
use tuned.Plugins.Tuning.{Rollback, none_at_all, soft, full, is_full}
use tuned.Daemon.Loop.{Settings, choose_rollback}

abbrev pub is_none : Rollback → Bool
is_none none_at_all = true
is_none soft = false
is_none full = false

-- A rollback at the end of the thread is full exactly for a profile switch, and for a daemon where
-- a full rollback is required and the option is not `not_on_exit`. There is no rollback exactly if
-- the option says so, no profile is switched and a full rollback is required.
pub choose_rollback_lem :
    (o : Settings) (profile_switch required : Bool)
    → (is_full (choose_rollback o profile_switch required)
        ≡ (profile_switch || (required && (not (o.rollback == "not_on_exit") && o.is_daemon))))
      × (is_none (choose_rollback o profile_switch required)
          ≡ (not profile_switch && (required && o.rollback == "not_on_exit")))
unfolding choose_rollback
choose_rollback_lem o profile_switch required = (ground arith, ground arith)
