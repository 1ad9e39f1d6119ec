-- ===== src/Plugins/Scheduler/Rollback.antt =====
-- tuned/plugins/plugin_scheduler.py: the scheduling and the affinity of before are written back.
use tuned.Base.{ℕ, String, not, ◌||◌, Option, none, some, List, [], ◌∷◌}
use tuned.Base.{◌==◌, string_eq, option_eq, nat_eq, if◌then◌else◌, false}
use tuned.Base.Dict.{Dict, lookup, has}
use tuned.Base.Text.{ℤ}
use tuned.Plugins.Scheduler.{
  Kernel, SchedulerParams, params_affinity, Sched, set_cgroup, set_affinity,
}

module _ (K : Kernel) where
  open K use {set_scheduler}

  -- What `_restore_ps_affinity` writes of an entry
  unfoldable pub restore_rt : ℕ → Option ℕ → Option ℤ → Sched K → Sched K
  restore_rt pid (some sched) (some prio) s = record s { sys = set_scheduler pid sched prio s.sys }
  restore_rt pid none prio s = s
  restore_rt pid (some sched) none s = s

  unfoldable pub restore_affinity : ℕ → Option String → Option (List ℕ) → Sched K → Sched K
  unfolding set_cgroup set_affinity
  restore_affinity pid (some cgroup) affinity s = set_cgroup K pid cgroup s
  restore_affinity pid none (some l) s = set_affinity K pid l s
  restore_affinity pid none none s = s

  -- One round of `_restore_ps_affinity`
  unfoldable pub restore_one : Dict ℕ String → ℕ → SchedulerParams → Sched K → Sched K
  unfolding restore_rt restore_affinity params_affinity
  restore_one ps pid params s =
      if not (lookup pid ps == params.cmdline) || not (has ps pid)
      then s
      else restore_affinity pid params.cgroup (params_affinity params)
          (restore_rt pid params.scheduler params.priority s)

  unfoldable pub restore_each : Dict ℕ String → Dict ℕ SchedulerParams → Sched K → Sched K
  unfolding restore_one
  restore_each ps [] s = s
  restore_each ps ((pid, params) ∷ d) s = restore_each ps d (restore_one ps pid params s)

  -- `_restore_ps_affinity`; `none` stands for processes that cannot be read.
  unfoldable pub restore_ps_affinity : Option (Dict ℕ String) → Sched K → Sched K
  unfolding restore_each
  restore_ps_affinity none s = s
  restore_ps_affinity (some ps) s = record (restore_each ps s.original s) {
    original = [];
    stored = false;
  }
