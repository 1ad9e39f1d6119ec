-- ===== src/Plugins/Scheduler/Objects.antt =====
-- tuned/plugins/plugin_scheduler.py: the affinity of all processes and threads at once, and the
-- processes that appear and disappear.
use tuned.Base.{ℕ, String, Bool, true, false, not, ◌&&◌, ◌||◌, Option, none, some, List, [], ◌∷◌}
use tuned.Base.{◌==◌, string_eq, nat_eq, if◌then◌else◌, select}
use tuned.Base.Dict.{Dict, erase, has, update, values}
use tuned.Plugins.Scheduler.{
  Kernel, found, vanished, failed, Rule, Affinity, Task, Sched, tune_process_affinity, set_cmdline,
  tune_process,
}

module _ (K : Kernel) where
  open K use {search}

  -- One round of the loop of `_set_all_obj_affinity`, without the threads; whether it goes on
  unfoldable pub tune_obj : Affinity → Task → Sched K → Bool × Sched K
  unfolding tune_process_affinity set_cmdline
  tune_obj affinity t s = elim t.cmd [
    | found cmd ↦
        let (cont, s') = tune_process_affinity K t.pid (some affinity) true s in
        if cont then (true, set_cmdline K t.pid cmd s') else (false, s')
    | vanished ↦ (false, s)
    | failed ↦ (false, s)
  ]

  -- The tests of `_set_all_obj_affinity`
  unfoldable pub is_chosen : Sched K → Task → Bool
  is_chosen s t =
      (s.kthread_process || not t.is_kthread)
      && (search s.ps_whitelist t.comm
          && (s.ps_blacklist == "" || not (search s.ps_blacklist t.comm)))

  unfoldable pub by_pid : List Task → Dict ℕ Task
  by_pid [] = []
  by_pid (t ∷ ts) = (t.pid, t) ∷ by_pid ts

  unfoldable pub tune_threads : Affinity → List Task → Sched K → Sched K
  unfolding tune_obj
  tune_threads affinity [] s = s
  tune_threads affinity (t ∷ ts) s = tune_threads affinity ts (tune_obj affinity t s).1

  -- `_set_all_obj_affinity` of threads
  unfoldable pub set_thread_affinity : Affinity → List Task → Sched K → Sched K
  unfolding tune_threads by_pid is_chosen
  set_thread_affinity affinity ts s =
      tune_threads affinity (values (update [] (by_pid (select (is_chosen s) ts)))) s

  unfoldable pub by_process : List (Task × List Task) → Dict ℕ (Task × List Task)
  by_process [] = []
  by_process ((t, ts) ∷ ps) = (t.pid, (t, ts)) ∷ by_process ps

  unfoldable pub tune_objs : Affinity → List (Task × List Task) → Sched K → Sched K
  unfolding tune_obj set_thread_affinity
  tune_objs affinity [] s = s
  tune_objs affinity ((t, ts) ∷ ps) s =
      let (cont, s') = tune_obj affinity t s in
      tune_objs affinity ps (if cont then set_thread_affinity affinity ts s' else s')

  -- `_set_all_obj_affinity` of processes with their threads
  unfoldable pub set_all_obj_affinity : Affinity → List (Task × List Task) → Sched K → Sched K
  unfolding tune_objs by_process is_chosen
  set_all_obj_affinity affinity ps s =
      tune_objs affinity (values (update [] (by_process (select (λ p. is_chosen s p.0) ps)))) s

  -- `_add_pid`; `rule` is what the command line is looked up to.
  unfoldable pub add_pid : Task → (String → Option (Rule × Option Affinity)) → Sched K → Sched K
  unfolding tune_process
  add_pid t rule s = if not s.kthread_process && t.is_kthread then s else elim t.cmd [
    | found cmd ↦ elim (rule cmd) [
      | none ↦ s
      | some (rt, affinity) ↦
          if has s.original t.pid
          then s
          else record (tune_process K t.pid cmd rt affinity s) { stored = true }
    ]
    | vanished ↦ s
    | failed ↦ s
  ]

  -- `_remove_pid`
  unfoldable pub remove_pid : ℕ → Sched K → Sched K
  remove_pid pid s =
      if has s.original pid then record s { original = erase pid s.original; stored = true } else s
