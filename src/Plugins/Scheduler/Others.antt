-- ===== src/Plugins/Scheduler/Others.antt =====
-- What the calls of tuned/plugins/plugin_scheduler.py on other processes leave alone.
use tuned.Base.{ℕ, String, ◌≡◌, refl, Bool, true, false, Option, none, some}
use tuned.Base.{
  if_intro, ◌==◌, string_eq, option_eq, nat_eq, if◌then◌else◌, Bool-cases, Option-cases, inl, inr,
  List,
}
use tuned.Base.Dict.{Dict, lookup, insert, erase, lookup-insert, lookup-erase}
use tuned.Base.Text.{ℤ}
use tuned.Plugins.Scheduler.{
  Kernel, found, vanished, failed, SchedulerParams, Rule, Affinity, cpus, in_cgroup, Task, Sched,
  store_orig_process_rt, tune_process_rt, store_orig_process_affinity, set_cgroup, set_affinity,
  tune_process_affinity, set_cmdline, tune_process, get_cgroup_affinity,
}
use tuned.Plugins.Scheduler.Objects.{tune_obj}
use tuned.Plugins.Scheduler.Kept.{Accepts, Same, Same-refl, Same-trans}

module _ {K : Kernel} (a : Accepts K) (q : ℕ) where
  open K use {
    Sys, get_rt, set_scheduler, get_affinity, set_cpus, write_tasks, in_blacklisted_cgroup,
  }

  module _ (p : ℕ) (other : (q == p) ≡ false) where
    lookup-insert_other :
        (params : SchedulerParams) (d : Dict ℕ SchedulerParams)
        → lookup q (insert p params d) ≡ lookup q d
    lookup-insert_other params d = rw (lookup-insert q p params d, other) refl

    lookup-erase_other : (d : Dict ℕ SchedulerParams) → lookup q (erase p d) ≡ lookup q d
    lookup-erase_other d = rw (lookup-erase q p d, other) refl

    store_orig_process_rt_other :
        (n : ℕ) (r : ℤ) (s : Sched K) → Same K q s (store_orig_process_rt K p n r s)
    unfolding store_orig_process_rt
    store_orig_process_rt_other n r s = record {
      same_view = refl;
      same_entry = lookup-insert_other _ s.original;
    }

    store_orig_process_affinity_other :
        (x : Affinity) (s : Sched K) → Same K q s (store_orig_process_affinity K p x s)
    unfolding store_orig_process_affinity
    store_orig_process_affinity_other x s = record {
      same_view = refl;
      same_entry = lookup-insert_other _ s.original;
    }

    tune_process_rt_other : (rule : Rule) (s : Sched K) → Same K q s (tune_process_rt K p rule s).1
    unfolding tune_process_rt
    tune_process_rt_other none s = Same-refl K q s
    tune_process_rt_other (some (sched, r)) s =
        elim (get_rt p s.sys)
            as (λ x. get_rt p s.sys ≡ x → Same K q s (tune_process_rt K p (some (sched, r)) s).1) [
              | found (n, m) ↦ λ e.
                  rw (e, tune_process_rt)
                    (record {
                      same_view = a.other_rt p q _ r s.sys other;
                      same_entry = lookup-insert_other _ s.original;
                    })
              | vanished ↦ λ e.
                  rw (e, tune_process_rt)
                    (record { same_view = refl; same_entry = lookup-erase_other s.original })
              | failed ↦ λ e. rw (e, tune_process_rt) (Same-refl K q s)
            ]
          refl

    pub set_affinity_other : (l : List ℕ) (s : Sched K) → Same K q s (set_affinity K p l s)
    unfolding set_affinity
    set_affinity_other l s = elim (Bool-cases (in_blacklisted_cgroup p s.sys)) [
      | inl e ↦ rw e (Same-refl K q s)
      | inr e ↦ rw e (record { same_view = a.other_cpus p q l s.sys other; same_entry = refl })
    ]

    pub set_cgroup_other : (path : String) (s : Sched K) → Same K q s (set_cgroup K p path s)
    unfolding set_cgroup
    set_cgroup_other path s = record {
      same_view = a.other_tasks _ p q s.sys other;
      same_entry = refl;
    }

    tune_process_affinity_other :
        (x : Option Affinity) (intersect : Bool) (s : Sched K)
        → Same K q s (tune_process_affinity K p x intersect s).1
    unfolding tune_process_affinity
    tune_process_affinity_other none intersect s = Same-refl K q s
    tune_process_affinity_other (some (in_cgroup path)) intersect s =
        Same-trans K q (set_cgroup_other path s) (
          store_orig_process_affinity_other (in_cgroup (get_cgroup_affinity K p s.sys))
            (set_cgroup K p path s))
    tune_process_affinity_other (some (cpus l)) intersect s =
        elim (get_affinity p s.sys)
            as (λ x.
              get_affinity p s.sys ≡ x
              → Same K q s (tune_process_affinity K p (some (cpus l)) intersect s).1) [
                | found prev ↦ λ e.
                    rw (e, tune_process_affinity)
                      (Same-trans K q (set_affinity_other _ s)
                        (store_orig_process_affinity_other (cpus prev) _))
                | vanished ↦ λ e.
                    rw (e, tune_process_affinity)
                      (record { same_view = refl; same_entry = lookup-erase_other s.original })
                | failed ↦ λ e. rw (e, tune_process_affinity) (Same-refl K q s)
              ]
          refl

    set_cmdline_other : (cmd : String) (s : Sched K) → Same K q s (set_cmdline K p cmd s)
    unfolding set_cmdline
    set_cmdline_other cmd s = elim (Option-cases (lookup p s.original)) [
      | inl e ↦ rw (set_cmdline, e) (Same-refl K q s)
      | inr (params, e) ↦
          rw (set_cmdline, e)
            (record { same_view = refl; same_entry = lookup-insert_other _ s.original })
    ]

    named_other :
        (cont : Bool) (cmd : String) (s t : Sched K)
        → Same K q s t
        → Same K q s (if cont then set_cmdline K p cmd t else t)
    named_other true cmd s t h = Same-trans K q h (set_cmdline_other cmd t)
    named_other false cmd s t h = h

    pub tune_process_other :
        (cmd : String) (rule : Rule) (x : Option Affinity) (s : Sched K)
        → Same K q s (tune_process K p cmd rule x s)
    unfolding tune_process
    tune_process_other cmd rule x s =
        let (cont, s1) = tune_process_rt K p rule s in
        let first : Same K q s s1 = tune_process_rt_other rule s in
        let (cont', s2) = tune_process_affinity K p x false s1 in
        let second : Same K q s s2 =
          Same-trans K q first (tune_process_affinity_other x false s1) in
        if_intro (Same K q s) cont _ _ (λ _. named_other cont' cmd s s2 second) (λ _. first)

  pub tune_obj_other :
      (x : Affinity) (t : Task) (s : Sched K)
      → (q == t.pid) ≡ false
      → Same K q s (tune_obj K x t s).1
  unfolding tune_obj
  tune_obj_other x t s other =
      elim t.cmd as (λ c. t.cmd ≡ c → Same K q s (tune_obj K x t s).1) [
        | found cmd ↦ λ e.
            let (cont, s') = tune_process_affinity K t.pid (some x) true s in
            let h : Same K q s s' = tune_process_affinity_other t.pid other (some x) true s in
            rw (e, tune_obj)
              (if_intro (λ (o : Bool × Sched K). Same K q s o.1) cont _ _
                (λ _. Same-trans K q h (set_cmdline_other t.pid other cmd s')) (λ _. h))
        | vanished ↦ λ e. rw (e, tune_obj) (Same-refl K q s)
        | failed ↦ λ e. rw (e, tune_obj) (Same-refl K q s)
      ]
        refl
