-- ===== src/Plugins/Scheduler/Distinct.antt =====
-- The entries of tuned/plugins/plugin_scheduler.py for processes: each process has one at most.
use tuned.Base.{
  ℕ, String, ◌≡◌, refl, Bool, true, false, Option, none, some, inl, inr, Option-cases, if_intro,
}
use tuned.Base.Dict.{NodupKeys, lookup, insert-NodupKeys, erase-NodupKeys}
use tuned.Base.{nat_eq}
use tuned.Base.Text.{ℤ}
use tuned.Plugins.Scheduler.{
  Kernel, found, vanished, failed, Rule, Affinity, cpus, in_cgroup, Task, Sched,
  store_orig_process_rt, tune_process_rt, store_orig_process_affinity, set_affinity, set_cgroup,
  tune_process_affinity, set_cmdline, tune_process, get_cgroup_affinity,
}
use tuned.Plugins.Scheduler.Objects.{tune_obj}
use tuned.Base.{List}

module _ (K : Kernel) where
  pub record Distinct (s : Sched K) : Type 0 where
    pub distinct : NodupKeys s.original

  store_rt-Distinct :
      (p n : ℕ) (r : ℤ) (s : Sched K) → Distinct s → Distinct (store_orig_process_rt K p n r s)
  unfolding store_orig_process_rt
  store_rt-Distinct p n r s d = record { distinct = insert-NodupKeys p _ s.original d.distinct }

  tune_rt-Distinct :
      (p : ℕ) (rule : Rule) (s : Sched K) → Distinct s → Distinct (tune_process_rt K p rule s).1
  unfolding tune_process_rt
  tune_rt-Distinct p none s d = d
  tune_rt-Distinct p (some (sched, r)) s d =
      elim (K.get_rt p s.sys)
          as (λ x. K.get_rt p s.sys ≡ x → Distinct (tune_process_rt K p (some (sched, r)) s).1) [
            | found (n, m) ↦ λ e.
                rw (e, tune_process_rt)
                  (store_rt-Distinct p n m _ (record { distinct = d.distinct }))
            | vanished ↦ λ e.
                rw (e, tune_process_rt)
                  (record { distinct = erase-NodupKeys p s.original d.distinct })
            | failed ↦ λ e. rw (e, tune_process_rt) d
          ]
        refl

  store_affinity-Distinct :
      (p : ℕ) (x : Affinity) (s : Sched K)
      → Distinct s
      → Distinct (store_orig_process_affinity K p x s)
  unfolding store_orig_process_affinity
  store_affinity-Distinct p x s d = record { distinct = insert-NodupKeys p _ s.original d.distinct }

  set_affinity-Distinct :
      (p : ℕ) (l : List ℕ) (s : Sched K) → Distinct s → Distinct (set_affinity K p l s)
  unfolding set_affinity
  set_affinity-Distinct p l s d =
      if_intro Distinct (K.in_blacklisted_cgroup p s.sys) _ _ (λ _. d)
        (λ _. record { distinct = d.distinct })

  set_cgroup-Distinct :
      (p : ℕ) (path : String) (s : Sched K) → Distinct s → Distinct (set_cgroup K p path s)
  unfolding set_cgroup
  set_cgroup-Distinct p path s d = record { distinct = d.distinct }

  tune_affinity-Distinct :
      (p : ℕ) (x : Option Affinity) (intersect : Bool) (s : Sched K)
      → Distinct s
      → Distinct (tune_process_affinity K p x intersect s).1
  unfolding tune_process_affinity
  tune_affinity-Distinct p none intersect s d = d
  tune_affinity-Distinct p (some (in_cgroup path)) intersect s d =
      store_affinity-Distinct p (in_cgroup (get_cgroup_affinity K p s.sys)) (set_cgroup K p path s)
        (set_cgroup-Distinct p path s d)
  tune_affinity-Distinct p (some (cpus l)) intersect s d =
      elim (K.get_affinity p s.sys)
          as (λ x.
            K.get_affinity p s.sys ≡ x
            → Distinct (tune_process_affinity K p (some (cpus l)) intersect s).1) [
              | found prev ↦ λ e.
                  rw (e, tune_process_affinity)
                    (store_affinity-Distinct p (cpus prev) _ (set_affinity-Distinct p _ s d))
              | vanished ↦ λ e.
                  rw (e, tune_process_affinity)
                    (record { distinct = erase-NodupKeys p s.original d.distinct })
              | failed ↦ λ e. rw (e, tune_process_affinity) d
            ]
        refl

  set_cmdline-Distinct :
      (p : ℕ) (cmd : String) (s : Sched K) → Distinct s → Distinct (set_cmdline K p cmd s)
  unfolding set_cmdline
  set_cmdline-Distinct p cmd s d = elim (Option-cases (lookup p s.original)) [
    | inl e ↦ rw (set_cmdline, e) d
    | inr (params, e) ↦
        rw (set_cmdline, e) (record { distinct = insert-NodupKeys p _ s.original d.distinct })
  ]

  pub tune_process-Distinct :
      (p : ℕ) (cmd : String) (rule : Rule) (x : Option Affinity) (s : Sched K)
      → Distinct s
      → Distinct (tune_process K p cmd rule x s)
  unfolding tune_process
  tune_process-Distinct p cmd rule x s d =
      let (cont, s1) = tune_process_rt K p rule s in
      let first : Distinct s1 = tune_rt-Distinct p rule s d in
      let (cont', s2) = tune_process_affinity K p x false s1 in
      let second : Distinct s2 = tune_affinity-Distinct p x false s1 first in
      if_intro Distinct cont _ _
        (λ _. if_intro Distinct cont' _ _ (λ _. set_cmdline-Distinct p cmd s2 second) (λ _. second))
        (λ _. first)

  pub tune_obj-Distinct :
      (x : Affinity) (t : Task) (s : Sched K) → Distinct s → Distinct (tune_obj K x t s).1
  unfolding tune_obj
  tune_obj-Distinct x t s d =
      elim t.cmd as (λ c. t.cmd ≡ c → Distinct (tune_obj K x t s).1) [
        | found cmd ↦ λ e.
            let (cont, s') = tune_process_affinity K t.pid (some x) true s in
            let h : Distinct s' = tune_affinity-Distinct t.pid (some x) true s d in
            rw (e, tune_obj)
              (if_intro (λ (o : Bool × Sched K). Distinct o.1) cont _ _
                (λ _. set_cmdline-Distinct t.pid cmd s' h) (λ _. h))
        | vanished ↦ λ e. rw (e, tune_obj) d
        | failed ↦ λ e. rw (e, tune_obj) d
      ]
        refl
