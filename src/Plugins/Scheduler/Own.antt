-- ===== src/Plugins/Scheduler/Own.antt =====
-- A process that tuned/plugins/plugin_scheduler.py tunes: what it was before is kept.
use tuned.Base.{ℕ, String, ◌≡◌, refl, sym, ◌∙◌, ap, subst, Bool, true, false, Option, none, some}
use tuned.Base.{
  ◌==◌, string_eq, option_eq, nat_eq, if◌then◌else◌, arith, Bool-cases, Option-cases, inl, inr,
  List,
}
use tuned.Base.Dict.{Dict, lookup, insert, lookup-insert}
use tuned.Base.Text.{ℤ}
use tuned.Plugins.Scheduler.{
  Kernel, found, SchedulerParams, Rule, Affinity, cpus, in_cgroup, Task, Sched,
  store_orig_process_rt, tune_process_rt, store_orig_process_affinity, set_affinity,
  tune_process_affinity, set_cmdline, tune_process, get_intersect_affinity, params_of, with_rt,
  with_affinity,
}
use tuned.Plugins.Scheduler.Objects.{tune_obj}
use tuned.Plugins.Scheduler.Kept.{View, view, Accepts, Inv, Kept, Named, Plain}

module _ {K : Kernel} (a : Accepts K) (q rt : ℕ) (prio : ℤ) (mask : ℕ) (blacklisted : Bool) where
  self : (q == q) ≡ true
  self = ground arith

  lookup-insert_own :
      (params : SchedulerParams) (d : Dict ℕ SchedulerParams)
      → lookup q (insert q params d) ≡ some params
  lookup-insert_own params d = rw (lookup-insert q q params d, self) refl

  with_rt_kept :
      (n : ℕ) (r : ℤ) (now new : ℕ × ℤ) (l : List ℕ) (params : SchedulerParams)
      → now ≡ (n, r)
      → Kept K q rt prio mask blacklisted (some params) now l
      → Kept K q rt prio mask blacklisted (some (with_rt n r params)) new l
  unfolding with_rt
  with_rt_kept n r now new l params e h = ground arith

  entry_kept :
      (now : ℕ × ℤ) (l : List ℕ) (s : Sched K)
      → Kept K q rt prio mask blacklisted (lookup q s.original) now l
      → Kept K q rt prio mask blacklisted (some (params_of K q s)) now l
  unfolding params_of
  entry_kept now l s h = elim (Option-cases (lookup q s.original)) [
    | inl e ↦
        rw (params_of, e)
          (ground (arith, subst (λ o. Kept K q rt prio mask blacklisted o now l) e h))
    | inr (params, e) ↦
        rw (params_of, e) (subst (λ o. Kept K q rt prio mask blacklisted o now l) e h)
  ]

  rt_stored :
      (n : ℕ) (r : ℤ) (now new : ℕ × ℤ) (l : List ℕ) (s : Sched K)
      → now ≡ (n, r)
      → Kept K q rt prio mask blacklisted (lookup q s.original) now l
      → Kept K q rt prio mask blacklisted
          (lookup q (store_orig_process_rt K q n r s).original)
          new
          l
  unfolding store_orig_process_rt
  rt_stored n r now new l s e h =
      rw (lookup-insert_own _ s.original)
        (with_rt_kept n r now new l (params_of K q s) e (entry_kept now l s h))

  with_affinity_kept :
      (now : ℕ × ℤ) (l new : List ℕ) (params : SchedulerParams)
      → Kept K q rt prio mask blacklisted (some params) now l
      → Kept K q rt prio mask blacklisted (some (with_affinity (cpus l) params)) now new
  unfolding with_affinity
  with_affinity_kept now l new params h = ground arith

  cpus_stored :
      (now : ℕ × ℤ) (l new : List ℕ) (s : Sched K)
      → Kept K q rt prio mask blacklisted (lookup q s.original) now l
      → Kept K q rt prio mask blacklisted
          (lookup q (store_orig_process_affinity K q (cpus l) s).original)
          now
          new
  unfolding store_orig_process_affinity
  cpus_stored now l new s h =
      rw (lookup-insert_own _ s.original)
        (with_affinity_kept now l new (params_of K q s) (entry_kept now l s h))

  tune_process_rt_own :
      (rule : Rule) (s : Sched K)
      → Inv K q rt prio mask blacklisted s
      → ((tune_process_rt K q rule s).0 ≡ true)
        × Inv K q rt prio mask blacklisted (tune_process_rt K q rule s).1
  unfolding tune_process_rt
  tune_process_rt_own none s i = (refl, i)
  tune_process_rt_own (some (sched, r)) s i =
      let (n, m) = i.now in
      let here : K.get_rt q s.sys ≡ found (n, m) = ap (λ (v : View K). v.0) i.seen in
      let sched' : ℕ = elim sched [ none ↦ n | some k ↦ k ] in
      let (new, v, _) = a.own_rt q sched' r s.sys (n, m) here in
      rw (tune_process_rt, here)
        (
          refl,
          record {
            now = new;
            cpus_now = i.cpus_now;
            seen = v ∙ ap (λ (w : View K). (found new, w.1, w.2)) i.seen;
            kept = rt_stored n m (n, m) new i.cpus_now s refl i.kept;
          },
        )

  -- After a write of CPUs, or none, the process can be read as before.
  pub set_affinity_seen :
      (l now : List ℕ) (s : Sched K)
      → K.get_affinity q s.sys ≡ found now
      → (new : List ℕ) × (view K q (set_affinity K q l s).sys
          ≡ (K.get_rt q s.sys, found new, K.in_blacklisted_cgroup q s.sys))
  unfolding set_affinity
  set_affinity_seen l now s here = elim (Bool-cases (K.in_blacklisted_cgroup q s.sys)) [
    | inl e ↦ (
      now,
      rw (set_affinity, e)
          (ap (λ x. (K.get_rt q s.sys, x, K.in_blacklisted_cgroup q s.sys)) here
            ∙ ap (λ x. (K.get_rt q s.sys, found now, x)) e),
    )
    | inr e ↦
        let (new, v, _) = a.own_cpus q l s.sys now here in
        (new, rw (set_affinity, e) (v ∙ ap (λ x. (K.get_rt q s.sys, found new, x)) e))
  ]

  original-set_affinity : (l : List ℕ) (s : Sched K) → (set_affinity K q l s).original ≡ s.original
  unfolding set_affinity
  original-set_affinity l s = ground arith

  tune_process_affinity_own :
      (l : List ℕ) (intersect : Bool) (s : Sched K)
      → Inv K q rt prio mask blacklisted s
      → ((tune_process_affinity K q (some (cpus l)) intersect s).0 ≡ true)
        × Inv K q rt prio mask blacklisted (tune_process_affinity K q (some (cpus l)) intersect s).1
  unfolding tune_process_affinity
  tune_process_affinity_own l intersect s i =
      let here : K.get_affinity q s.sys ≡ found i.cpus_now = ap (λ (v : View K). v.1) i.seen in
      let l' : List ℕ = if intersect then get_intersect_affinity i.cpus_now l l else l in
      let (new, v) = set_affinity_seen l' i.cpus_now s here in
      rw (tune_process_affinity, here)
        (
          refl,
          record {
            now = i.now;
            cpus_now = new;
            seen = v ∙ ap (λ (w : View K). (w.0, found new, w.2)) i.seen;
            kept = cpus_stored i.now i.cpus_now new (set_affinity K q l' s) (
                subst (λ d. Kept K q rt prio mask blacklisted (lookup q d) i.now i.cpus_now)
                  (sym (original-set_affinity l' s)) i.kept);
          },
        )

  set_cmdline_own :
      (cmd : String) (s : Sched K)
      → Inv K q rt prio mask blacklisted s
      → Inv K q rt prio mask blacklisted (set_cmdline K q cmd s)
        × Named K q cmd (set_cmdline K q cmd s)
  unfolding set_cmdline
  set_cmdline_own cmd s i = elim (Option-cases (lookup q s.original)) [
    | inl e ↦ rw (set_cmdline, e) (i, λ params h. ground (arith, e, h))
    | inr (old, e) ↦
        rw (set_cmdline, e)
          (
            record {
              now = i.now;
              cpus_now = i.cpus_now;
              seen = i.seen;
              kept =
                  rw (lookup-insert_own _ s.original)
                    (subst (λ o. Kept K q rt prio mask blacklisted o i.now i.cpus_now) e i.kept);
            },
            λ params h.
                ground (arith, h, lookup-insert_own (record old { cmdline = some cmd }) s.original),
          )
  ]

  tune_process_affinity-Plain :
      (x : Option Affinity) (intersect : Bool) (s : Sched K)
      → Plain x
      → Inv K q rt prio mask blacklisted s
      → ((tune_process_affinity K q x intersect s).0 ≡ true)
        × Inv K q rt prio mask blacklisted (tune_process_affinity K q x intersect s).1
  unfolding tune_process_affinity
  tune_process_affinity-Plain none intersect s plain i = (refl, i)
  tune_process_affinity-Plain (some (cpus l)) intersect s plain i =
      tune_process_affinity_own l intersect s i
  tune_process_affinity-Plain (some (in_cgroup _)) intersect s plain i = elim plain [ ]

  pub tune_process_own :
      (cmd : String) (rule : Rule) (x : Option Affinity) (s : Sched K)
      → Plain x
      → Inv K q rt prio mask blacklisted s
      → Inv K q rt prio mask blacklisted (tune_process K q cmd rule x s)
        × Named K q cmd (tune_process K q cmd rule x s)
  unfolding tune_process
  tune_process_own cmd rule x s plain i =
      let (c1, i1) = tune_process_rt_own rule s i in
      let (c2, i2) = tune_process_affinity-Plain x false (tune_process_rt K q rule s).1 plain i1 in
      rw (tune_process, c1, c2) (set_cmdline_own cmd _ i2)

  pub tune_obj_own :
      (x : Affinity) (t : Task) (cmd : String) (s : Sched K)
      → t.pid ≡ q
      → t.cmd ≡ found cmd
      → Plain (some x)
      → Inv K q rt prio mask blacklisted s
      → Inv K q rt prio mask blacklisted (tune_obj K x t s).1 × Named K q cmd (tune_obj K x t s).1
  unfolding tune_obj
  tune_obj_own x t cmd s same c plain i =
      let (c2, i2) = tune_process_affinity-Plain (some x) true s plain i in
      rw (tune_obj, c, same, c2) (set_cmdline_own cmd _ i2)
