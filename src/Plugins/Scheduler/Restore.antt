-- ===== src/Plugins/Scheduler/Restore.antt =====
-- The rollback of tuned/plugins/plugin_scheduler.py: a process is again what it was before.
use tuned.Base.{
  ℕ, String, ◌≡◌, refl, ap, ◌∙◌, subst, false, not, ◌||◌, Option, none, some, List, [], ◌∷◌, inl,
  inr, Bool-cases, Option-cases, if_intro, ◌==◌, nat_eq, string_eq, option_eq, arith, All,
}
use tuned.Base.Dict.{Dict, NodupKeys, lookup, lookup-cons, lookup-nil, has}
use tuned.Base.Text.{ℤ}
use tuned.Utils.Masks.{cpulist2bitmask, bitmask2cpulist}
use tuned.Plugins.Scheduler.{Kernel, found, SchedulerParams, Sched, params_affinity, set_affinity}
use tuned.Plugins.Scheduler.Rollback.{
  restore_rt, restore_affinity, restore_one, restore_each, restore_ps_affinity,
}
use tuned.Utils.Masks.RoundTrip.{bitmask2cpulist-cpulist2bitmask}
use tuned.Plugins.Scheduler.Kept.{
  View, view, Accepts, Same, Same-refl, Same-trans, Kept, RtKept, CpusKept,
}
use tuned.Plugins.Scheduler.Others.{set_affinity_other, set_cgroup_other}
use tuned.Plugins.Scheduler.Runs.{Call, run, Spares, Good, run-Good}

module _ {K : Kernel} (a : Accepts K) (q : ℕ) (ps : Dict ℕ String) where
  restore_rt_other :
      (p : ℕ) (sched : Option ℕ) (prio : Option ℤ) (s : Sched K)
      → (q == p) ≡ false
      → Same K q s (restore_rt K p sched prio s)
  unfolding restore_rt
  restore_rt_other p (some n) (some r) s other = record {
    same_view = a.other_rt p q n r s.sys other;
    same_entry = refl;
  }
  restore_rt_other p none prio s other = Same-refl K q s
  restore_rt_other p (some n) none s other = Same-refl K q s

  restore_affinity_other :
      (p : ℕ) (cgroup : Option String) (l : Option (List ℕ)) (s : Sched K)
      → (q == p) ≡ false
      → Same K q s (restore_affinity K p cgroup l s)
  unfolding restore_affinity
  restore_affinity_other p (some path) l s other = set_cgroup_other a q p other path s
  restore_affinity_other p none (some l) s other = set_affinity_other a q p other l s
  restore_affinity_other p none none s other = Same-refl K q s

  restore_one_other :
      (p : ℕ) (params : SchedulerParams) (s : Sched K)
      → (q == p) ≡ false
      → Same K q s (restore_one K ps p params s)
  unfolding restore_one
  restore_one_other p params s other =
      if_intro (Same K q s) (not (lookup p ps == params.cmdline) || not (has ps p)) _ _
        (λ _. Same-refl K q s)
        (λ _.
          Same-trans K q (restore_rt_other p params.scheduler params.priority s other)
            (restore_affinity_other p params.cgroup (params_affinity params) _ other))

  -- The entries of other processes change nothing of it.
  restore_each_other :
      (d : Dict ℕ SchedulerParams) (s : Sched K)
      → lookup q d ≡ none
      → view K q (restore_each K ps d s).sys ≡ view K q s.sys
  unfolding restore_each lookup
  restore_each_other [] s h = refl
  restore_each_other ((p, params) ∷ d) s h =
      let other : (q == p) ≡ false = ground arith in
      let rest : lookup q d ≡ none = ground arith in
      restore_each_other d (restore_one K ps p params s) rest
      ∙ (restore_one_other p params s other).same_view

  -- Its own entry is written back in a state in which it is what it was at first.
  restore_each_own :
      (params : SchedulerParams) (d : Dict ℕ SchedulerParams) (s : Sched K)
      → NodupKeys d
      → lookup q d ≡ some params
      → (t : Sched K) × (view K q t.sys ≡ view K q s.sys)
        × (view K q (restore_each K ps d s).sys ≡ view K q (restore_one K ps q params t).sys)
  unfolding restore_each
  restore_each_own params [] s u h = absurd (ground (arith, h, lookup-nil {V = SchedulerParams} q))
  restore_each_own params ((p, w) ∷ d) s (fresh, u) h = elim (Bool-cases (q == p)) [
    | inl e ↦
        let same : p ≡ q = ground arith in
        let own : w ≡ params = ground (arith, h, lookup-cons q p w d) in
        (
          s,
          refl,
          restore_each_other d _ (subst (λ k. lookup k d ≡ none) same fresh) ∙ rw (same, own) refl,
        )
    | inr e ↦
        let rest : lookup q d ≡ some params = ground (arith, h, lookup-cons q p w d) in
        let (t, v, r) = restore_each_own params d (restore_one K ps p w s) u rest in
        (t, v ∙ (restore_one_other p w s e).same_view, r)
  ]

module _ {K : Kernel} (a : Accepts K) (q rt : ℕ) (prio : ℤ) (mask : ℕ) where
  -- The process is scheduled as before, on the CPUs of before.
  abbrev pub Restored : K.Sys → Type 0
  Restored sys =
      (K.get_rt q sys ≡ found (rt, prio))
      × (l : List ℕ) × (K.get_affinity q sys ≡ found l)
      × (cpulist2bitmask l ≡ mask)

  rt_own :
      (sched : Option ℕ) (r : Option ℤ) (now : ℕ × ℤ) (l : List ℕ) (s : Sched K)
      → a.ValidRt q rt prio
      → RtKept K q rt prio mask false sched r now
      → view K q s.sys ≡ (found now, found l, false)
      → view K q (restore_rt K q sched r s).sys ≡ (found (rt, prio), found l, false)
  unfolding restore_rt
  rt_own none none now l s valid kept v = v ∙ ap (λ (x : ℕ × ℤ). (found x, found l, false)) kept
  rt_own none (some r) now l s valid kept v = absurd kept
  rt_own (some n) none now l s valid kept v = absurd kept
  rt_own (some n) (some r) now l s valid (en, er) v =
      let (new, w, accepted) = a.own_rt q n r s.sys now (ap (λ (x : View K). x.0) v) in
      let same : new ≡ (rt, prio) = accepted (rw (en, er) valid) ∙ (rw (en, er) refl) in
      w
      ∙ ap (λ (x : ℕ × ℤ). (found x, K.get_affinity q s.sys, K.in_blacklisted_cgroup q s.sys)) same
      ∙ ap (λ (x : View K). (found (rt, prio), x.1, x.2)) v

  cpus_own :
      (m : Option ℕ) (l : List ℕ) (s : Sched K)
      → a.ValidCpus q mask
      → CpusKept K q rt prio mask false m l
      → view K q s.sys ≡ (found (rt, prio), found l, false)
      → Restored
          (restore_affinity K q none
            (elim m [ none ↦ none | some k ↦ some (bitmask2cpulist k) ])
            s).sys
  unfolding restore_affinity set_affinity
  cpus_own none l s valid kept v = (ap (λ (x : View K). x.0) v, l, ap (λ (x : View K). x.1) v, kept)
  cpus_own (some k) l s valid kept v =
      let (new, w, accepted) =
        a.own_cpus q (bitmask2cpulist k) s.sys l (ap (λ (x : View K). x.1) v) in
      let same : cpulist2bitmask (bitmask2cpulist k) ≡ mask =
        (bitmask2cpulist-cpulist2bitmask [] k).1 ∙ kept in
      rw (ap (λ (x : View K). x.2) v) (
        ap (λ (x : View K). x.0) w ∙ ap (λ (x : View K). x.0) v,
        new,
        ap (λ (x : View K). x.1) w,
        accepted (rw same valid) ∙ same,
      )

  restore_one_own :
      (ps : Dict ℕ String) (c : String) (params : SchedulerParams) (now : ℕ × ℤ) (l : List ℕ)
      (s : Sched K)
      → a.ValidRt q rt prio
      → a.ValidCpus q mask
      → lookup q ps ≡ some c
      → params.cmdline ≡ some c
      → Kept K q rt prio mask false (some params) now l
      → view K q s.sys ≡ (found now, found l, false)
      → Restored (restore_one K ps q params s).sys
  unfolding restore_one params_affinity
  restore_one_own ps c params now l s valid valid_cpus listed cmd (no_cgroup, (kept, kept_cpus)) v =
      let skip : (not (lookup q ps == params.cmdline) || not (has ps q)) ≡ false = ground arith in
      rw (skip, no_cgroup)
        (cpus_own params.mask l _ valid_cpus kept_cpus
          (rt_own params.scheduler params.priority now l s valid kept v))

  Restored-Good :
      (ps : Dict ℕ String) (c : String) (s : Sched K)
      → a.ValidRt q rt prio
      → a.ValidCpus q mask
      → lookup q ps ≡ some c
      → Good a q rt prio mask c s
      → Restored (restore_ps_affinity K (some ps) s).sys
  unfolding restore_ps_affinity
  Restored-Good ps c s valid valid_cpus listed g = elim (Option-cases (lookup q s.original)) [
    | inl e ↦
        let v = restore_each_other a q ps s.original s e ∙ g.inv.seen in
        let (er, ec) =
          subst (λ o. Kept K q rt prio mask false o g.inv.now g.inv.cpus_now) e g.inv.kept in
        (ap (λ (x : View K). x.0) v ∙ ap found er, g.inv.cpus_now, ap (λ (x : View K). x.1) v, ec)
    | inr (params, e) ↦
        let (t, v, r) = restore_each_own a q ps params s.original s g.distinct.distinct e in
        let (er, l, ec, em) =
          restore_one_own ps c params g.inv.now g.inv.cpus_now t valid valid_cpus listed
            (g.named params e)
            (subst (λ o. Kept K q rt prio mask false o g.inv.now g.inv.cpus_now) e g.inv.kept)
            (v ∙ g.inv.seen) in
        (ap (λ (x : View K). x.0) r ∙ er, l, ap (λ (x : View K). x.1) r ∙ ec, em)
  ]

-- However processes are tuned, and whatever other processes come and go, the rollback brings a
-- process that can be read back to its scheduler, its priority and its CPUs from before. The
-- kernel takes back the values that it gave, the process is in no blacklisted cgroup and is not
-- moved to a cgroup, it does not exit, and its command line stays the same.
pub restore_ps_affinity-run :
    {K : Kernel} (a : Accepts K) (q rt : ℕ) (prio : ℤ) (l : List ℕ) (c : String) (calls : List Call)
    (ps : Dict ℕ String) (s : Sched K)
    → s.original ≡ []
    → view K q s.sys ≡ (found (rt, prio), found l, false)
    → All (Spares q c) calls
    → lookup q ps ≡ some c
    → Restored a q rt prio (cpulist2bitmask l) (restore_ps_affinity K (some ps) (run K calls s)).sys
restore_ps_affinity-run {K} a q rt prio l c calls ps s empty v spares listed =
    Restored-Good a q rt prio (cpulist2bitmask l) ps c (run K calls s)
      (a.given_rt q rt prio s.sys (ap (λ (x : View K). x.0) v))
      (a.given_cpus q l s.sys (ap (λ (x : View K). x.1) v)) listed
      (run-Good a q rt prio (cpulist2bitmask l) c calls s spares (record {
        inv = record {
          now = (rt, prio);
          cpus_now = l;
          seen = v;
          kept = rw (empty, lookup-nil) (refl, refl);
        };
        named = λ params h. absurd (ground (arith, empty, h, lookup-nil {V = SchedulerParams} q));
        distinct = record { distinct = rw empty tt };
      }))
