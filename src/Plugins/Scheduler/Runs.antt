-- ===== src/Plugins/Scheduler/Runs.antt =====
-- Any sequence of the tunings of tuned/plugins/plugin_scheduler.py, and of processes that come and
-- go, keeps what a process was before.
use tuned.Base.{
  ℕ, String, ◌≡◌, refl, sym, ◌∙◌, ap, subst, true, false, not, ◌&&◌, Option, none, some, List, [],
  ◌∷◌, inl, inr, Bool-cases, if_intro, if◌then◌else◌, ◌==◌, nat_eq, arith, All, All-select, select,
}
use tuned.Base.Dict.{lookup, values, has, All-update, erase-NodupKeys, lookup-erase}
use tuned.Base.Text.{ℤ}
use tuned.Plugins.Scheduler.{
  Kernel, found, vanished, failed, Rule, Affinity, Task, Sched, tune_process,
}
use tuned.Plugins.Scheduler.Objects.{
  tune_obj, tune_threads, set_thread_affinity, tune_objs, set_all_obj_affinity, by_pid, by_process,
  is_chosen, add_pid, remove_pid,
}
use tuned.Plugins.Scheduler.Kept.{Accepts, Inv, Same, Same-Inv, Named, Plain}
use tuned.Plugins.Scheduler.Others.{tune_process_other, tune_obj_other}
use tuned.Plugins.Scheduler.Own.{tune_process_own, tune_obj_own}
use tuned.Plugins.Scheduler.Distinct.{Distinct, tune_process-Distinct, tune_obj-Distinct}
use tuned.Base.Dict.{erase}

-- What happens to the processes: a rule of a profile for one of them, the isolation of cores from
-- all of them, a new process with its command line, and the end of one.
pub data Call : Type 0 where
  tune : ℕ → String → Rule → Option Affinity → Call
  tune_all : Affinity → List (Task × List Task) → Call
  appear : Task → (String → Option (Rule × Option Affinity)) → Call
  disappear : ℕ → Call

module _ (K : Kernel) where
  unfoldable pub step : Call → Sched K → Sched K
  unfolding tune_process set_all_obj_affinity add_pid remove_pid
  step (tune p cmd rule x) s = tune_process K p cmd rule x s
  step (tune_all x ps) s = set_all_obj_affinity K x ps s
  step (appear t rule) s = add_pid K t rule s
  step (disappear p) s = remove_pid K p s

  unfoldable pub run : List Call → Sched K → Sched K
  unfolding step
  run [] s = s
  run (c ∷ cs) s = run cs (step c s)

module _ (q : ℕ) (c : String) where
  -- The task, if it is the process, has the command line.
  abbrev pub HasCmd : Task → Type 0
  HasCmd t = (q == t.pid) ≡ true → t.cmd ≡ found c

  abbrev pub AllHaveCmd : Task × List Task → Type 0
  AllHaveCmd p = HasCmd p.0 × All HasCmd p.1

  -- A call that leaves the process in its cgroup and alive, with its command line.
  abbrev pub Spares : Call → Type 0
  Spares (tune p cmd rule x) = (q == p) ≡ true → (cmd ≡ c) × Plain x
  Spares (tune_all x ps) = Plain (some x) × All AllHaveCmd ps
  Spares (appear t rule) =
      HasCmd t × ((r : Rule) (x : Option Affinity) → rule c ≡ some (r, x) → Plain x)
  Spares (disappear p) = (q == p) ≡ false

module _ {K : Kernel} (a : Accepts K) (q rt : ℕ) (prio : ℤ) (mask : ℕ) (c : String) where
  -- The process is kept, its entry has its command line, and entries are distinct.
  pub record Good (s : Sched K) : Type 0 where
    pub inv : Inv K q rt prio mask false s
    pub named : Named K q c s
    pub distinct : Distinct K s

  Same-Good : (s t : Sched K) → Same K q s t → Distinct K t → Good s → Good t
  Same-Good s t h d g = record {
    inv = Same-Inv K q rt prio mask false s t h g.inv;
    named = λ params e. g.named params (sym h.same_entry ∙ e);
    distinct = d;
  }

  same_pid : (p : ℕ) → (q == p) ≡ true → p ≡ q
  same_pid p e = ground arith

  Good-tune :
      (p : ℕ) (cmd : String) (rule : Rule) (x : Option Affinity) (s : Sched K)
      → ((q == p) ≡ true → (cmd ≡ c) × Plain x)
      → Good s
      → Good (tune_process K p cmd rule x s)
  Good-tune p cmd rule x s spares g =
      let d = tune_process-Distinct K p cmd rule x s g.distinct in
      elim (Bool-cases (q == p)) [
        | inl e ↦
            let (same, plain) = spares e in
            let (i, n) = tune_process_own a q rt prio mask false cmd rule x s plain g.inv in
            subst (λ k. Good (tune_process K k cmd rule x s)) (sym (same_pid p e))
              (record {
                inv = i;
                named = λ params h. n params h ∙ ap some same;
                distinct = tune_process-Distinct K q cmd rule x s g.distinct;
              })
        | inr e ↦ Same-Good s _ (tune_process_other a q p e cmd rule x s) d g
      ]

  Good-obj :
      (x : Affinity) (t : Task) (s : Sched K)
      → HasCmd q c t
      → Plain (some x)
      → Good s
      → Good (tune_obj K x t s).1
  Good-obj x t s has_cmd plain g =
      let d = tune_obj-Distinct K x t s g.distinct in
      elim (Bool-cases (q == t.pid)) [
        | inl e ↦
            let (i, n) =
              tune_obj_own a q rt prio mask false x t c s (same_pid t.pid e) (has_cmd e) plain
                g.inv in
            record { inv = i; named = n; distinct = d }
        | inr e ↦ Same-Good s _ (tune_obj_other a q x t s e) d g
      ]

  Good-threads :
      (x : Affinity) (ts : List Task) (s : Sched K)
      → Plain (some x)
      → All (HasCmd q c) ts
      → Good s
      → Good (tune_threads K x ts s)
  unfolding tune_threads
  Good-threads x [] s plain h g = g
  Good-threads x (t ∷ ts) s plain (ht, h) g =
      Good-threads x ts (tune_obj K x t s).1 plain h (Good-obj x t s ht plain g)

  All-by_pid : (ts : List Task) → All (HasCmd q c) ts → All (HasCmd q c) (values (by_pid K ts))
  unfolding by_pid
  All-by_pid [] h = tt
  All-by_pid (t ∷ ts) (ht, h) = (ht, All-by_pid ts h)

  Good-set_threads :
      (x : Affinity) (ts : List Task) (s : Sched K)
      → Plain (some x)
      → All (HasCmd q c) ts
      → Good s
      → Good (set_thread_affinity K x ts s)
  unfolding set_thread_affinity
  Good-set_threads x ts s plain h g =
      Good-threads x _ s plain
        (All-update (HasCmd q c) [] (by_pid K (select (is_chosen K s) ts)) tt
          (All-by_pid _ (All-select (HasCmd q c) (is_chosen K s) ts h)))
        g

  Good-objs :
      (x : Affinity) (ps : List (Task × List Task)) (s : Sched K)
      → Plain (some x)
      → All (AllHaveCmd q c) ps
      → Good s
      → Good (tune_objs K x ps s)
  unfolding tune_objs
  Good-objs x [] s plain h g = g
  Good-objs x ((t, ts) ∷ ps) s plain ((ht, hts), h) g =
      let (cont, s') = tune_obj K x t s in
      let g' : Good s' = Good-obj x t s ht plain g in
      Good-objs x ps _ plain h
        (if_intro Good cont _ _ (λ _. Good-set_threads x ts s' plain hts g') (λ _. g'))

  All-by_process :
      (ps : List (Task × List Task))
      → All (AllHaveCmd q c) ps
      → All (AllHaveCmd q c) (values (by_process K ps))
  unfolding by_process
  All-by_process [] h = tt
  All-by_process (p ∷ ps) (hp, h) = (hp, All-by_process ps h)

  Good-All :
      (x : Affinity) (ps : List (Task × List Task)) (s : Sched K)
      → Plain (some x)
      → All (AllHaveCmd q c) ps
      → Good s
      → Good (set_all_obj_affinity K x ps s)
  unfolding set_all_obj_affinity
  Good-All x ps s plain h g =
      Good-objs x _ s plain
        (All-update (AllHaveCmd q c) [] (by_process K (select (λ p. is_chosen K s p.0) ps)) tt
          (All-by_process _ (All-select (AllHaveCmd q c) (λ p. is_chosen K s p.0) ps h)))
        g

  stored-Good : (s : Sched K) → Good s → Good (record s { stored = true })
  stored-Good s g = record {
    inv = record {
      now = g.inv.now;
      cpus_now = g.inv.cpus_now;
      seen = g.inv.seen;
      kept = g.inv.kept;
    };
    named = g.named;
    distinct = record { distinct = g.distinct.distinct };
  }

  -- A new process that is read as `cmd`, where the read is a value `r`.
  Good-appear :
      (t : Task) (rule : String → Option (Rule × Option Affinity)) (s : Sched K)
      → Spares q c (appear t rule)
      → Good s
      → Good (add_pid K t rule s)
  unfolding add_pid
  Good-appear t rule s (has_cmd, plain) g =
      if_intro Good (not s.kthread_process && t.is_kthread) _ _ (λ _. g)
        (λ kthread.
          elim t.cmd
              as (λ r.
                t.cmd ≡ r
                → Good (elim r [
                  | found cmd ↦ elim (rule cmd) [
                    | none ↦ s
                    | some (rt', x) ↦
                        if has s.original t.pid
                        then s
                        else record (tune_process K t.pid cmd rt' x s) { stored = true }
                  ]
                  | vanished ↦ s
                  | failed ↦ s
                ])) [
                  | found cmd ↦ λ e. found_good cmd e (rule cmd) refl
                  | vanished ↦ λ _. g
                  | failed ↦ λ _. g
                ]
            refl)
    where
      found_good :
          (cmd : String)
          → t.cmd ≡ found cmd
          → (v : Option (Rule × Option Affinity)) → rule cmd ≡ v
          → Good (elim v [
            | none ↦ s
            | some (rt', x) ↦
                if has s.original t.pid
                then s
                else record (tune_process K t.pid cmd rt' x s) { stored = true }
          ])
      found_good cmd e none h = g
      found_good cmd e (some (r, x)) h =
          if_intro Good (has s.original t.pid) _ _ (λ _. g)
            (λ _. stored-Good _ (
              Good-tune t.pid cmd r x s
                (λ own.
                  let same : cmd ≡ c = ground (arith, e, has_cmd own) in
                  (same, plain r x (ap rule (sym same) ∙ h)))
                g))

  Good-disappear : (p : ℕ) (s : Sched K) → (q == p) ≡ false → Good s → Good (remove_pid K p s)
  unfolding remove_pid
  Good-disappear p s other g =
      let gone : lookup q (erase p s.original) ≡ lookup q s.original =
        rw (lookup-erase q p s.original, other) refl in
      if_intro Good (has s.original p) _ _
        (λ _.
          Same-Good s _ (record { same_view = refl; same_entry = gone })
            (record { distinct = erase-NodupKeys p s.original g.distinct.distinct }) g)
        (λ _. g)

  step-Good : (call : Call) (s : Sched K) → Spares q c call → Good s → Good (step K call s)
  unfolding step
  step-Good (tune p cmd rule x) s spares g = Good-tune p cmd rule x s spares g
  step-Good (tune_all x ps) s (plain, h) g = Good-All x ps s plain h g
  step-Good (appear t rule) s spares g = Good-appear t rule s spares g
  step-Good (disappear p) s other g = Good-disappear p s other g

  pub run-Good :
      (calls : List Call) (s : Sched K) → All (Spares q c) calls → Good s → Good (run K calls s)
  unfolding run
  run-Good [] s h g = g
  run-Good (call ∷ calls) s (hc, h) g = run-Good calls (step K call s) h (step-Good call s hc g)
