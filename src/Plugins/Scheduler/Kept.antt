-- ===== src/Plugins/Scheduler/Kept.antt =====
-- What is kept of a process while tuned/plugins/plugin_scheduler.py tunes it and other processes.
use tuned.Base.{ℕ, String, ◌≡◌, refl, ◌∙◌, Bool, false, Option, none, some}
use tuned.Base.{◌==◌, string_eq, option_eq, nat_eq, List}
use tuned.Base.Dict.{lookup}
use tuned.Base.Text.{ℤ}
use tuned.Utils.Masks.{cpulist2bitmask}
use tuned.Plugins.Scheduler.{
  Kernel, Reading, found, SchedulerParams, Affinity, cpus, in_cgroup, Sched,
}

-- No cgroup is asked for.
abbrev pub Plain : Option Affinity → Type 0
Plain none = Unit
Plain (some (cpus l)) = Unit
Plain (some (in_cgroup name)) = ⊥

module _ (K : Kernel) where
  open K use {
    Sys, get_rt, set_scheduler, get_affinity, set_cpus, write_tasks, in_blacklisted_cgroup,
  }

  -- What can be seen of a process.
  abbrev pub View : Type 0
  View = Reading (ℕ × ℤ) × Reading (List ℕ) × Bool

  abbrev pub view : ℕ → Sys → View
  view q sys = (get_rt q sys, get_affinity q sys, in_blacklisted_cgroup q sys)

  -- A kernel in which a write to one process leaves the others alone, and that takes back every
  -- value that it gave.
  pub record Accepts : Type 1 where
    pub ValidRt : ℕ → ℕ → ℤ → Type 0
    pub ValidCpus : ℕ → ℕ → Type 0
    pub given_rt : (p s : ℕ) (r : ℤ) (sys : Sys) → get_rt p sys ≡ found (s, r) → ValidRt p s r
    pub given_cpus :
        (p : ℕ) (l : List ℕ) (sys : Sys)
        → get_affinity p sys ≡ found l
        → ValidCpus p (cpulist2bitmask l)
    pub own_rt :
        (p s : ℕ) (r : ℤ) (sys : Sys) (now : ℕ × ℤ)
        → get_rt p sys ≡ found now
        → (new : ℕ × ℤ) × (view p (set_scheduler p s r sys)
            ≡ (found new, get_affinity p sys, in_blacklisted_cgroup p sys))
          × (ValidRt p s r → new ≡ (s, r))
    pub own_cpus :
        (p : ℕ) (l : List ℕ) (sys : Sys) (now : List ℕ)
        → get_affinity p sys ≡ found now
        → (new : List ℕ) × (view p (set_cpus p l sys)
            ≡ (get_rt p sys, found new, in_blacklisted_cgroup p sys))
          × (ValidCpus p (cpulist2bitmask l) → cpulist2bitmask new ≡ cpulist2bitmask l)
    pub other_rt :
        (p q s : ℕ) (r : ℤ) (sys : Sys)
        → (q == p) ≡ false
        → view q (set_scheduler p s r sys) ≡ view q sys
    pub other_cpus :
        (p q : ℕ) (l : List ℕ) (sys : Sys)
        → (q == p) ≡ false
        → view q (set_cpus p l sys) ≡ view q sys
    pub other_tasks :
        (path : String) (p q : ℕ) (sys : Sys)
        → (q == p) ≡ false
        → view q (write_tasks path p sys) ≡ view q sys

  module _ (q : ℕ) where
    -- What the calls on other processes keep.
    pub record Same (s t : Sched K) : Type 0 where
      pub same_view : view q t.sys ≡ view q s.sys
      pub same_entry : lookup q t.original ≡ lookup q s.original

    -- The entry of a process has its command line.
    abbrev pub Named : String → Sched K → Type 0
    Named cmd s =
        (params : SchedulerParams) → lookup q s.original ≡ some params → params.cmdline ≡ some cmd

    pub Same-refl : (s : Sched K) → Same s s
    Same-refl s = record { same_view = refl; same_entry = refl }

    pub Same-trans : {s t u : Sched K} → Same s t → Same t u → Same s u
    Same-trans h k = record {
      same_view = k.same_view ∙ h.same_view;
      same_entry = k.same_entry ∙ h.same_entry;
    }

  module _ (q rt : ℕ) (prio : ℤ) (mask : ℕ) (blacklisted : Bool) where
    -- The scheduling is the one from before, or it is kept in the entry.
    abbrev pub RtKept : Option ℕ → Option ℤ → ℕ × ℤ → Type 0
    RtKept none none now = now ≡ (rt, prio)
    RtKept none (some r) now = ⊥
    RtKept (some s) none now = ⊥
    RtKept (some s) (some r) now = (s ≡ rt) × (r ≡ prio)

    abbrev pub CpusKept : Option ℕ → List ℕ → Type 0
    CpusKept none now = cpulist2bitmask now ≡ mask
    CpusKept (some m) now = m ≡ mask

    abbrev pub Kept : Option SchedulerParams → ℕ × ℤ → List ℕ → Type 0
    Kept none now l = (now ≡ (rt, prio)) × (cpulist2bitmask l ≡ mask)
    Kept (some params) now l =
        (params.cgroup ≡ none)
        × (RtKept params.scheduler params.priority now × CpusKept params.mask l)

    pub record Inv (s : Sched K) : Type 0 where
      pub now : ℕ × ℤ
      pub cpus_now : List ℕ
      pub seen : view q s.sys ≡ (found now, found cpus_now, blacklisted)
      pub kept : Kept (lookup q s.original) now cpus_now

    pub Same-Inv : (s t : Sched K) → Same q s t → Inv s → Inv t
    Same-Inv s t h i = record {
      now = i.now;
      cpus_now = i.cpus_now;
      seen = h.same_view ∙ i.seen;
      kept = rw h.same_entry i.kept;
    }
