-- ===== src/Tests/Scheduler.antt =====
-- A kernel with two processes, and runs of the model of tuned/plugins/plugin_scheduler.py on it.
use tuned.Base.{
  ℕ, String, ◌≡◌, refl, sym, ap, Bool, true, false, Option, none, some, List, [], ◌∷◌, ◌<>◌, ◌==◌,
  nat_eq, string_eq, option_eq, arith, Option-cases, inl, inr, if◌then◌else◌,
}
use mathlib.Core.Option
use tuned.Base.Dict.{lookup, insert, erase, update}
use tuned.Base.Names.{inter}
use tuned.Base.Text.{ℤ, pos, split}
use tuned.Utils.Masks.{cpulist2bitmask}
use tuned.Plugins.Scheduler.{Kernel, Reading, found, vanished, cpus, in_cgroup, Task, Sched}
use tuned.Plugins.Scheduler.Objects.{set_all_obj_affinity}
use tuned.Plugins.Scheduler.Rollback.{restore_ps_affinity}
use tuned.Plugins.Scheduler.Kept.{Accepts, view}
use tuned.Plugins.Scheduler.Runs.{Call, tune, tune_all, disappear, run}
use tuned.Plugins.Scheduler.Restore.{Restored, restore_ps_affinity-run}
use tuned.Base.{◌∙◌}

record Proc : Type 0 where
  rt : ℕ × ℤ
  allowed : List ℕ
  tasks : String

abbrev Table : Type 0
Table = ℕ → Option Proc

abbrev rt_of : Option Proc → Reading (ℕ × ℤ)
rt_of none = vanished
rt_of (some x) = found x.rt

abbrev cpus_of : Option Proc → Reading (List ℕ)
cpus_of none = vanished
cpus_of (some x) = found x.allowed

abbrev file_of : Option Proc → String
file_of none = ""
file_of (some x) = "4:cpuset:/" <> x.tasks

abbrev change : (Proc → Proc) → ℕ → Table → Table
change f p t q = if q == p then Option.map f (t q) else t q

abbrev kernel : Kernel
kernel = record {
  Sys = Table;
  get_rt = λ p t. rt_of (t p);
  set_scheduler = λ p s r t. change (λ x. record x { rt = (s, r) }) p t;
  get_affinity = λ p t. cpus_of (t p);
  set_cpus = λ p l t. change (λ x. record x { allowed = l }) p t;
  read_cgroups = λ p t. file_of (t p);
  write_tasks = λ path p t. change (λ x. record x { tasks = path }) p t;
  in_blacklisted_cgroup = λ p t. false;
  search = λ pattern text. true;
}

abbrev seen : Option Proc → Reading (ℕ × ℤ) × Reading (List ℕ) × Bool
seen o = (rt_of o, cpus_of o, false)

change_other :
    (f : Proc → Proc) (p q : ℕ) (t : Table) → (q == p) ≡ false → seen (change f p t q) ≡ seen (t q)
change_other f p q t other = ap seen (rw other refl)

change_own :
    (f : Proc → Proc) (p : ℕ) (t : Table) (x : Proc)
    → t p ≡ some x
    → seen (change f p t p) ≡ seen (some (f x))
change_own f p t x e =
    let own : (p == p) ≡ true = ground arith in
    let changed : change f p t p ≡ some (f x) = rw (own, e) refl in ap seen changed

own_rt_lem :
    (p s : ℕ) (r : ℤ) (t : Table) (now : ℕ × ℤ)
    → rt_of (t p) ≡ found now
    → (new : ℕ × ℤ) × (view kernel p (kernel.set_scheduler p s r t)
        ≡ (found new, cpus_of (t p), false))
      × (Unit {0} → new ≡ (s, r))
own_rt_lem p s r t now h = elim (Option-cases (t p)) [
  | inl e ↦ absurd (ground arith)
  | inr (x, e) ↦ (
    (s, r),
    change_own (λ y. record y { rt = (s, r) }) p t x e
        ∙ ap (λ (c : Reading (List ℕ)). (found (s, r), c, false)) (sym (ap cpus_of e)),
    λ _. refl,
  )
]

own_cpus_lem :
    (p : ℕ) (l : List ℕ) (t : Table) (now : List ℕ)
    → cpus_of (t p) ≡ found now
    → (new : List ℕ) × (view kernel p (kernel.set_cpus p l t) ≡ (rt_of (t p), found new, false))
      × (Unit {0} → cpulist2bitmask new ≡ cpulist2bitmask l)
own_cpus_lem p l t now h = elim (Option-cases (t p)) [
  | inl e ↦ absurd (ground arith)
  | inr (x, e) ↦ (
    l,
    change_own (λ y. record y { allowed = l }) p t x e
        ∙ ap (λ (c : Reading (ℕ × ℤ)). (c, found l, false)) (sym (ap rt_of e)),
    λ _. refl,
  )
]

kernel-Accepts : Accepts kernel
kernel-Accepts = record {
  ValidRt = λ _ _ _. Unit;
  ValidCpus = λ _ _. Unit;
  given_rt = λ _ _ _ _ _. tt;
  given_cpus = λ _ _ _ _. tt;
  own_rt = own_rt_lem;
  own_cpus = own_cpus_lem;
  other_rt = λ p q s r t other. change_other (λ x. record x { rt = (s, r) }) p q t other;
  other_cpus = λ p q l t other. change_other (λ x. record x { allowed = l }) p q t other;
  other_tasks = λ path p q t other. change_other (λ x. record x { tasks = path }) p q t other;
}

abbrev processes : Table
processes p =
    if p == 7
    then some (record { rt = (0, pos 0); allowed = 0 ∷ 1 ∷ 2 ∷ 3 ∷ []; tasks = "user.slice" })
    else if p == 9
    then some (record { rt = (2, pos 5); allowed = 3 ∷ []; tasks = "" })
    else none

abbrev booted : Sched kernel
booted = record {
  original = [];
  stored = false;
  cgroup_mount_point = "/cg";
  kthread_process = true;
  ps_whitelist = ".*";
  ps_blacklist = "";
  sys = processes;
}

abbrev editor : Task
editor = record { pid = 7; is_kthread = false; comm = "vi"; cmd = found "vi notes" }

abbrev shell : Task
shell = record { pid = 9; is_kthread = false; comm = "sh"; cmd = found "sh" }

-- Cores are isolated, the editor gets a real-time priority, and the shell moves to a cgroup.
abbrev busy_hours : List Call
busy_hours =
    tune_all (cpus (2 ∷ 3 ∷ [])) ((editor, []) ∷ (shell, []) ∷ [])
    ∷ tune 7 "vi notes" (some (some 1, pos 10)) (some (cpus (1 ∷ [])))
    ∷ tune 9 "sh" none (some (in_cgroup "batch"))
    ∷ disappear 9
    ∷ []

restore_ps_affinity-run_example :
    Restored kernel-Accepts 7 0
      (pos 0)
      15
      (restore_ps_affinity kernel (some ((7, "vi notes") ∷ [])) (run kernel busy_hours booted)).sys
unfolding nat_eq cpulist2bitmask lookup
restore_ps_affinity-run_example =
    restore_ps_affinity-run kernel-Accepts 7 0 (pos 0) (0 ∷ 1 ∷ 2 ∷ 3 ∷ []) "vi notes" busy_hours
      ((7, "vi notes") ∷ []) booted refl refl
      (
        (tt, (((λ _. refl), tt), (((λ e. absurd (ground arith)), tt), tt))),
        ((λ _. (refl, tt)), ((λ e. absurd (ground arith)), (refl, tt))),
      )
      refl

-- The tuned state of the editor.
tuned_editor :
    seen ((run kernel busy_hours booted).sys 7) ≡ (found (1, pos 10), found (1 ∷ []), false)
unfolding run nat_eq string_eq lookup insert erase update set_all_obj_affinity inter split
tuned_editor = refl

-- The editor is restricted to CPUs first and then moved to a cgroup: it stays in the cgroup.
abbrev mixed : List Call
mixed =
    tune_all (cpus (2 ∷ [])) ((editor, []) ∷ [])
    ∷ tune 7 "vi notes" none (some (in_cgroup "batch"))
    ∷ []

abbrev tasks_of : Option Proc → String
tasks_of none = ""
tasks_of (some x) = x.tasks

both_kinds :
    tasks_of
      ((restore_ps_affinity kernel (some ((7, "vi notes") ∷ [])) (run kernel mixed booted)).sys 7)
    ≡ "/cg/batch/tasks"
unfolding run nat_eq string_eq option_eq lookup insert erase update set_all_obj_affinity inter split
    restore_ps_affinity
both_kinds = refl

-- The cgroup "user.slice" is written back as "user/slice".
dotted :
    tasks_of (
      (restore_ps_affinity kernel
          (some ((7, "vi notes") ∷ []))
          (run kernel (tune 7 "vi notes" none (some (in_cgroup "batch")) ∷ []) booted)).sys
        7)
    ≡ "/cg/user/slice/tasks"
unfolding run nat_eq string_eq option_eq lookup insert erase update set_all_obj_affinity inter split
    restore_ps_affinity
dotted = refl
