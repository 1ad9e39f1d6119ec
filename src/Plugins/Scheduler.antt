-- ===== src/Plugins/Scheduler.antt =====
-- The processes of the plugin of tuned/plugins/plugin_scheduler.py: their scheduling and affinity
-- are changed, and the values of before are kept by process ID.
pub mod Distinct
pub mod Irqs
pub mod Kept
pub mod Objects
pub mod Others
pub mod Own
pub mod Restore
pub mod Rollback
pub mod Runs
use Prim.Native.Char.{Char, code}
use tuned.Base.{
  ℕ, String, Bool, true, false, not, ◌&&◌, ◌||◌, Option, none, some, List, [], ◌∷◌, map,
}
use tuned.Base.{◌==◌, string_eq, option_eq, nat_eq, if◌then◌else◌, eqb, select, ◌<>◌, contains}
use tuned.Base.Dict.{Dict, lookup, insert, erase, has, update, values}
use tuned.Base.Names.{inter}
use tuned.Base.Text.{ℤ, split}
use tuned.Base.Text.Search.{behind, in_front}
use tuned.Utils.Masks.{cpulist2bitmask, bitmask2cpulist}

-- A read of a process: `vanished` is an `OSError` with `ESRCH`, `failed` one with another number.
pub data Reading (A : Type 0) : Type 0 where
  found : A → Reading A
  vanished : Reading A
  failed : Reading A

-- What the kernel does. A write that it refuses changes nothing; the code only logs it.
pub record Kernel : Type 1 where
  pub Sys : Type 0
  -- the scheduler's number and the priority
  pub get_rt : ℕ → Sys → Reading (ℕ × ℤ)
  pub set_scheduler : ℕ → ℕ → ℤ → Sys → Sys
  pub get_affinity : ℕ → Sys → Reading (List ℕ)
  pub set_cpus : ℕ → List ℕ → Sys → Sys
  -- the text of `/proc/PID/cgroup`, empty if it cannot be read
  pub read_cgroups : ℕ → Sys → String
  -- a process ID written to the file of the tasks of a cgroup
  pub write_tasks : String → ℕ → Sys → Sys
  -- `_process_in_blacklisted_cgroup`, a search by a regular expression
  pub in_blacklisted_cgroup : ℕ → Sys → Bool
  -- `re.search` of a pattern in a text
  pub search : String → String → Bool

-- `SchedulerParams`; the affinity is kept as a mask.
pub record SchedulerParams : Type 0 where
  pub cmdline : Option String
  pub scheduler : Option ℕ
  pub priority : Option ℤ
  pub mask : Option ℕ
  pub cgroup : Option String

abbrev pub new_params : SchedulerParams
new_params = record {
  cmdline = none;
  scheduler = none;
  priority = none;
  mask = none;
  cgroup = none;
}

-- The getter of `SchedulerParams.affinity`.
unfoldable pub params_affinity : SchedulerParams → Option (List ℕ)
params_affinity params = elim params.mask [ none ↦ none | some m ↦ some (bitmask2cpulist m) ]

-- Scheduler and priority of a rule. `none` stands for no scheduler and no priority; otherwise there
-- is a priority.
abbrev pub Rule : Type 0
Rule = Option (Option ℕ × ℤ)

-- The affinity of a rule; the name of a cgroup stands behind "cgroup." and is not empty.
pub data Affinity : Type 0 where
  cpus : List ℕ → Affinity
  in_cgroup : String → Affinity

-- The first values that are read are kept.
unfoldable pub with_rt : ℕ → ℤ → SchedulerParams → SchedulerParams
with_rt scheduler priority params = elim params.scheduler [
  | none ↦ elim params.priority [
    | none ↦ record params { scheduler = some scheduler; priority = some priority }
    | some _ ↦ params
  ]
  | some _ ↦ params
]

unfoldable pub with_affinity : Affinity → SchedulerParams → SchedulerParams
with_affinity affinity params = elim params.mask [
  | none ↦ elim params.cgroup [
    | none ↦ elim affinity [
      | cpus l ↦ record params { mask = some (cpulist2bitmask l) }
      | in_cgroup cgroup ↦ record params { cgroup = some cgroup }
    ]
    | some _ ↦ params
  ]
  | some _ ↦ params
]

-- A process or a thread, with its command line as it can be read.
pub record Task : Type 0 where
  pub pid : ℕ
  pub is_kthread : Bool
  pub comm : String
  pub cmd : Reading String

-- `_get_intersect_affinity`
unfoldable pub get_intersect_affinity : List ℕ → List ℕ → List ℕ → List ℕ
get_intersect_affinity affinity1 affinity2 affinity3 = elim (inter affinity1 affinity2) [
  | [] ↦ affinity3
  | x ∷ xs ↦ x ∷ xs
]

-- `_sanitize_cgroup_path`
unfoldable pub sanitize_cgroup_path : String → String
sanitize_cgroup_path String.[] = String.[]
sanitize_cgroup_path (String.◌∷◌ c s) =
    (if eqb (code c) b'.' then "/" else String.◌∷◌ c String.[]) <> sanitize_cgroup_path s

drop_one : String → String
drop_one String.[] = String.[]
drop_one (String.◌∷◌ c s) = s

cgroup_of_lines : List String → String
unfolding behind in_front drop_one
cgroup_of_lines [] = "/"
cgroup_of_lines (l ∷ ls) =
    let rest = cgroup_of_lines ls in
    elim (behind ":cpuset:" l) [
      | none ↦ rest
      | some r ↦
          let cgroup = drop_one (in_front ":cpuset:" r) in if cgroup == "" then "/" else cgroup
    ]

module _ (K : Kernel) where
  open K use {
    Sys, get_rt, set_scheduler, get_affinity, set_cpus, read_cgroups, write_tasks,
    in_blacklisted_cgroup,
  }

  -- `stored` tells whether the storage holds the dictionary, which it shares with the plugin.
  pub record Sched : Type 0 where
    pub original : Dict ℕ SchedulerParams
    pub stored : Bool
    pub cgroup_mount_point : String
    pub kthread_process : Bool
    pub ps_whitelist : String
    pub ps_blacklist : String
    pub sys : Sys

  unfoldable pub params_of : ℕ → Sched → SchedulerParams
  params_of pid s = elim (lookup pid s.original) [ none ↦ new_params | some params ↦ params ]

  -- `_store_orig_process_rt`
  unfoldable pub store_orig_process_rt : ℕ → ℕ → ℤ → Sched → Sched
  unfolding params_of with_rt
  store_orig_process_rt pid scheduler priority s = record s {
    original = insert pid (with_rt scheduler priority (params_of pid s)) s.original;
  }

  -- `_tune_process_rt`
  unfoldable pub tune_process_rt : ℕ → Rule → Sched → Bool × Sched
  unfolding store_orig_process_rt
  tune_process_rt pid none s = (true, s)
  tune_process_rt pid (some (sched, prio)) s = elim (get_rt pid s.sys) [
    | found (prev_sched, prev_prio) ↦
        let sched' : ℕ = elim sched [ none ↦ prev_sched | some n ↦ n ] in
        (
          true,
          store_orig_process_rt pid prev_sched prev_prio
              (record s { sys = set_scheduler pid sched' prio s.sys }),
        )
    | vanished ↦ (false, record s { original = erase pid s.original })
    | failed ↦ (true, s)
  ]

  -- `_store_orig_process_affinity`
  unfoldable pub store_orig_process_affinity : ℕ → Affinity → Sched → Sched
  unfolding params_of with_affinity
  store_orig_process_affinity pid affinity s = record s {
    original = insert pid (with_affinity affinity (params_of pid s)) s.original;
  }

  -- `_get_cgroup_affinity`
  unfoldable pub get_cgroup_affinity : ℕ → Sys → String
  unfolding cgroup_of_lines
  get_cgroup_affinity pid sys = cgroup_of_lines (split 10 (read_cgroups pid sys))

  -- `_set_cgroup`
  unfoldable pub set_cgroup : ℕ → String → Sched → Sched
  unfolding sanitize_cgroup_path
  set_cgroup pid cgroup s =
      let path = sanitize_cgroup_path cgroup in
      let directory =
        if path == "/" then s.cgroup_mount_point else s.cgroup_mount_point <> "/" <> path in
      record s { sys = write_tasks (directory <> "/tasks") pid s.sys }

  -- `_set_affinity`
  unfoldable pub set_affinity : ℕ → List ℕ → Sched → Sched
  set_affinity pid affinity s =
      if in_blacklisted_cgroup pid s.sys then s else record s { sys = set_cpus pid affinity s.sys }

  -- `_tune_process_affinity`
  unfoldable pub tune_process_affinity : ℕ → Option Affinity → Bool → Sched → Bool × Sched
  unfolding store_orig_process_affinity set_affinity set_cgroup get_cgroup_affinity
  tune_process_affinity pid none intersect s = (true, s)
  tune_process_affinity pid (some (in_cgroup cgroup)) intersect s = (
    true,
    store_orig_process_affinity pid (in_cgroup (get_cgroup_affinity pid s.sys))
        (set_cgroup pid cgroup s),
  )
  tune_process_affinity pid (some (cpus l)) intersect s = elim (get_affinity pid s.sys) [
    | found prev ↦
        let l' = if intersect then get_intersect_affinity prev l l else l in
        (true, store_orig_process_affinity pid (cpus prev) (set_affinity pid l' s))
    | vanished ↦ (false, record s { original = erase pid s.original })
    | failed ↦ (true, s)
  ]

  -- `self._scheduler_original[pid].cmdline = cmd`, if there is an entry
  unfoldable pub set_cmdline : ℕ → String → Sched → Sched
  set_cmdline pid cmd s = elim (lookup pid s.original) [
    | none ↦ s
    | some params ↦ record s {
      original = insert pid (record params { cmdline = some cmd }) s.original;
    }
  ]

  -- `_tune_process`
  unfoldable pub tune_process : ℕ → String → Rule → Option Affinity → Sched → Sched
  unfolding tune_process_rt tune_process_affinity set_cmdline
  tune_process pid cmd rule affinity s =
      let (cont, s1) = tune_process_rt pid rule s in
      if cont
      then (let (cont', s2) = tune_process_affinity pid affinity false s1 in
          if cont' then set_cmdline pid cmd s2 else s2)
      else s1
