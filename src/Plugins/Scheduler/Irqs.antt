-- ===== src/Plugins/Scheduler/Irqs.antt =====
-- The interrupts of the plugin of tuned/plugins/plugin_scheduler.py: their affinities are moved
-- away from isolated cores, verified, and written back.
pub mod Subsets
pub mod Verified
use tuned.Base.{
  ℕ, String, Bool, true, false, not, ◌&&◌, ◌||◌, Option, none, some, List, [], ◌∷◌, ◌++◌, map,
  contains, string_eq, nat_eq, if◌then◌else◌,
}
use tuned.Base.Dict.{Dict, insert}
use tuned.Base.Names.{diff}
use tuned.Base.Text.Decimal.{show}
use tuned.Utils.Cpulist.{cpu_items, hex2cpulist}
use tuned.Utils.Cpulist.Hex.{cpulist2hex}
use tuned.Plugins.Scheduler.{get_intersect_affinity}

-- The result of `_set_irq_affinity`: 0, -2 and -1.
pub data Status : Type 0 where
  done : Status
  unsupported : Status
  refused : Status

-- The interrupts and the files of their affinities. An interrupt may have no affinity.
pub record Interrupts : Type 1 where
  pub Sys : Type 0
  pub interrupts : Sys → Dict String (Option (List ℕ))
  -- a mask written for an interrupt; the flag says that a previous value is restored
  pub write_irq : String → String → Bool → Sys → Status × Sys
  pub read_default : Sys → String
  pub write_default : String → Sys → Sys

-- `_default_irq_smp_affinity_value`
pub data DefaultAffinity : Type 0 where
  calc : DefaultAffinity
  ignored : DefaultAffinity
  given : List ℕ → DefaultAffinity

-- `IRQAffinities`
pub record IrqAffinities : Type 0 where
  pub irqs : Dict String (List ℕ)
  pub default : Option (List ℕ)
  pub unchangeable : List String

-- `set(a).issubset(set(b))`
unfoldable pub is_subset : List ℕ → List ℕ → Bool
is_subset [] t = true
is_subset (x ∷ s) t = contains t x && is_subset s t

-- `set(a) == set(b)`
unfoldable pub same_set : List ℕ → List ℕ → Bool
unfolding is_subset
same_set s t = is_subset s t && is_subset t s

-- The mask of a list of CPUs
unfoldable pub affinity_hex : List ℕ → String
unfolding cpulist2hex
affinity_hex l = elim (cpulist2hex (cpu_items (map show l))) [ none ↦ "" | some mask ↦ mask ]

module _ (I : Interrupts) where
  open I use {Sys, interrupts, write_irq, read_default, write_default}

  -- The interrupts, and what `_storage` holds of them.
  pub record Lines : Type 0 where
    pub default_mode : DefaultAffinity
    pub saved : Option IrqAffinities
    pub sys : Sys

  -- `_set_irq_affinity`
  unfoldable pub set_irq_affinity : String → List ℕ → Bool → Sys → Status × Sys
  unfolding affinity_hex
  set_irq_affinity irq affinity restoring sys = write_irq irq (affinity_hex affinity) restoring sys

  -- `_set_default_irq_affinity`
  unfoldable pub set_default_irq_affinity : List ℕ → Sys → Sys
  unfolding affinity_hex
  set_default_irq_affinity affinity sys = write_default (affinity_hex affinity) sys

  -- What is kept of an interrupt after its affinity was written
  keep_irq : String → List ℕ → Status → IrqAffinities → IrqAffinities
  keep_irq irq prev done o = record o { irqs = insert irq prev o.irqs }
  keep_irq irq prev unsupported o = record o { unchangeable = o.unchangeable ++ (irq ∷ []) }
  keep_irq irq prev refused o = o

  -- One round of the loop of `_set_all_irq_affinity`
  unfoldable pub move_irq :
      List ℕ → String → Option (List ℕ) → IrqAffinities × Sys → IrqAffinities × Sys
  unfolding same_set set_irq_affinity keep_irq
  move_irq affinity irq none (o, sys) = (o, sys)
  move_irq affinity irq (some prev) (o, sys) =
      let l = get_intersect_affinity prev affinity affinity in
      if same_set l prev
      then (o, sys)
      else (let (status, sys') = set_irq_affinity irq l false sys in
          (keep_irq irq prev status o, sys'))

  unfoldable pub move_irqs :
      List ℕ → Dict String (Option (List ℕ)) → IrqAffinities × Sys → IrqAffinities × Sys
  unfolding move_irq
  move_irqs affinity [] s = s
  move_irqs affinity ((irq, prev) ∷ d) s = move_irqs affinity d (move_irq affinity irq prev s)

  -- The default affinity in `_set_all_irq_affinity`
  unfoldable pub move_default : DefaultAffinity → List ℕ → IrqAffinities × Sys → IrqAffinities × Sys
  unfolding set_default_irq_affinity
  move_default ignored affinity (o, sys) = (o, sys)
  move_default calc affinity (o, sys) =
      let prev = hex2cpulist (read_default sys) in
      (
        record o { default = some prev },
        set_default_irq_affinity (get_intersect_affinity prev affinity affinity) sys,
      )
  move_default (given l) affinity (o, sys) =
      (record o { default = some (hex2cpulist (read_default sys)) }, set_default_irq_affinity l sys)

  -- `_set_all_irq_affinity`
  unfoldable pub set_all_irq_affinity : List ℕ → Lines → Lines
  unfolding move_irqs move_default
  set_all_irq_affinity affinity s =
      let nothing : IrqAffinities = record { irqs = []; default = none; unchangeable = [] } in
      let moved = move_irqs affinity (interrupts s.sys) (nothing, s.sys) in
      let (o, sys) = move_default s.default_mode affinity moved in
      record s { saved = some o; sys = sys }

  restore_irqs : Dict String (List ℕ) → Sys → Sys
  unfolding set_irq_affinity
  restore_irqs [] sys = sys
  restore_irqs ((irq, affinity) ∷ d) sys = restore_irqs d (set_irq_affinity irq affinity true sys).1

  restore_default : DefaultAffinity → Option (List ℕ) → Sys → Sys
  unfolding set_default_irq_affinity
  restore_default ignored affinity sys = sys
  restore_default mode none sys = sys
  restore_default mode (some l) sys = set_default_irq_affinity l sys

  -- `_restore_all_irq_affinity`
  unfoldable pub restore_all_irq_affinity : Lines → Lines
  unfolding restore_irqs restore_default
  restore_all_irq_affinity s = elim s.saved [
    | none ↦ s
    | some o ↦ record s {
      saved = none;
      sys = restore_default s.default_mode o.default (restore_irqs o.irqs s.sys);
    }
  ]

  -- `_verify_irq_affinity`
  unfoldable pub verify_irq_affinity : List ℕ → List ℕ → Bool
  unfolding is_subset
  verify_irq_affinity correct current = is_subset current correct

  -- The loop of `_verify_all_irq_affinity`
  unfoldable pub verify_irqs : List ℕ → Bool → List String → Dict String (Option (List ℕ)) → Bool
  unfolding verify_irq_affinity
  verify_irqs affinity ignore_missing unchangeable [] = true
  verify_irqs affinity ignore_missing unchangeable ((irq, none) ∷ d) =
      verify_irqs affinity ignore_missing unchangeable d
  verify_irqs affinity ignore_missing unchangeable ((irq, some current) ∷ d) =
      let rest = verify_irqs affinity ignore_missing unchangeable d in
      if contains unchangeable irq && ignore_missing
      then rest
      else verify_irq_affinity affinity current && rest

  -- The default affinity in `_verify_all_irq_affinity`, its arguments in the source's order
  unfoldable pub verify_default : DefaultAffinity → List ℕ → Sys → Bool
  unfolding verify_irq_affinity
  verify_default ignored affinity sys = true
  verify_default calc affinity sys = verify_irq_affinity (hex2cpulist (read_default sys)) affinity
  verify_default (given l) affinity sys = verify_irq_affinity (hex2cpulist (read_default sys)) l

  -- `_verify_all_irq_affinity`, where something was saved before
  unfoldable pub verify_all_irq_affinity : List ℕ → Bool → IrqAffinities → Lines → Bool
  unfolding verify_irqs verify_default
  verify_all_irq_affinity affinity ignore_missing o s =
      verify_irqs affinity ignore_missing o.unchangeable (interrupts s.sys)
      && verify_default s.default_mode affinity s.sys
