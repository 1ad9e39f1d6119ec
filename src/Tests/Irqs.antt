-- ===== src/Tests/Irqs.antt =====
-- An interrupt controller with one interrupt, and the isolation of cores on it.
use tuned.Base.{
  ℕ, String, ◌≡◌, refl, false, none, some, List, [], ◌∷◌, ◌==◌, string_eq, nat_eq, arith,
  if◌then◌else◌, if_intro, Bool-cases, inl, inr, contains,
}
use tuned.Base.Dict.{lookup, NodupKeys}
use tuned.Base.Names.{inter}
use tuned.Utils.Cpulist.{hex2cpulist}
use tuned.Plugins.Scheduler.{get_intersect_affinity}
use tuned.Plugins.Scheduler.Irqs.{
  IrqAffinities, Interrupts, done, calc, Lines, is_subset, set_all_irq_affinity,
  verify_all_irq_affinity,
}
use tuned.Plugins.Scheduler.Irqs.Verified.{Takes, verify-set_all_irq_affinity}

record Chip : Type 0 where
  nine : List ℕ
  default_mask : String

abbrev chip : Interrupts
chip = record {
  Sys = Chip;
  interrupts = λ c. ("9", some c.nine) ∷ ("NMI", none) ∷ [];
  write_irq = λ irq mask restoring c.
      (done, if irq == "9" then record c { nine = hex2cpulist mask } else c);
  read_default = λ c. c.default_mask;
  write_default = λ mask c. record c { default_mask = mask };
}

abbrev written_chip : String → String → Chip → Chip
written_chip irq mask c = if irq == "9" then record c { nine = hex2cpulist mask } else c

own_lem :
    (irq mask : String) (c : Chip) (old : List ℕ)
    → lookup irq (chip.interrupts c) ≡ some (some old)
    → (new : List ℕ) × (lookup irq (chip.interrupts (written_chip irq mask c)) ≡ some (some new))
      × ((x : ℕ) → contains new x ≡ contains (hex2cpulist mask) x)
unfolding lookup
own_lem irq mask c old h = elim (Bool-cases (irq == "9")) [
  | inl e ↦ (hex2cpulist mask, rw e refl, λ x. refl)
  | inr e ↦ absurd (ground arith)
]

other_lem :
    (i irq mask : String) (c : Chip)
    → (i == irq) ≡ false
    → lookup i (chip.interrupts (written_chip irq mask c)) ≡ lookup i (chip.interrupts c)
unfolding lookup
other_lem i irq mask c ne = elim (Bool-cases (irq == "9")) [
  | inl e ↦ let different : (i == "9") ≡ false = ground arith in rw different refl
  | inr e ↦ rw e refl
]

default_lem :
    (irq mask : String) (c : Chip) → (written_chip irq mask c).default_mask ≡ c.default_mask
default_lem irq mask c =
    if_intro (λ (d : Chip). d.default_mask ≡ c.default_mask) (irq == "9") _ _ (λ _. refl)
      (λ _. refl)

distinct_lem : (c : Chip) → NodupKeys (chip.interrupts c)
unfolding lookup string_eq
distinct_lem c = (refl, (refl, tt))

chip-Takes : Takes chip
chip-Takes = record {
  distinct = distinct_lem;
  own = λ irq mask restoring. own_lem irq mask;
  other = λ i irq mask restoring. other_lem i irq mask;
  default_kept = λ irq mask restoring. default_lem irq mask;
  default_own = λ mask c x. refl;
  interrupts_kept = λ mask c. refl;
}

-- CPU 3 is isolated; the default affinity has the CPUs 0 and 3 at first.
abbrev lines : Lines chip
lines = record {
  default_mode = calc;
  saved = none;
  sys = record { nine = 0 ∷ 1 ∷ 2 ∷ 3 ∷ []; default_mask = "9" };
}

abbrev nothing_kept : IrqAffinities
nothing_kept = record { irqs = []; default = none; unchangeable = [] }

verify-set_all_irq_affinity_example :
    verify_all_irq_affinity chip
      (0 ∷ 1 ∷ 2 ∷ [])
      false
      nothing_kept
      (set_all_irq_affinity chip (0 ∷ 1 ∷ 2 ∷ []) lines)
    ≡ is_subset
        (0 ∷ 1 ∷ 2 ∷ [])
        (get_intersect_affinity (hex2cpulist "9") (0 ∷ 1 ∷ 2 ∷ []) (0 ∷ 1 ∷ 2 ∷ []))
verify-set_all_irq_affinity_example =
    verify-set_all_irq_affinity chip-Takes (0 ∷ 1 ∷ 2 ∷ []) false nothing_kept lines refl

-- The verification of what was just set fails.
just_set :
    verify_all_irq_affinity chip
      (0 ∷ 1 ∷ 2 ∷ [])
      false
      nothing_kept
      (set_all_irq_affinity chip (0 ∷ 1 ∷ 2 ∷ []) lines)
    ≡ false
unfolding is_subset get_intersect_affinity hex2cpulist inter nat_eq
just_set = verify-set_all_irq_affinity_example
