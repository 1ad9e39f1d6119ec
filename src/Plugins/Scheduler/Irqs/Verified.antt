-- ===== src/Plugins/Scheduler/Irqs/Verified.antt =====
-- The verification of the interrupts by tuned/plugins/plugin_scheduler.py, right after they were
-- moved.
use tuned.Base.{
  ℕ, String, ◌≡◌, refl, sym, ap, ◌∙◌, Bool, true, false, ◌&&◌, Option, none, some, List, [], ◌∷◌,
  inl, inr, Bool-cases, contains, nat_eq, string_eq, ◌==◌, arith, if_intro, subst,
}
use tuned.Base.Dict.{Dict, NodupKeys, lookup, lookup-cons, lookup-nil, lookup-cases}
use tuned.Utils.Cpulist.{hex2cpulist}
use tuned.Utils.Cpulist.Packing.Numbers.{mask_of_numbers}
use tuned.Plugins.Scheduler.{get_intersect_affinity}
use tuned.Plugins.Scheduler.Irqs.Subsets.{
  subset_intro, subset_elim, subset_congr, intersect_within, in_tail, lookup_tail, lookup_head,
}
use tuned.Plugins.Scheduler.Irqs.{
  Interrupts, calc, IrqAffinities, Lines, is_subset, same_set, affinity_hex, move_irq, move_irqs,
  move_default, set_all_irq_affinity, verify_irqs, verify_default, verify_all_irq_affinity,
}

-- An interrupt controller on which every write takes effect and is read back as the same CPUs.
pub record Takes (I : Interrupts) : Type 0 where
  pub distinct : (sys : I.Sys) → NodupKeys (I.interrupts sys)
  pub own :
      (irq mask : String) (restoring : Bool) (sys : I.Sys) (old : List ℕ)
      → lookup irq (I.interrupts sys) ≡ some (some old)
      → (new : List ℕ) × (lookup irq (I.interrupts (I.write_irq irq mask restoring sys).1)
          ≡ some (some new))
        × ((x : ℕ) → contains new x ≡ contains (hex2cpulist mask) x)
  pub other :
      (i irq mask : String) (restoring : Bool) (sys : I.Sys)
      → (i == irq) ≡ false
      → lookup i (I.interrupts (I.write_irq irq mask restoring sys).1) ≡ lookup i (I.interrupts sys)
  pub default_kept :
      (irq mask : String) (restoring : Bool) (sys : I.Sys)
      → I.read_default (I.write_irq irq mask restoring sys).1 ≡ I.read_default sys
  pub default_own :
      (mask : String) (sys : I.Sys) (x : ℕ)
      → contains (hex2cpulist (I.read_default (I.write_default mask sys))) x
        ≡ contains (hex2cpulist mask) x
  pub interrupts_kept :
      (mask : String) (sys : I.Sys) → I.interrupts (I.write_default mask sys) ≡ I.interrupts sys

written : (l : List ℕ) (x : ℕ) → contains (hex2cpulist (affinity_hex l)) x ≡ contains l x
unfolding affinity_hex
written l x =
    let (mask, e, back) = mask_of_numbers l in
    ap (λ o. contains (hex2cpulist (elim o [ none ↦ "" | some m ↦ m ])) x) e ∙ back x

module _ {I : Interrupts} (t : Takes I) (affinity : List ℕ) where
  Fits : String → I.Sys → Type 0
  Fits i sys =
      (l : List ℕ) → lookup i (I.interrupts sys) ≡ some (some l) → is_subset l affinity ≡ true

  Fits-same :
      (i : String) (sys sys' : I.Sys)
      → lookup i (I.interrupts sys') ≡ lookup i (I.interrupts sys)
      → Fits i sys
      → Fits i sys'
  unfolding Fits
  Fits-same i sys sys' e f l h = f l (sym e ∙ h)

  move_irq-Fits :
      (irq : String) (prev : Option (List ℕ)) (o : IrqAffinities) (sys : I.Sys)
      → lookup irq (I.interrupts sys) ≡ some prev
      → Fits irq (move_irq I affinity irq prev (o, sys)).1
  unfolding move_irq Fits
  move_irq-Fits irq none o sys here = λ l h. absurd (ground arith)
  move_irq-Fits irq (some prev) o sys here =
      let new = get_intersect_affinity prev affinity affinity in
      if_intro (λ (s : IrqAffinities × I.Sys). Fits irq s.1) (same_set new prev) _ _
        (λ same l h.
          let e : l ≡ prev = ground arith in
          subset_intro l affinity (λ x m.
            intersect_within prev affinity x
              (subset_elim prev new x (ground (arith, same)) (ground (arith, m, e)))))
        (λ _ l h.
          let (l', e, members) = t.own irq (affinity_hex new) false sys prev here in
          let same : l ≡ l' = ground (arith, h, e) in
          subset_intro l affinity (λ x m.
            intersect_within prev affinity x
              (sym (members x ∙ written new x) ∙ ap (λ (k : List ℕ). contains k x) (sym same) ∙ m)))

  move_irq_other :
      (i irq : String) (prev : Option (List ℕ)) (o : IrqAffinities) (sys : I.Sys)
      → (i == irq) ≡ false
      → lookup i (I.interrupts (move_irq I affinity irq prev (o, sys)).1)
        ≡ lookup i (I.interrupts sys)
  unfolding move_irq
  move_irq_other i irq none o sys other = refl
  move_irq_other i irq (some prev) o sys other =
      if_intro
        (λ (s : IrqAffinities × I.Sys). lookup i (I.interrupts s.1) ≡ lookup i (I.interrupts sys))
        (same_set (get_intersect_affinity prev affinity affinity) prev) _ _ (λ _. refl)
        (λ _. t.other i irq _ false sys other)

  move_irq_default :
      (irq : String) (prev : Option (List ℕ)) (o : IrqAffinities) (sys : I.Sys)
      → I.read_default (move_irq I affinity irq prev (o, sys)).1 ≡ I.read_default sys
  unfolding move_irq
  move_irq_default irq none o sys = refl
  move_irq_default irq (some prev) o sys =
      if_intro (λ (s : IrqAffinities × I.Sys). I.read_default s.1 ≡ I.read_default sys)
        (same_set (get_intersect_affinity prev affinity affinity) prev) _ _ (λ _. refl)
        (λ _. t.default_kept irq _ false sys)

  move_irqs_default :
      (d : Dict String (Option (List ℕ))) (o : IrqAffinities) (sys : I.Sys)
      → I.read_default (move_irqs I affinity d (o, sys)).1 ≡ I.read_default sys
  unfolding move_irqs
  move_irqs_default [] o sys = refl
  move_irqs_default ((irq, prev) ∷ d) o sys =
      let (o', sys') = move_irq I affinity irq prev (o, sys) in
      move_irqs_default d o' sys' ∙ move_irq_default irq prev o sys

  move_irqs_other :
      (i : String) (d : Dict String (Option (List ℕ))) (o : IrqAffinities) (sys : I.Sys)
      → lookup i d ≡ none
      → lookup i (I.interrupts (move_irqs I affinity d (o, sys)).1) ≡ lookup i (I.interrupts sys)
  unfolding move_irqs
  move_irqs_other i [] o sys h = refl
  move_irqs_other i ((irq, prev) ∷ d) o sys h =
      let (o', sys') = move_irq I affinity irq prev (o, sys) in
      let other : (i == irq) ≡ false = ground (arith, lookup-cons i irq prev d) in
      let rest : lookup i d ≡ none = ground (arith, lookup-cons i irq prev d) in
      move_irqs_other i d o' sys' rest ∙ move_irq_other i irq prev o sys other

  -- Every interrupt of a list of present ones fits in the end.
  move_irqs_fit :
      (i : String) (d : Dict String (Option (List ℕ))) (v : Option (List ℕ)) (o : IrqAffinities)
      (sys : I.Sys)
      → NodupKeys d
      → ((j : String) (w : Option (List ℕ))
          → lookup j d ≡ some w
          → lookup j (I.interrupts sys) ≡ some w)
      → lookup i d ≡ some v
      → Fits i (move_irqs I affinity d (o, sys)).1
  unfolding move_irqs
  move_irqs_fit i [] v o sys u present h =
      absurd (ground (arith, lookup-nil {V = Option (List ℕ)} i))
  move_irqs_fit i ((irq, prev) ∷ d) v o sys (fresh, u) present h =
      let (o', sys') = move_irq I affinity irq prev (o, sys) in
      elim (Bool-cases (i == irq)) [
        | inl e ↦
            let same : i ≡ irq = ground arith in
            let gone : lookup i d ≡ none = rw same fresh in
            let here : lookup irq (I.interrupts sys) ≡ some prev =
              present irq prev (ground (arith, lookup-cons irq irq prev d)) in
            Fits-same i sys' _ (move_irqs_other i d o' sys' gone)
              (subst (λ k. Fits k sys') (sym same) (move_irq-Fits irq prev o sys here))
        | inr e ↦
            move_irqs_fit i d v o' sys' u
              (λ j w hj.
                move_irq_other j irq prev o sys (in_tail j irq prev d w fresh hj)
                ∙ present j w (lookup_tail j irq prev d w fresh hj))
              (ground (arith, lookup-cons i irq prev d))
      ]

  verify_irqs_fit :
      (ignore_missing : Bool) (unchangeable : List String) (d : Dict String (Option (List ℕ)))
      → NodupKeys d
      → ((i : String) (l : List ℕ) → lookup i d ≡ some (some l) → is_subset l affinity ≡ true)
      → verify_irqs I affinity ignore_missing unchangeable d ≡ true
  unfolding verify_irqs
  verify_irqs_fit ignore_missing unchangeable [] u h = refl
  verify_irqs_fit ignore_missing unchangeable ((irq, none) ∷ d) (fresh, u) h =
      verify_irqs_fit ignore_missing unchangeable d u
        (λ i l e. h i l (lookup_tail i irq none d (some l) fresh e))
  verify_irqs_fit ignore_missing unchangeable ((irq, some l) ∷ d) (fresh, u) h =
      let rest : verify_irqs I affinity ignore_missing unchangeable d ≡ true =
        verify_irqs_fit ignore_missing unchangeable d u
          (λ i k e. h i k (lookup_tail i irq (some l) d (some k) fresh e)) in
      let first : is_subset l affinity ≡ true = h irq l (lookup_head irq irq (some l) d) in
      ground (arith, rest, first)

  -- Every interrupt fits after the loop over those that there are.
  all_fit :
      (o : IrqAffinities) (sys : I.Sys) (i : String)
      → Fits i (move_irqs I affinity (I.interrupts sys) (o, sys)).1
  unfolding Fits
  all_fit o sys i = λ l h. elim (lookup-cases i (I.interrupts sys)) [
    | inl e ↦ absurd (ground (arith, h, move_irqs_other i (I.interrupts sys) o sys e))
    | inr (v, e) ↦ move_irqs_fit i (I.interrupts sys) v o sys (t.distinct sys) (λ j w k. k) e l h
  ]

  moved_verify :
      (ignore_missing : Bool) (unchangeable : List String) (o : IrqAffinities) (sys : I.Sys)
      → verify_irqs I affinity ignore_missing unchangeable (I.interrupts sys) ≡ true
      → (verify_irqs I affinity ignore_missing unchangeable
            (I.interrupts (move_default I calc affinity (o, sys)).1)
          && verify_default I calc affinity (move_default I calc affinity (o, sys)).1)
        ≡ is_subset affinity
            (get_intersect_affinity (hex2cpulist (I.read_default sys)) affinity affinity)
  unfolding move_default verify_default
  moved_verify ignore_missing unchangeable o sys h =
      let new = get_intersect_affinity (hex2cpulist (I.read_default sys)) affinity affinity in
      rw (t.interrupts_kept (affinity_hex new) sys, h)
        (subset_congr affinity _ new (λ x. t.default_own (affinity_hex new) sys x ∙ written new x))

  -- Where every write takes effect and is read back as the same CPUs: right after the interrupts
  -- were moved to the CPUs that are not isolated, with the default affinity calculated, every
  -- interrupt passes the verification. The result is whether the new default affinity has all of
  -- these CPUs; it has those of them that the old one had, or all if the old one had none.
  pub verify-set_all_irq_affinity :
      (ignore_missing : Bool) (o : IrqAffinities) (s : Lines I)
      → s.default_mode ≡ calc
      → verify_all_irq_affinity I affinity ignore_missing o (set_all_irq_affinity I affinity s)
        ≡ is_subset affinity
            (get_intersect_affinity (hex2cpulist (I.read_default s.sys)) affinity affinity)
  unfolding set_all_irq_affinity verify_all_irq_affinity Fits
  verify-set_all_irq_affinity ignore_missing o s mode =
      let nothing : IrqAffinities = record { irqs = []; default = none; unchangeable = [] } in
      let (o1, sys1) = move_irqs I affinity (I.interrupts s.sys) (nothing, s.sys) in
      let fit : verify_irqs I affinity ignore_missing o.unchangeable (I.interrupts sys1) ≡ true =
        verify_irqs_fit ignore_missing o.unchangeable (I.interrupts sys1) (t.distinct sys1)
          (λ i l h. all_fit nothing s.sys i l h) in
      rw mode (
        moved_verify ignore_missing o.unchangeable o1 sys1 fit
        ∙ ap (λ m. is_subset affinity (get_intersect_affinity (hex2cpulist m) affinity affinity))
            (move_irqs_default (I.interrupts s.sys) nothing s.sys))
