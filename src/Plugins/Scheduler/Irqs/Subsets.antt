-- ===== src/Plugins/Scheduler/Irqs/Subsets.antt =====
-- Sets of CPUs in tuned/plugins/plugin_scheduler.py, and lookups behind the first entry.
use tuned.Base.{
  ℕ, String, ◌≡◌, refl, ap, ◌∙◌, true, false, Option, none, some, List, [], ◌∷◌, inl, inr,
  Bool-cases, contains, nat_eq, string_eq, ◌==◌, arith,
}
use tuned.Base.Dict.{Dict, lookup, lookup-cons}
use tuned.Base.Names.{inter, contains-inter}
use tuned.Plugins.Scheduler.{get_intersect_affinity}
use tuned.Plugins.Scheduler.Irqs.{is_subset}

pub subset_intro :
    (s t : List ℕ) → ((x : ℕ) → contains s x ≡ true → contains t x ≡ true) → is_subset s t ≡ true
unfolding is_subset
subset_intro [] t h = refl
subset_intro (x ∷ s) t h = ground (arith, h x, subset_intro s t (λ y e. h y (ground arith)))

pub subset_elim :
    (s t : List ℕ) (x : ℕ) → is_subset s t ≡ true → contains s x ≡ true → contains t x ≡ true
unfolding is_subset
subset_elim [] t x h e = absurd (ground arith)
subset_elim (y ∷ s) t x h e = ground (arith, subset_elim s t x)

pub subset_congr :
    (s t t' : List ℕ) → ((x : ℕ) → contains t x ≡ contains t' x) → is_subset s t ≡ is_subset s t'
unfolding is_subset
subset_congr [] t t' h = refl
subset_congr (x ∷ s) t t' h = ground (arith, h x, subset_congr s t t' h)

pub intersect_within :
    (prev affinity : List ℕ) (x : ℕ)
    → contains (get_intersect_affinity prev affinity affinity) x ≡ true
    → contains affinity x ≡ true
unfolding get_intersect_affinity
intersect_within prev affinity x h =
    elim (inter prev affinity)
        as (λ l.
          inter prev affinity ≡ l
          → contains (elim l [ [] ↦ affinity | y ∷ ys ↦ y ∷ ys ]) x ≡ true
          → contains affinity x ≡ true) [
            | [] ↦ λ e k. k
            | y ∷ ys ↦ λ e k.
                let m : contains (inter prev affinity) x ≡ true =
                  ap (λ (l : List ℕ). contains l x) e ∙ k in
                ground (arith, m, contains-inter prev affinity x)
          ]
      refl h

module _ (j irq : String) (v : Option (List ℕ)) (d : Dict String (Option (List ℕ))) where
  pub in_tail :
      (w : Option (List ℕ)) → lookup irq d ≡ none → lookup j d ≡ some w → (j == irq) ≡ false
  in_tail w fresh h = elim (Bool-cases (j == irq)) [
    | inl e ↦
        let same : j ≡ irq = ground arith in absurd (ground (arith, ap (λ k. lookup k d) same))
    | inr e ↦ e
  ]

  pub lookup_tail :
      (w : Option (List ℕ))
      → lookup irq d ≡ none
      → lookup j d ≡ some w
      → lookup j ((irq, v) ∷ d) ≡ some w
  lookup_tail w fresh h = lookup-cons j irq v d ∙ rw (in_tail w fresh h) h

  pub lookup_head : lookup irq ((irq, v) ∷ d) ≡ some v
  lookup_head = ground (arith, lookup-cons irq irq v d)
