-- ===== src/Daemon/Loop/Rounds.antt =====
-- How often the main loop of tuned/daemon/daemon.py updates the tuning.
use native.Mathlib.Nat.{le-div_iff_mul-le, div-lt_iff_lt-mul, div-mul-le_self}
use tuned.Base.{
  ℕ, zero, suc, ◌+◌, ◌-◌, ◌*◌, ◌/◌, ◌≤◌, ◌<◌, ◌≡◌, refl, Bool, true, arith, leb, Bool-cases, inl,
  inr,
}
use tuned.Base.Text.{ℤ, pos, negsuc}
use tuned.Daemon.Loop.{
  Settings, Calls, main_loop, sleep_interval, update_interval, sleep_cycles, is_dynamic,
}

-- One update of the monitors and of the tuning, made so many times.
abbrev pub updated : (C : Calls) → ℕ → C.Units → C.Units
updated C zero u = u
updated C (suc n) u = updated C n (C.update_tuning (C.update_monitors u))

-- A number of full cycles in a number of waits, and less than a cycle left.
abbrev pub IsQuotient : ℕ → ℕ → ℕ → Type 0
IsQuotient waits cycles n = (n * cycles ≤ waits) × (waits < n * cycles + cycles)

module _ (C : Calls) (o : Settings) (dynamic : o.dynamic_tuning ≡ true) where
  rounds :
      (waits count : ℕ) (u : C.Units)
      → 1 ≤ count
      → count ≤ o.cycles
      → (n : ℕ) × IsQuotient (waits + (o.cycles - count)) o.cycles n
        × (main_loop C o waits count u ≡ updated C n u)
  unfolding main_loop
  rounds zero count u low high = (0, (omega arith, omega arith), refl)
  rounds (suc waits) count u low high = elim (Bool-cases (leb count 1)) [
    | inl e ↦
        let (n, (a, b), p) =
          rounds waits o.cycles (C.update_tuning (C.update_monitors u)) ground arith ground arith in
        (suc n, (ground arith, ground arith), ground (arith, dynamic, p))
    | inr e ↦
        let (n, (a, b), p) = rounds waits (count - 1) u ground arith ground arith in
        (n, (ground arith, ground arith), ground (arith, dynamic, p))
  ]

  -- With dynamic tuning and at least one sleep to a cycle, the main loop updates the monitors and
  -- then the tuning once in every full cycle of sleeps, and does nothing else.
  pub main_loop_lem :
      (waits : ℕ) (u : C.Units)
      → 1 ≤ o.cycles
      → main_loop C o waits o.cycles u ≡ updated C (waits / o.cycles) u
  main_loop_lem waits u low =
      let (n, (a, b), p) = rounds waits o.cycles u low (omega arith) in
      let below : n ≤ waits / o.cycles = (le-div_iff_mul-le low).1 (omega (arith, a)) in
      let above : waits / o.cycles < suc n = (div-lt_iff_lt-mul low).1 (omega (arith, b)) in
      let same : n ≡ waits / o.cycles = omega (arith, below, above) in rw (← same) p

positive_sleep : (sleep : ℤ) → 1 ≤ sleep_interval sleep
unfolding sleep_interval
positive_sleep (pos zero) = omega arith
positive_sleep (pos (suc n)) = omega arith
positive_sleep (negsuc n) = omega arith

long_update :
    (s : ℕ) (update : ℤ) (dynamic : Bool)
    → is_dynamic update dynamic ≡ true
    → s ≤ update_interval s update
unfolding is_dynamic update_interval
long_update s (pos zero) dynamic h = cc
long_update s (pos (suc n)) dynamic h = ground arith
long_update s (negsuc n) dynamic h = omega arith

-- Whatever the configured intervals are, negative ones too, if dynamic tuning stays on then there
-- is at least one sleep to a cycle, and the sleeps of a cycle do not last longer than the update
-- interval.
pub sleep_cycles_lem :
    (sleep update : ℤ) (dynamic : Bool)
    → is_dynamic update dynamic ≡ true
    → (1 ≤ sleep_cycles sleep update)
      × (sleep_cycles sleep update * sleep_interval sleep
          ≤ update_interval (sleep_interval sleep) update)
unfolding sleep_cycles
sleep_cycles_lem sleep update dynamic h =
    let s = sleep_interval sleep in
    (
      (le-div_iff_mul-le (positive_sleep sleep)).1 (omega (arith, long_update s update dynamic h)),
      div-mul-le_self (update_interval s update) s,
    )
