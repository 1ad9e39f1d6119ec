-- ===== src/Plugins/Disk/Updates.antt =====
-- Sequences of updates of the dynamic tuning in tuned/plugins/plugin_disk.py.
use tuned.Base.{
  ◌≤◌, String, subst, Bool, Option, none, some, List, [], ◌∷◌, inl, inr, Option-cases, if_intro,
  not, string_eq, length, All,
}
use tuned.Base.Dict.{lookup}
use tuned.Base.Text.{ℤ}
use tuned.Plugins.Disk.{
  Disks, DiskState, ExitCode, succeeded, not_found, failed, checked, update_idle,
  is_hdparm_apm_supported,
}
use tuned.Plugins.Disk.Dynamic.{state_of, update_dynamic}
use tuned.Plugins.Disk.Loads.{update_stats-Updated}
use tuned.Plugins.Disk.Levels.{
  IsBounded, AllBounded, new_state-IsBounded, Ok, adapt-Ok, sys-AllBounded,
}

-- A load that the monitor gives has eleven values; six are enough.
abbrev pub IsLong : String × Option (List ℤ) → Type 0
IsLong (device, none) = Unit
IsLong (device, some l) = 6 ≤ length l

module _ (D : Disks) where
  -- Updates of devices with their loads, one after the other
  unfoldable pub run_updates : List (String × Option (List ℤ)) → DiskState D → Option (DiskState D)
  unfolding update_dynamic
  run_updates [] s = some s
  run_updates ((device, load) ∷ us) s = elim (update_dynamic D device load s) [
    | none ↦ none
    | some s' ↦ run_updates us s'
  ]

  checked-AllBounded :
      (device : String) (rc : ExitCode) (out : String) (s : DiskState D)
      → AllBounded D s
      → AllBounded D (checked D device rc out s).1
  unfolding checked
  checked-AllBounded device not_found out s h = record {
    bounded = h.bounded;
    apm_within = h.apm_within;
    spindown_within = h.spindown_within;
  }
  checked-AllBounded device failed out s h = record {
    bounded = h.bounded;
    apm_within = h.apm_within;
    spindown_within = h.spindown_within;
  }
  checked-AllBounded device succeeded out s h = record {
    bounded = h.bounded;
    apm_within = h.apm_within;
    spindown_within = h.spindown_within;
  }

  supported_kept :
      (device : String) (s : DiskState D)
      → AllBounded D s
      → AllBounded D (is_hdparm_apm_supported D device s).1
  unfolding is_hdparm_apm_supported
  supported_kept device s h =
      if_intro (λ (o : Bool × DiskState D). AllBounded D o.1) (not s.use_hdparm) _ _ (λ _. h)
        (λ _. elim (Option-cases (lookup device s.apm_support)) [
          | inl e ↦ rw e (checked-AllBounded device _ _ _ (sys-AllBounded D s _ h))
          | inr (answer, e) ↦ rw e h
        ])

  state_of-IsBounded :
      (device : String) (s : DiskState D) → AllBounded D s → IsBounded (state_of D device s)
  unfolding state_of
  state_of-IsBounded device s h = elim (Option-cases (lookup device s.devices)) [
    | inl e ↦ rw (state_of, e) new_state-IsBounded
    | inr (d, e) ↦ rw (state_of, e) (h.bounded device d e)
  ]

  update_dynamic-Ok :
      (device : String) (load : Option (List ℤ)) (s : DiskState D)
      → IsLong (device, load)
      → AllBounded D s
      → Ok D (update_dynamic D device load s)
  unfolding update_dynamic
  update_dynamic-Ok device none s long h =
      let (supported, s') = is_hdparm_apm_supported D device s in
      let h' : AllBounded D s' = supported_kept device s h in
      if_intro (Ok D) supported _ _ (λ _. h') (λ _. h')
  update_dynamic-Ok device (some l) s long h =
      let (supported, s') = is_hdparm_apm_supported D device s in
      let h' : AllBounded D s' = supported_kept device s h in
      let d = state_of D device s' in
      let b : IsBounded d = state_of-IsBounded device s' h' in
      let (stats, u) = update_stats-Updated d.stats l b.good long in
      if_intro (Ok D) supported _ _
        (λ _. rw u.returns (
          adapt-Ok D device (record d { stats = stats; idle = update_idle D stats d.idle }) s'
            (record { level_within = b.level_within; good = u.good }) h'))
        (λ _. h')

  -- From a state in which the levels of all devices are within the tables, and the maxima that
  -- are divided by are positive, any updates of devices,
  -- with loads of at least six values or none, return and lead to such a state: no table and no
  -- load is read out of its bounds, no maximum that is divided by is zero, a level is below twelve, and the counters of errors are at
  -- most one above the threshold, whatever the disks answer.
  pub run_updates-Ok :
      (us : List (String × Option (List ℤ))) (s : DiskState D)
      → All IsLong us
      → AllBounded D s
      → Ok D (run_updates us s)
  unfolding run_updates
  run_updates-Ok [] s long h = h
  run_updates-Ok ((device, load) ∷ us) s (long, rest) h =
      elim (Option-cases (update_dynamic D device load s)) [
        | inl e ↦ absurd (subst (Ok D) e (update_dynamic-Ok device load s long h))
        | inr (s', e) ↦
            rw (run_updates, e)
              (run_updates-Ok us s' rest (subst (Ok D) e (update_dynamic-Ok device load s long h)))
      ]
