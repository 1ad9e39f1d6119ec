-- ===== src/Plugins/Disk/Levels.antt =====
-- The levels of tuned/plugins/plugin_disk.py stay within the tables.
use tuned.Base.{
  ℕ, ◌≤◌, ◌<◌, String, ◌≡◌, ap, ◌∙◌, subst, Bool, true, false, Option, none, some, inl, inr,
  Bool-cases, Option-cases, if_intro, string_eq, arith, ◌==◌, not, ◌&&◌, ltb,
}
use tuned.Base.Dict.{lookup, lookup-insert}
use tuned.Plugins.Disk.{
  Disks, Idle, DeviceState, DiskState, ExitCode, power_levels, spindown_levels, new_state,
  update_errcnt, set_device, change_spindown, drive_spinning, spindown_change, apm_change,
}
use tuned.Plugins.Disk.Dynamic.{level_change, changed, kept, adapt}
use tuned.Plugins.Disk.Loads.{get_elem?-some, IsGood, new_state-IsGood}

-- The level is in the tables, and the values can be updated.
pub record IsBounded (d : DeviceState) : Type 0 where
  pub level_within : d.idle.level < 12
  pub good : IsGood d.stats

pub new_state-IsBounded : IsBounded new_state
unfolding new_state
new_state-IsBounded = record { level_within = omega arith; good = new_state-IsGood }

level_change_within :
    (i : Idle) (level : ℕ) → i.level < 12 → level_change i ≡ some level → level < 12
unfolding level_change
level_change_within i level h e = ground arith

module _ (D : Disks) where
  -- All devices are bounded, and the counters of errors are at most one above the threshold.
  pub record AllBounded (s : DiskState D) : Type 0 where
    pub bounded :
        (device : String) (d : DeviceState) → lookup device s.devices ≡ some d → IsBounded d
    pub apm_within : s.apm_errcnt ≤ 4
    pub spindown_within : s.spindown_errcnt ≤ 4

  set_device-AllBounded :
      (device : String) (d : DeviceState) (s : DiskState D)
      → IsBounded d
      → AllBounded s
      → AllBounded (set_device D device d s)
  unfolding set_device
  set_device-AllBounded device d s b h = record {
    bounded = λ other d' e. elim (Bool-cases (other == device)) [
      | inl same ↦
          let own : d ≡ d' = ground (arith, lookup-insert other device d s.devices) in
          subst IsBounded own b
      | inr differ ↦ h.bounded other d' (ground (arith, lookup-insert other device d s.devices))
    ];
    apm_within = h.apm_within;
    spindown_within = h.spindown_within;
  }

  update_errcnt-AllBounded :
      (rc : ExitCode) (spindown : Bool) (s : DiskState D)
      → AllBounded s
      → AllBounded (update_errcnt D rc spindown s)
  unfolding update_errcnt
  update_errcnt-AllBounded rc spindown s h = record {
    bounded = λ other d e. h.bounded other d (ap (lookup other) devices_kept ∙ e);
    apm_within = within.0;
    spindown_within = within.1;
  }
    where
      devices_kept : s.devices ≡ (update_errcnt D rc spindown s).devices
      devices_kept = ground arith

      a : s.apm_errcnt ≤ 4
      a = h.apm_within

      b : s.spindown_errcnt ≤ 4
      b = h.spindown_within

      within :
          ((update_errcnt D rc spindown s).apm_errcnt ≤ 4)
          × ((update_errcnt D rc spindown s).spindown_errcnt ≤ 4)
      within = ground (arith, a, b)

  pub sys-AllBounded :
      (s : DiskState D) (sys : D.Sys) → AllBounded s → AllBounded (record s { sys = sys })
  sys-AllBounded s sys h = record {
    bounded = h.bounded;
    apm_within = h.apm_within;
    spindown_within = h.spindown_within;
  }

  change_spindown-AllBounded :
      (device : String) (level : ℕ) (d : DeviceState) (s : DiskState D)
      → IsBounded d
      → AllBounded s
      → AllBounded (change_spindown D device level d s)
  unfolding change_spindown
  change_spindown-AllBounded device level d s b h =
      set_device-AllBounded device _ _ (record { level_within = b.level_within; good = b.good })
        (update_errcnt-AllBounded _ true _ (sys-AllBounded s _ h))

  drive_spinning-AllBounded :
      (device : String) (s : DiskState D) → AllBounded s → AllBounded (drive_spinning D device s).1
  unfolding drive_spinning
  drive_spinning-AllBounded device s h = sys-AllBounded s _ h

  spindown_change-AllBounded :
      (device : String) (up : Bool) (level : ℕ) (d : DeviceState) (s : DiskState D)
      → IsBounded d
      → AllBounded s
      → AllBounded (spindown_change D device up level d s)
  unfolding spindown_change
  spindown_change-AllBounded device up level d s b h =
      let (spinning, s') = drive_spinning D device s in
      let h' : AllBounded s' = drive_spinning-AllBounded device s h in
      if_intro AllBounded (ltb s.spindown_errcnt 3) _ _
        (λ _.
          if_intro AllBounded (not spinning && up) _ _
            (λ _.
              set_device-AllBounded device _ s'
                (record { level_within = b.level_within; good = b.good }) h')
            (λ _. change_spindown-AllBounded device level d s' b h'))
        (λ _. set_device-AllBounded device d s b h)

  apm_change-AllBounded :
      (device : String) (level : ℕ) (s : DiskState D)
      → AllBounded s
      → AllBounded (apm_change D device level s)
  unfolding apm_change
  apm_change-AllBounded device level s h =
      if_intro AllBounded (ltb s.apm_errcnt 3) _ _
        (λ _. update_errcnt-AllBounded _ false _ (sys-AllBounded s _ h)) (λ _. h)

  -- The step returns, in a bounded state.
  abbrev pub Ok : Option (DiskState D) → Type 0
  Ok none = ⊥
  Ok (some s) = AllBounded s

  changed-Ok :
      (device : String) (level : ℕ) (d : DeviceState) (s : DiskState D)
      → level < 12
      → IsBounded d
      → AllBounded s
      → Ok (changed D device level d s)
  unfolding changed
  changed-Ok device level d s l b h =
      let (power, e1) = get_elem?-some power_levels level l in
      let (spindown, e2) = get_elem?-some spindown_levels level l in
      rw (changed, e1, e2)
        (apm_change-AllBounded device power _ (
          spindown_change-AllBounded device _ spindown _ s
            (record { level_within = l; good = b.good }) h))

  kept-Ok :
      (device : String) (d : DeviceState) (s : DiskState D)
      → IsBounded d
      → AllBounded s
      → Ok (kept D device d s)
  unfolding kept
  kept-Ok device d s b h =
      let (spinning, s') = drive_spinning D device s in
      let h' : AllBounded s' = drive_spinning-AllBounded device s h in
      let (spindown, e) = get_elem?-some spindown_levels d.idle.level b.level_within in
      if_intro Ok d.delayed _ _
        (λ _.
          if_intro Ok spinning _ _
            (λ _. rw e (change_spindown-AllBounded device spindown d s' b h'))
            (λ _. set_device-AllBounded device d s' b h'))
        (λ _. set_device-AllBounded device d s b h)

  pub adapt-Ok :
      (device : String) (d : DeviceState) (s : DiskState D)
      → IsBounded d
      → AllBounded s
      → Ok (adapt D device d s)
  unfolding adapt
  adapt-Ok device d s b h = elim (Option-cases (level_change d.idle)) [
    | inl e ↦ rw (adapt, e) (kept-Ok device d s b h)
    | inr (level, e) ↦
        rw (adapt, e)
          (changed-Ok device level d s (level_change_within d.idle level b.level_within e) b h)
  ]
