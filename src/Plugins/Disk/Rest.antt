-- ===== src/Plugins/Disk/Rest.antt =====
-- A disk that stays idle under the dynamic tuning of tuned/plugins/plugin_disk.py.
use tuned.Base.{
  ℕ, zero, suc, ◌-◌, ◌≤◌, String, ◌≡◌, true, Option, none, some, List, [], ◌∷◌, if◌then◌else◌, ltb,
  string_eq, length,
}
use tuned.Base.Dict.{lookup}
use tuned.Base.Text.{ℤ, pos, ltz}
use tuned.Plugins.Disk.{Disks, Stats, Idle, DeviceState, DiskState, update_idle}
use tuned.Plugins.Disk.Dynamic.{level_change, adapt}
use tuned.Plugins.Disk.Loads.{IsGood}

-- The lesser of two numbers
abbrev pub lowest : ℕ → ℕ → ℕ
lowest a b = if ltb a b then a else b

-- The level and the counters after a number of updates without a load
abbrev pub idle_after : ℕ → Idle
idle_after n = record { level = lowest 11 (n - 5); read = n; write = n }

-- The counters with the level that is decided on
next : Idle → Idle
unfolding level_change
next i = elim (level_change i) [ none ↦ i | some level ↦ record i { level = level } ]

-- A number of updates of a device with the same load
abbrev pub resting : String → List ℤ → ℕ → List (String × Option (List ℤ))
resting device l zero = []
resting device l (suc n) = (device, some l) ∷ resting device l n

module _ (D : Disks) (device : String) where
  -- The device can be tuned.
  record IsTunable (s : DiskState D) : Type 0 where
    uses : s.use_hdparm ≡ true
    supported : lookup device s.apm_support ≡ some true

  -- It has these values, this level and these counters.
  record Shows (st : Stats) (i : Idle) (s : DiskState D) : Type 0 where
    tunable : IsTunable s
    state : DeviceState
    here : lookup device s.devices ≡ some state
    stats_is : state.stats ≡ st
    idle_is : state.idle ≡ i

  -- The step returns, and shows this.
  Returns : Stats → Idle → Option (DiskState D) → Type 0
  Returns st i none = ⊥
  Returns st i (some s) = Shows st i s

  -- The device has had the load for a number of updates.
  record Idles (l : List ℤ) (n : ℕ) (s : DiskState D) : Type 0 where
    stats : Stats
    good : IsGood stats
    new_is : stats.new ≡ l
    shows : Shows stats (idle_after n) s

  module _ (is_none : (m : ℤ) → ltz (pos 0) m ≡ true → D.is_small (pos 0) m ≡ true) (l : List ℤ)
      (long : 6 ≤ length l) where
    adapt_with : DiskState D → DeviceState → Option Stats → Option (DiskState D)
    adapt_with s d o = elim o [
      | none ↦ none
      | some t ↦ adapt D device (record d { stats = t; idle = update_idle D t d.idle }) s
    ]
