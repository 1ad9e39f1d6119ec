-- ===== src/Plugins/Disk/Dynamic.antt =====
-- The dynamic tuning of tuned/plugins/plugin_disk.py: the power levels of a disk rise while it is
-- idle and fall while it is busy.
use tuned.Base.{
  ℕ, ◌+◌, ◌-◌, String, ◌&&◌, ◌||◌, Option, none, some, List, string_eq, if◌then◌else◌, leb, ltb,
  eqb,
}
use tuned.Base.Dict.{lookup}
use tuned.Base.Text.{ℤ}
use tuned.Plugins.Disk.{
  Disks, Idle, DeviceState, DiskState, levels, level_steps, power_levels, spindown_levels,
  get_elem?, new_state, update_stats, update_idle, set_device, drive_spinning, change_spindown,
  spindown_change, apm_change, is_hdparm_apm_supported,
}

-- The decision on the level: the new one, if it changes
unfoldable pub level_change : Idle → Option ℕ
level_change i =
    if ltb (i.level + 1) levels && (leb level_steps i.read && leb level_steps i.write)
    then some (i.level + 1)
    else if ltb 0 i.level && (eqb i.read 0 || eqb i.write 0)
    then some (i.level - 1)
    else none

module _ (D : Disks) where
  open D use {Sys}

  unfoldable pub changed : String → ℕ → DeviceState → DiskState D → Option (DiskState D)
  unfolding spindown_change apm_change
  changed device level d s =
      let d' = record d { idle = record (d.idle) { level = level } } in
      elim (get_elem? power_levels level) [
        | none ↦ none
        | some power ↦ elim (get_elem? spindown_levels level) [
          | none ↦ none
          | some spindown ↦ some (
              apm_change D device power
                (spindown_change D device (ltb d.idle.level level) spindown d' s))
        ]
      ]

  -- A delayed change of the spindown is made up for once the drive spins.
  unfoldable pub kept : String → DeviceState → DiskState D → Option (DiskState D)
  unfolding drive_spinning change_spindown
  kept device d s =
      if d.delayed
      then (let (spinning, s') = drive_spinning D device s in
          if spinning
          then elim (get_elem? spindown_levels d.idle.level) [
            | none ↦ none
            | some spindown ↦ some (change_spindown D device spindown d s')
          ]
          else some (set_device D device d s'))
      else some (set_device D device d s)

  unfoldable pub adapt : String → DeviceState → DiskState D → Option (DiskState D)
  unfolding changed kept level_change
  adapt device d s = elim (level_change d.idle) [
    | none ↦ kept device d s
    | some level ↦ changed device level d s
  ]

  unfoldable pub state_of : String → DiskState D → DeviceState
  unfolding new_state
  state_of device s = elim (lookup device s.devices) [ none ↦ new_state | some d ↦ d ]

  -- `_instance_update_dynamic` for a load of the monitor; `none` is an `IndexError`.
  unfoldable pub update_dynamic : String → Option (List ℤ) → DiskState D → Option (DiskState D)
  unfolding is_hdparm_apm_supported state_of update_stats update_idle adapt
  update_dynamic device load s =
      let (supported, s') = is_hdparm_apm_supported D device s in
      if supported
      then elim load [
        | none ↦ some s'
        | some l ↦
            let d = state_of device s' in
            elim (update_stats d.stats l) [
              | none ↦ none
              | some stats ↦
                  adapt device (record d { stats = stats; idle = update_idle D stats d.idle }) s'
            ]
      ]
      else some s'
