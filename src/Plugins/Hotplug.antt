-- ===== src/Plugins/Hotplug.antt =====
-- tuned/plugins/hotplug.py: devices that appear and disappear while a plugin is tuning. A state is
-- the plugin's bookkeeping and the world that commands change.
pub mod Books
pub mod Kept
pub mod Moves
use tuned.Base.{String, Bool, true, false, not, ◌&&◌, ◌||◌, Option, none, some, List, [], ◌∷◌}
use tuned.Base.{◌==◌, contains, string_eq, if◌then◌else◌, length, ltb, eqb, ◌+◌}
use tuned.Base.Dict.{Dict, lookup, insert}
use tuned.Base.Names.{add, remove, union}
use tuned.Plugins.Instance.{Instance}
use tuned.Plugins.Driver.{Driver}
use tuned.Plugins.Devices.{put_back, Plugin, Matching}
use tuned.Plugins.Commands.{
  World, device_commands, execute_device_commands, cleanup_device_commands,
}
use tuned.Plugins.Tuning.{call_device_script, instance_apply_dynamic, soft}
use tuned.Base.{reverse}

abbrev some_devices : Instance → Bool
some_devices i = ltb 0 (length i.processed_devices + length i.assigned_devices)

module _ (D : Driver) where
  open D use {dynamic_tuning, unapply_dynamic, commands}

  -- `_added_device_apply_tuning`
  unfoldable pub added_device_apply_tuning : Instance → String → World D → World D
  unfolding execute_device_commands instance_apply_dynamic device_commands
  added_device_apply_tuning i device w =
      let w' = execute_device_commands D i (device_commands D) (device ∷ []) w in
      if i.has_dynamic_tuning && dynamic_tuning
      then instance_apply_dynamic D i (some device) w'
      else w'

  -- `_removed_device_unapply_tuning`
  unfoldable pub removed_device_unapply_tuning : Instance → String → World D → World D
  unfolding cleanup_device_commands device_commands
  removed_device_unapply_tuning i device w =
      cleanup_device_commands D i (reverse (device_commands D)) (device ∷ []) true (
        if i.has_dynamic_tuning && dynamic_tuning
        then record w { sys = unapply_dynamic i (some device) w.sys }
        else w)

  -- What the scripts and the commands of an instance do for a device that is added or removed.
  unfoldable pub tune_added : Instance → String → World D → World D
  unfolding added_device_apply_tuning call_device_script
  tune_added i device w =
      (call_device_script D i.script_post "apply" (device ∷ []) soft (
        added_device_apply_tuning i device
          (call_device_script D i.script_pre "apply" (device ∷ []) soft w).1)).1

  unfoldable pub untune_removed : Instance → String → World D → World D
  unfolding removed_device_unapply_tuning call_device_script
  untune_removed i device w =
      (call_device_script D i.script_pre "unapply" (device ∷ []) soft (
        removed_device_unapply_tuning i device
          (call_device_script D i.script_post "unapply" (device ∷ []) soft w).1)).1

  pub record State : Type 0 where
    pub plugin : Plugin
    pub world : World D

-- The bookkeeping of `_add_device_process`
unfoldable pub add_to_instance : Instance → String → Plugin → Instance × Plugin
unfolding add
add_to_instance i device p = (
  record i { processed_devices = add device i.processed_devices },
  record p { assigned_devices = add device p.assigned_devices },
)

-- The bookkeeping of `_remove_device_process` for a device that the instance has tuned; the
-- `KeyError` for one that is not assigned is left out.
unfoldable pub remove_from_instance : Instance → String → Plugin → Instance × Plugin
unfolding remove
remove_from_instance i device p =
    let i' = record i { processed_devices = remove device i.processed_devices } in
    (
      record i' { active = some_devices i' },
      record p { assigned_devices = remove device p.assigned_devices },
    )

-- The first instance that wants a device.
unfoldable pub find_wanting : Matching → String → Dict String Instance → Option (String × Instance)
find_wanting matching device [] = none
find_wanting matching device ((name, i) ∷ rest) =
    let later = find_wanting matching device rest in
    if eqb (length (matching i (device ∷ []))) 1 then some (name, i) else later

-- The first instance that has tuned a device.
unfoldable pub find_owner : String → Dict String Instance → Option (String × Instance)
find_owner device [] = none
find_owner device ((name, i) ∷ rest) =
    let later = find_owner device rest in
    if contains i.processed_devices device then some (name, i) else later

-- The events of `_hardware_events_callback`; a rename is left to the subclasses.
pub data Event : Type 0 where
  added removed moved : Event

module _ (D : Driver) where
  -- `_add_device_process`
  unfoldable pub add_device_process : String → Instance → String → State D → State D
  unfolding tune_added add_to_instance
  add_device_process name i device s = record {
    plugin = put_back name (add_to_instance i device s.plugin);
    world = tune_added D i device s.world;
  }

  -- `_remove_device_process`, which does nothing for a device that the instance has not tuned
  unfoldable pub remove_device_process : String → Instance → String → State D → State D
  unfolding untune_removed remove_from_instance
  remove_device_process name i device s =
      if contains i.processed_devices device
      then record {
        plugin = put_back name (remove_from_instance i device s.plugin);
        world = untune_removed D i device s.world;
      }
      else s

  -- `_add_device`: a new device goes to the first instance that wants it, or else it is free.
  unfoldable pub add_device : Matching → String → State D → State D
  unfolding add_device_process find_wanting add union
  add_device matching device s =
      if contains (union s.plugin.assigned_devices s.plugin.free_devices) device
      then s
      else elim (find_wanting matching device s.plugin.instances) [
        | none ↦ record s {
          plugin = record s.plugin { free_devices = add device s.plugin.free_devices };
        }
        | some (name, i) ↦ add_device_process name i device s
      ]

  -- `_remove_device`
  unfoldable pub remove_device : String → State D → State D
  unfolding remove_device_process find_owner remove union
  remove_device device s =
      if not (contains (union s.plugin.assigned_devices s.plugin.free_devices) device)
      then s
      else elim (find_owner device s.plugin.instances) [
        | none ↦ record s {
          plugin = record s.plugin { free_devices = remove device s.plugin.free_devices };
        }
        | some (name, i) ↦ remove_device_process name i device s
      ]

  -- One round of the `_nocheck` loops, on the instance that the plugin holds under the name.
  with_instance :
      (String → Instance → String → State D → State D) → String → String → State D → State D
  unfolding lookup
  with_instance step name device s = elim (lookup name s.plugin.instances) [
    | none ↦ s
    | some i ↦ step name i device s
  ]

  each_device :
      (String → Instance → String → State D → State D) → String → List String → State D → State D
  unfolding with_instance
  each_device step name [] s = s
  each_device step name (d ∷ ds) s = each_device step name ds (with_instance step name d s)

  -- `_add_devices_nocheck`
  unfoldable pub add_devices_nocheck : String → List String → State D → State D
  unfolding each_device add_device_process
  add_devices_nocheck name devices s =
      let s' = each_device add_device_process name devices s in
      elim (lookup name s'.plugin.instances) [
        | none ↦ s'
        | some i ↦ record s' {
          plugin = put_back name (record i { active = some_devices i }, s'.plugin);
        }
      ]

  -- `_remove_devices_nocheck`
  unfoldable pub remove_devices_nocheck : String → List String → State D → State D
  unfolding each_device remove_device_process
  remove_devices_nocheck = each_device remove_device_process

  -- `_hardware_events_callback`
  unfoldable pub hardware_event : Matching → Event → String → State D → State D
  unfolding add_device remove_device
  hardware_event matching added device s = add_device matching device s
  hardware_event matching removed device s = remove_device device s
  hardware_event matching moved device s = s
