-- ===== src/Tests/Devices.antt =====
-- A plugin with one instance, two disks and a third one that is plugged in.
use tuned.Base.{
  String, ◌≡◌, refl, true, false, ◌&&◌, ◌||◌, none, [], ◌∷◌, arith, ◌==◌, string_eq, contains,
}
use tuned.Base.Dict.{lookup}
use tuned.Base.Text.{pos}
use tuned.Plugins.Instance.{Instance, new_instance}
use tuned.Plugins.Devices.{Plugin, Matching, put_back, assign_free_devices}
use tuned.Plugins.Devices.Partition.{IsSound, tally, assign_free_devices-IsSound}
use tuned.Plugins.Devices.Registry.{instance_apply_tuning-IsSound}
use tuned.Plugins.Tuning.{instance_apply_tuning}
use tuned.Plugins.Hotplug.{State, added, removed, moved}
use tuned.Plugins.Hotplug.Books.{after_events, hardware_event-IsSound}
use tuned.Tests.Commands.{disk_driver, fresh_world}
use tuned.Plugins.Devices.{create_instance}
use tuned.Base.{some}
use tuned.Base.{if◌then◌else◌}
use tuned.Plugins.Devices.Registry.{create_instance-IsSound}

abbrev every_device : Matching
every_device i ds = ds

abbrev pub idle : Instance
idle = new_instance "disk" (pos 0) "*" none none none []

-- It has tuned one disk, and the other one is assigned to it.
abbrev pub busy : Instance
busy = record idle { assigned_devices = "sdb" ∷ []; processed_devices = "sda" ∷ [] }

abbrev idle_plugin : Plugin
idle_plugin = record {
  name = "disk";
  instances = ("disk", idle) ∷ [];
  devices_inited = true;
  devices_supported = true;
  assigned_devices = [];
  free_devices = "sda" ∷ "sdb" ∷ [];
}

abbrev pub busy_plugin : Plugin
busy_plugin = record idle_plugin {
  instances = ("disk", busy) ∷ [];
  assigned_devices = "sda" ∷ "sdb" ∷ [];
  free_devices = "sdc" ∷ [];
}

abbrev before : State disk_driver
before = record { plugin = busy_plugin; world = fresh_world }

pub not_both : (a b d : String) → (a == b) ≡ false → ((d == a) && (d == b)) ≡ false
not_both a b d h = elim (string_eq.dec d a) [
  | yes p ↦ rw p (ground (arith, h))
  | no n ↦ ground arith
]

idle_plugin-IsSound : IsSound idle_plugin
unfolding tally lookup
idle_plugin-IsSound = record { names = (refl, tt); held = λ d. refl; apart = λ d. ground arith }

busy_plugin-IsSound : IsSound busy_plugin
unfolding tally lookup string_eq
busy_plugin-IsSound = record {
  names = (refl, tt);
  held = λ d. ground (arith, not_both "sda" "sdb" d refl);
  apart = λ d. ground (arith, not_both "sda" "sdc" d refl, not_both "sdb" "sdc" d refl);
}

assign_free_devices-IsSound_example :
    IsSound (put_back "disk" (assign_free_devices every_device idle idle_plugin))
unfolding lookup string_eq
assign_free_devices-IsSound_example =
    assign_free_devices-IsSound every_device (λ i ds d h. h) "disk" idle idle_plugin refl
      idle_plugin-IsSound

abbrev net : Instance
net = new_instance "net" (pos 1) "eth*" none none none []

create_instance-IsSound_example :
    (p' : Plugin) × (create_instance net busy_plugin ≡ some p')
    × IsSound p'
    × ((name : String)
        → lookup name p'.instances
          ≡ (if name == "net" then some net else lookup name busy_plugin.instances))
unfolding lookup string_eq
create_instance-IsSound_example =
    create_instance-IsSound busy_plugin busy_plugin-IsSound net refl refl refl

instance_apply_tuning-IsSound_example :
    let i' = (instance_apply_tuning disk_driver true busy fresh_world).0 in
    IsSound (put_back "disk" (i', busy_plugin))
    × (true ≡ true
        → (i'.assigned_devices ≡ [])
          × ((d : String)
              → contains i'.processed_devices d
                ≡ (contains busy.processed_devices d || contains busy.assigned_devices d)))
unfolding lookup string_eq
instance_apply_tuning-IsSound_example =
    instance_apply_tuning-IsSound busy_plugin busy_plugin-IsSound disk_driver "disk" busy
      fresh_world refl

hardware_event-IsSound_example :
    IsSound
      (after_events disk_driver every_device
        ((removed, "sda") ∷ (added, "sdd") ∷ (moved, "sdd") ∷ (added, "sda") ∷ [])
        before).plugin
hardware_event-IsSound_example =
    hardware_event-IsSound disk_driver every_device
      ((removed, "sda") ∷ (added, "sdd") ∷ (moved, "sdd") ∷ (added, "sda") ∷ []) before
      busy_plugin-IsSound
