-- ===== src/Monitors.antt =====
-- The base class of the monitors, tuned/monitors/base.py: the monitors of one class share the set
-- of the devices that are to be updated.
pub mod Shared
use tuned.Base.{
  ℕ, String, Bool, true, false, not, Option, none, some, List, [], ◌∷◌, contains, string_eq, nat_eq,
  if◌then◌else◌,
}
use tuned.Base.Dict.{Dict, lookup, insert}
use tuned.Base.Names.{add, remove, union, inter}

-- The attributes of the class. A number stands for a monitor; `instances` are the registered ones,
-- and `devices` are the `_devices` of all that were created, also of those that are not registered
-- any more.
pub record MonitorClass : Type 0 where
  pub available_devices : List String
  pub instances : List ℕ
  pub devices : Dict ℕ (List String)
  pub updating_devices : List String

-- The getter of `devices`
unfoldable pub devices_of : ℕ → Dict ℕ (List String) → List String
devices_of monitor d = elim (lookup monitor d) [ none ↦ [] | some devices ↦ devices ]

all_devices : List ℕ → Dict ℕ (List String) → List String
unfolding devices_of
all_devices [] d = []
all_devices (monitor ∷ instances) d = union (devices_of monitor d) (all_devices instances d)

-- `_refresh_updating_devices`
unfoldable pub refresh_updating_devices : MonitorClass → MonitorClass
unfolding all_devices
refresh_updating_devices m = record m { updating_devices = all_devices m.instances m.devices }

-- The setter of `devices`
unfoldable pub set_devices : ℕ → List String → MonitorClass → MonitorClass
unfolding refresh_updating_devices
set_devices monitor value m =
    refresh_updating_devices
      (record m { devices = insert monitor (inter m.available_devices value) m.devices })

-- `_register_instance`
unfoldable pub register_instance : ℕ → MonitorClass → MonitorClass
unfolding add
register_instance monitor m = record m { instances = add monitor m.instances }

-- `__init__` with devices, or with none given
unfoldable pub new_monitor : ℕ → Option (List String) → MonitorClass → MonitorClass
unfolding set_devices register_instance
new_monitor monitor none m = set_devices monitor m.available_devices (register_instance monitor m)
new_monitor monitor (some devices) m = set_devices monitor devices (register_instance monitor m)

-- `cleanup`; `none` is the `KeyError` of a monitor that is not registered.
unfoldable pub cleanup : ℕ → MonitorClass → Option MonitorClass
unfolding refresh_updating_devices
cleanup monitor m =
    if contains m.instances monitor
    then some (refresh_updating_devices (record m { instances = remove monitor m.instances }))
    else none

-- `_update_available_devices`, with what is found
unfoldable pub update_available_devices : List String → MonitorClass → MonitorClass
update_available_devices found m = record m { available_devices = found }

-- `add_device`, with the devices that are available then, of a registered monitor or another one
unfoldable pub add_device : ℕ → String → List String → MonitorClass → MonitorClass
unfolding update_available_devices
add_device monitor device found m =
    let m' = update_available_devices found m in
    if contains found device
    then record m' {
      devices = insert monitor (add device (devices_of monitor m.devices)) m.devices;
      updating_devices = add device m.updating_devices;
    }
    else m'

-- `remove_device`; `none` is the `KeyError` of `_updating_devices.remove`.
unfoldable pub remove_device : ℕ → String → MonitorClass → Option MonitorClass
unfolding devices_of
remove_device monitor device m =
    if contains (devices_of monitor m.devices) device
    then (if contains m.updating_devices device
        then some (record m {
          devices = insert monitor (remove device (devices_of monitor m.devices)) m.devices;
          updating_devices = remove device m.updating_devices;
        })
        else none)
    else some m

-- `get_load`
unfoldable pub get_load {ℓ} : {A : Type ℓ} → List String → Dict String A → Dict String A
get_load devices [] = []
get_load devices ((d, l) ∷ load) =
    let rest = get_load devices load in if contains devices d then (d, l) ∷ rest else rest
