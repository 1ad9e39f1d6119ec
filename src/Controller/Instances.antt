-- ===== src/Controller/Instances.antt =====
-- tuned/daemon/controller.py: the calls that move devices between instances, destroy and list them.
-- Authorization and the validity of names are checked before; messages are left out.
pub mod Acquire
pub mod Destroy
use tuned.Base.{
  String, Bool, true, false, not, ◌&&◌, ◌||◌, Option, none, some, List, [], ◌∷◌, ◌++◌, ◌==◌,
  string_eq, if◌then◌else◌, contains, length, ltb, reverse,
}
use tuned.Base.Dict.{Dict, lookup, has, erase}
use tuned.Base.Names.{inter, diff}
use tuned.Plugins.Instance.{Instance}
use tuned.Plugins.Driver.{Driver}
use tuned.Plugins.Devices.{Plugin, Matching, destroy_instance}
use tuned.Plugins.Tuning.{instance_unapply_tuning}
use tuned.Plugins.Hotplug.{State, add_devices_nocheck, remove_devices_nocheck, add_device}
use tuned.Plugins.Tuning.{soft}

-- The unit manager's instances, of all plugins: one of the target's plugin, by its name, or one of
-- another plugin with what it has tuned.
pub data Member : Type 0 where
  own : String → Member
  foreign : String → List String → Member

abbrev pub is_nonempty : List String → Bool
is_nonempty l = ltb 0 (length l)

module _ (D : Driver) where
  -- One round of the loop of `instance_acquire_devices`: the devices that are still to be found, and
  -- the state; `none` is the early return.
  unfoldable pub acquire_step :
      String → Member → List String → State D → Option (List String × State D)
  unfolding lookup inter diff add_devices_nocheck remove_devices_nocheck
  acquire_step target (foreign plugin processed) devs s =
      if is_nonempty (inter devs processed) then none else some (devs, s)
  acquire_step target (own name) devs s = elim (lookup name s.plugin.instances) [
    | none ↦ some (devs, s)
    | some i ↦
        let moving = inter devs i.processed_devices in
        if is_nonempty moving
        then some (
          diff devs moving,
          add_devices_nocheck D target moving (remove_devices_nocheck D name moving s),
        )
        else some (devs, s)
  ]

  -- The loop and the answer.
  unfoldable pub acquire_all : String → List Member → List String → State D → Bool × State D
  unfolding acquire_step
  acquire_all target [] devs s = (not (is_nonempty devs), s)
  acquire_all target (m ∷ ms) devs s = elim (acquire_step target m devs s) [
    | none ↦ (false, s)
    | some out ↦ let (devs', s') = out in acquire_all target ms devs' s'
  ]

  -- `instance_acquire_devices`, for an authorized caller and valid names
  unfoldable pub instance_acquire_devices :
      String → List Member → List String → State D → Bool × State D
  unfolding acquire_all
  instance_acquire_devices target members devs s =
      if has s.plugin.instances target then acquire_all target members devs s else (false, s)

-- `list.remove` of an instance of this plugin
unfoldable pub remove_member : String → List Member → List Member
remove_member name [] = []
remove_member name (foreign plugin processed ∷ ms) =
    foreign plugin processed ∷ remove_member name ms
remove_member name (own k ∷ ms) =
    let rest = remove_member name ms in if k == name then ms else own k ∷ rest

module _ (D : Driver) (matching : Matching) where
  -- The devices that an instance leaves behind are added again, one by one.
  unfoldable pub add_each : List String → State D → State D
  unfolding add_device
  add_each [] s = s
  add_each (d ∷ ds) s = add_each ds (add_device D matching d s)

  -- The tuning of an instance that the plugin holds is removed.
  unfoldable pub unapply_held : String → State D → State D
  unfolding instance_unapply_tuning lookup
  unapply_held name s = elim (lookup name s.plugin.instances) [
    | none ↦ s
    | some i ↦ record s {
      world = instance_unapply_tuning D s.plugin.devices_supported i soft s.world;
    }
  ]

  -- `instance_destroy`, for an authorized caller and a valid name of an instance of this plugin,
  -- with the unit manager's instances
  unfoldable pub instance_destroy : String → List Member → State D → Bool × List Member × State D
  unfolding add_each unapply_held remove_devices_nocheck remove_member lookup
  instance_destroy name members s = elim (lookup name s.plugin.instances) [
    | none ↦ (false, members, s)
    | some i ↦
        let members' = remove_member name members in
        let s1 = unapply_held name (remove_devices_nocheck D name i.processed_devices s) in
        elim (destroy_instance name s1.plugin) [
          | none ↦ (false, members', s1)
          | some p ↦ (true, members', add_each i.processed_devices (record s1 { plugin = p }))
        ]
  ]

-- `get_instances`, for the unit manager's instances with their plugins' names; an empty name asks for
-- all of them.
unfoldable pub get_instances : String → List (Instance × String) → List (String × String)
get_instances plugin_name [] = []
get_instances plugin_name ((i, plugin) ∷ l) =
    let rest = get_instances plugin_name l in
    if i.active && (plugin_name == "" || plugin == plugin_name)
    then (i.name, plugin) ∷ rest
    else rest

-- `instance_get_devices`, before the devices are sorted; `none` if there is no such instance
unfoldable pub instance_get_devices : String → List (Instance × String) → Option (List String)
instance_get_devices name [] = none
instance_get_devices name ((i, plugin) ∷ l) =
    let later = instance_get_devices name l in
    if i.name == name then some i.processed_devices else later
