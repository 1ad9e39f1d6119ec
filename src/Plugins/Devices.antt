-- ===== src/Plugins/Devices.antt =====
-- How the devices of a plugin pass between its instances and its free devices: the bookkeeping of
-- tuned/plugins/base.py. What a subclass does with a device is not the part of this module.
pub mod Partition
pub mod Registry
use tuned.Base.{String, ◌≡◌, Bool, true, false, not, Option, none, some, List, [], ◌∷◌, map}
use tuned.Base.{◌==◌, contains, string_eq, if◌then◌else◌, length, ltb}
use tuned.Base.Dict.{Dict, lookup, insert, erase, has}
use tuned.Base.Names.{union, diff, inter}
use tuned.Base.Text.{ltz}
use tuned.Plugins.Instance.{Instance}

-- The fields of `Plugin` that concern instances and devices.
pub record Plugin : Type 0 where
  pub name : String
  pub instances : Dict String Instance
  pub devices_inited : Bool
  pub devices_supported : Bool
  pub assigned_devices : List String
  pub free_devices : List String

-- One step of a stable sort by priority.
unfoldable pub sort_insert : String → Instance → Dict String Instance → Dict String Instance
sort_insert name i [] = (name, i) ∷ []
sort_insert name i ((k, j) ∷ d) =
    if ltz j.priority i.priority then (k, j) ∷ sort_insert name i d else (name, i) ∷ (k, j) ∷ d

-- `OrderedDict(sorted(d.items(), key=lambda x: x[1].priority))`
unfoldable pub sort_by_priority : Dict String Instance → Dict String Instance
unfolding sort_insert
sort_by_priority [] = []
sort_by_priority ((k, i) ∷ d) = sort_insert k i (sort_by_priority d)

-- `create_instance` for an instance that the factory has made; `none` is the exception.
unfoldable pub create_instance : Instance → Plugin → Option Plugin
unfolding sort_by_priority insert
create_instance instance p =
    if has p.instances instance.name
    then none
    else some
        (record p { instances = sort_by_priority (insert instance.name instance p.instances) })

-- The devices that an instance wants among those given: the matcher's part, and a subclass's.
abbrev pub Matching : Type 0
Matching = Instance → List String → List String

module _ (matching : Matching) where
  -- `assign_free_devices`
  unfoldable pub assign_free_devices : Instance → Plugin → Instance × Plugin
  unfolding union diff
  assign_free_devices instance p =
      let to_assign = matching instance p.free_devices in
      if not p.devices_supported
      then (instance, p)
      else if ltb 0 (length to_assign)
      then (
        record instance {
          active = true;
          assigned_devices = union instance.assigned_devices to_assign;
        },
        record p {
          assigned_devices = union p.assigned_devices to_assign;
          free_devices = diff p.free_devices to_assign;
        },
      )
      else (record instance { active = false }, p)

-- The instance object that the plugin holds under a name is changed in place.
abbrev pub put_back : String → Instance × Plugin → Plugin
put_back name (i, p) = record p { instances = insert name i p.instances }

-- `release_devices`
unfoldable pub release_devices : Instance → Plugin → Instance × Plugin
unfolding union diff inter
release_devices instance p =
    let to_release =
      inter (union instance.processed_devices instance.assigned_devices) p.assigned_devices in
    if not p.devices_supported then (instance, p) else (
      record instance { active = false; processed_devices = []; assigned_devices = [] },
      record p {
        assigned_devices = diff p.assigned_devices to_release;
        free_devices = union p.free_devices to_release;
      },
    )

-- `destroy_instance`; `none` is the exception for an instance that is not there. The subclass's
-- `_instance_cleanup`, called before the deletion, does not touch the bookkeeping.
unfoldable pub destroy_instance : String → Plugin → Option Plugin
unfolding release_devices lookup erase insert
destroy_instance name p = elim (lookup name p.instances) [
  | none ↦ none
  | some i ↦ some (record (release_devices i p).1 { instances = erase name p.instances })
]

release_all : Dict String Instance → Plugin → Plugin
unfolding release_devices
release_all [] p = p
release_all ((name, i) ∷ rest) p = release_all rest (release_devices i p).1

-- `destroy_instances`
unfoldable pub destroy_instances : Plugin → Plugin
unfolding release_all
destroy_instances p = record (release_all p.instances p) { instances = [] }
