-- ===== src/Plugins/Hotplug/Books.antt =====
-- The books of a plugin when devices appear and disappear, in tuned/plugins/hotplug.py.
use tuned.Base.{String, ◌≡◌, Bool, true, false, some, List, [], ◌∷◌}
use tuned.Base.{arith, contains, string_eq, Bool-cases, Option-cases, inl, inr}
use tuned.Base.Dict.{Dict, NodupKeys, lookup}
use tuned.Base.{eqb, length}
use tuned.Plugins.Hotplug.{add_device_process, remove_device_process, added, removed, moved}
use tuned.Base.Names.{add, remove, union, contains-union, contains-add, contains-remove}
use tuned.Plugins.Instance.{Instance}
use tuned.Plugins.Driver.{Driver}
use tuned.Plugins.Devices.{Plugin, Matching, put_back}
use tuned.Plugins.Devices.Partition.{holds-le, IsSound, put_back-IsSound}
use tuned.Plugins.Hotplug.{State, add_to_instance, remove_from_instance, find_wanting, find_owner}
use tuned.Plugins.Hotplug.{add_device, remove_device, Event, hardware_event}

-- An instance that a search finds behind the head is not the head's.
behind :
    (k n : String) (j i : Instance) (d : Dict String Instance)
    → NodupKeys ((k, j) ∷ d)
    → lookup n d ≡ some i
    → lookup n ((k, j) ∷ d) ≡ some i
unfolding lookup
behind k n j i d (fresh, u) h = ground arith

pub lookup-find_wanting :
    (matching : Matching) (device n : String) (i : Instance) (d : Dict String Instance)
    → NodupKeys d
    → find_wanting matching device d ≡ some (n, i)
    → lookup n d ≡ some i
unfolding find_wanting lookup
lookup-find_wanting matching device n i [] u h = cc
lookup-find_wanting matching device n i ((k, j) ∷ d) (fresh, u) h =
    elim (Bool-cases (eqb (length (matching j (device ∷ []))) 1)) [
      | inl e ↦ ground (arith, e)
      | inr e ↦
          let rest = lookup-find_wanting matching device n i d u (ground (arith, e)) in
          behind k n j i d (fresh, u) rest
    ]

lookup-find_owner :
    (device n : String) (i : Instance) (d : Dict String Instance)
    → NodupKeys d
    → find_owner device d ≡ some (n, i)
    → (lookup n d ≡ some i) × (contains i.processed_devices device ≡ true)
unfolding find_owner lookup
lookup-find_owner device n i [] u h = cc
lookup-find_owner device n i ((k, j) ∷ d) (fresh, u) h =
    elim (Bool-cases (contains j.processed_devices device)) [
      | inl e ↦ (ground (arith, e), ground (arith, e))
      | inr e ↦
          let (rest, held) = lookup-find_owner device n i d u (ground (arith, e)) in
          (behind k n j i d (fresh, u) rest, held)
    ]

module _ (name device : String) (i : Instance) (p : Plugin)
    (here : lookup name p.instances ≡ some i) (s : IsSound p) where
  -- A new device that an instance tunes.
  pub add_to_instance-IsSound :
      contains (union p.assigned_devices p.free_devices) device ≡ false
      → IsSound (put_back name (add_to_instance i device p))
  unfolding add_to_instance
  add_to_instance-IsSound new = put_back-IsSound name i p here s _ _ _ (λ d.
      rw (contains-add device i.processed_devices d, contains-add device p.assigned_devices d)
        (ground (
          arith,
          contains-union p.assigned_devices p.free_devices device,
          holds-le name i p here s d,
          s.apart d,
        )))

  -- A device that an instance has tuned is gone.
  pub remove_from_instance-IsSound :
      contains i.processed_devices device ≡ true
      → IsSound (put_back name (remove_from_instance i device p))
  unfolding remove_from_instance
  remove_from_instance-IsSound held = put_back-IsSound name i p here s _ _ _ (λ d.
      rw (contains-remove device i.processed_devices d, contains-remove device p.assigned_devices d)
        (ground (arith, holds-le name i p here s d, s.apart d)))

-- A device that no instance wants is free, and one that is gone is free no more.
add_free-IsSound :
    (device : String) (p : Plugin)
    → contains (union p.assigned_devices p.free_devices) device ≡ false
    → IsSound p
    → IsSound (record p { free_devices = add device p.free_devices })
add_free-IsSound device p new s = record {
  names = s.names;
  held = s.held;
  apart = λ d.
      rw (contains-add device p.free_devices d)
        (ground (arith, contains-union p.assigned_devices p.free_devices device, s.apart d));
}

remove_free-IsSound :
    (device : String) (p : Plugin)
    → IsSound p
    → IsSound (record p { free_devices = remove device p.free_devices })
remove_free-IsSound device p s = record {
  names = s.names;
  held = s.held;
  apart = λ d. rw (contains-remove device p.free_devices d) (ground (arith, s.apart d));
}

abbrev pub known : String → Plugin → Bool
known device p = contains (union p.assigned_devices p.free_devices) device

module _ (D : Driver) (matching : Matching) where
  -- When a device appears, whatever the matcher, sound books stay sound and the device is known
  -- afterwards: assigned or free.
  pub add_device-IsSound :
      (device : String) (s : State D)
      → IsSound s.plugin
      → IsSound (add_device D matching device s).plugin
        × (known device (add_device D matching device s).plugin ≡ true)
  unfolding add_device add_device_process add_to_instance
  add_device-IsSound device s sound = elim (Bool-cases (known device s.plugin)) [
    | inl old ↦ rw old (sound, old)
    | inr new ↦ elim (Option-cases (find_wanting matching device s.plugin.instances)) [
      | inl nobody ↦
          rw (new, nobody)
            (
              add_free-IsSound device s.plugin new sound,
              rw
                  (
                    contains-union s.plugin.assigned_devices (add device s.plugin.free_devices)
                        device,
                    contains-add device s.plugin.free_devices device,
                  )
                  (ground arith),
            )
      | inr ((name, i), found) ↦
          rw (new, found)
            (
              add_to_instance-IsSound name device i s.plugin
                  (lookup-find_wanting matching device name i s.plugin.instances sound.names found)
                  sound new,
              rw
                  (
                    contains-union (add device s.plugin.assigned_devices) s.plugin.free_devices
                        device,
                    contains-add device s.plugin.assigned_devices device,
                  )
                  (ground arith),
            )
    ]
  ]

  -- When a device disappears, sound books stay sound and the device is not free afterwards.
  pub remove_device-IsSound :
      (device : String) (s : State D)
      → IsSound s.plugin
      → IsSound (remove_device D device s).plugin
        × (contains (remove_device D device s).plugin.free_devices device ≡ false)
  unfolding remove_device remove_device_process
  remove_device-IsSound device s sound = elim (Bool-cases (known device s.plugin)) [
    | inr old ↦ rw old (
      sound,
      ground (arith, contains-union s.plugin.assigned_devices s.plugin.free_devices device),
    )
    | inl here ↦ elim (Option-cases (find_owner device s.plugin.instances)) [
      | inl nobody ↦
          rw (here, nobody)
            (
              remove_free-IsSound device s.plugin sound,
              rw (contains-remove device s.plugin.free_devices device) (ground arith),
            )
      | inr ((name, i), found) ↦
          let (at_name, held) =
            lookup-find_owner device name i s.plugin.instances sound.names found in
          rw (here, found, held)
            (
              remove_from_instance-IsSound name device i s.plugin at_name sound held,
              ground (arith, holds-le name i s.plugin at_name sound device, sound.apart device),
            )
    ]
  ]

  abbrev pub after_events : List (Event × String) → State D → State D
  after_events [] s = s
  after_events ((e, device) ∷ es) s = after_events es (hardware_event D matching e device s)

  -- From a state with sound books, any sequence of hardware events leads to one with sound books:
  -- a device is held by one instance at most, it is assigned exactly if it is held, and then it is
  -- not free.
  pub hardware_event-IsSound :
      (es : List (Event × String)) (s : State D)
      → IsSound s.plugin
      → IsSound (after_events es s).plugin
  unfolding hardware_event
  hardware_event-IsSound [] s sound = sound
  hardware_event-IsSound ((added, device) ∷ es) s sound =
      hardware_event-IsSound es (add_device D matching device s)
        (add_device-IsSound device s sound).0
  hardware_event-IsSound ((removed, device) ∷ es) s sound =
      hardware_event-IsSound es (remove_device D device s) (remove_device-IsSound device s sound).0
  hardware_event-IsSound ((moved, device) ∷ es) s sound = hardware_event-IsSound es s sound
