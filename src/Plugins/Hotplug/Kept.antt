-- ===== src/Plugins/Hotplug/Kept.antt =====
-- What the operations of tuned/plugins/hotplug.py on single devices leave alone: the names of the
-- instances and the devices that are known.
use tuned.Base.{
  String, ◌≡◌, refl, true, some, List, [], ◌∷◌, arith, contains, string_eq, Bool-cases,
  Option-cases, inl, inr,
}
use tuned.Base.Dict.{Dict, lookup, has, insert, lookup-insert}
use tuned.Base.Names.{add, union, contains-union, contains-add}
use tuned.Plugins.Instance.{Instance}
use tuned.Plugins.Driver.{Driver}
use tuned.Plugins.Devices.{Matching}
use tuned.Plugins.Devices.Partition.{IsSound}
use tuned.Plugins.Hotplug.{
  State, add_device, add_device_process, add_to_instance, find_wanting, remove_device_process,
  remove_from_instance, with_instance, each_device, remove_devices_nocheck,
}
use tuned.Plugins.Hotplug.Books.{known, lookup-find_wanting, remove_from_instance-IsSound}
use tuned.Base.{◌∙◌}

-- A name that is in use or not stays so when an instance is put back under a name in use.
has-put_back :
    (k name : String) (i j : Instance) (d : Dict String Instance)
    → lookup name d ≡ some i
    → has (insert name j d) k ≡ has d k
has-put_back k name i j d h = ground (arith, lookup-insert k name j d, h)

contains_added :
    (device d : String) (l : List String) → contains l d ≡ true → contains (add device l) d ≡ true
contains_added device d l h = rw (contains-add device l d) (ground (arith, h))

known_more :
    (d : String) (a a' f f' : List String)
    → (contains a d ≡ true → contains a' d ≡ true)
    → (contains f d ≡ true → contains f' d ≡ true)
    → contains (union a f) d ≡ true
    → contains (union a' f') d ≡ true
known_more d a a' f f' more_a more_f h =
    rw (contains-union a' f' d) (ground (arith, contains-union a f d, h, more_a, more_f))

module _ (D : Driver) where
  pub record Keeps (s s' : State D) : Type 0 where
    pub sound : IsSound s'.plugin
    pub supported : s'.plugin.devices_supported ≡ s.plugin.devices_supported
    pub names : (k : String) → has s'.plugin.instances k ≡ has s.plugin.instances k

  remove_one-Keeps :
      (name device : String) (s : State D)
      → IsSound s.plugin
      → Keeps s (with_instance D (remove_device_process D) name device s)
  unfolding with_instance remove_device_process remove_from_instance
  remove_one-Keeps name device s sound = elim (Option-cases (lookup name s.plugin.instances)) [
    | inl e ↦ rw (with_instance, e) (record { sound = sound; supported = refl; names = λ k. refl })
    | inr (i, e) ↦ elim (Bool-cases (contains i.processed_devices device)) [
      | inl held ↦
          rw (with_instance, e, remove_device_process, held)
            (record {
              sound = remove_from_instance-IsSound name device i s.plugin e sound held;
              supported = refl;
              names = λ k.
                  has-put_back k name i (remove_from_instance i device s.plugin).0
                    s.plugin.instances e;
            })
      | inr free ↦
          rw (with_instance, e, remove_device_process, free)
            (record { sound = sound; supported = refl; names = λ k. refl })
    ]
  ]

  pub remove_devices_nocheck-Keeps :
      (name : String) (ds : List String) (s : State D)
      → IsSound s.plugin
      → Keeps s (remove_devices_nocheck D name ds s)
  unfolding remove_devices_nocheck each_device
  remove_devices_nocheck-Keeps name [] s sound = record {
    sound = sound;
    supported = refl;
    names = λ k. refl;
  }
  remove_devices_nocheck-Keeps name (d ∷ ds) s sound =
      let first = remove_one-Keeps name d s sound in
      let rest = remove_devices_nocheck-Keeps name ds _ first.sound in
      record {
        sound = rest.sound;
        supported = rest.supported ∙ first.supported;
        names = λ k. rest.names k ∙ first.names k;
      }

  -- A device that is added changes no name, and every known device stays known.
  pub add_device_keeps :
      (matching : Matching) (device : String) (s : State D)
      → IsSound s.plugin
      → ((k : String)
          → has (add_device D matching device s).plugin.instances k ≡ has s.plugin.instances k)
        × ((d : String)
            → known d s.plugin ≡ true
            → known d (add_device D matching device s).plugin ≡ true)
  unfolding add_device add_device_process add_to_instance
  add_device_keeps matching device s sound = elim (Bool-cases (known device s.plugin)) [
    | inl old ↦ rw old (λ k. refl, λ d h. h)
    | inr new ↦ elim (Option-cases (find_wanting matching device s.plugin.instances)) [
      | inl nobody ↦
          rw (new, nobody)
            (
              λ k. refl,
              λ d h.
                  known_more d s.plugin.assigned_devices s.plugin.assigned_devices
                    s.plugin.free_devices (add device s.plugin.free_devices) (λ e. e)
                    (contains_added device d s.plugin.free_devices) h,
            )
      | inr ((name, i), found) ↦
          rw (new, found)
            (
              λ k.
                  has-put_back k name i (add_to_instance i device s.plugin).0 s.plugin.instances (
                    lookup-find_wanting matching device name i s.plugin.instances sound.names
                      found),
              λ d h.
                  known_more d s.plugin.assigned_devices (add device s.plugin.assigned_devices)
                    s.plugin.free_devices s.plugin.free_devices
                    (contains_added device d s.plugin.assigned_devices) (λ e. e) h,
            )
    ]
  ]
