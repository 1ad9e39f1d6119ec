-- ===== src/Plugins/Hotplug/Moves.antt =====
-- The books of a plugin when devices are moved from one instance to another, in
-- tuned/plugins/hotplug.py.
use tuned.Base.{String, ◌≡◌, refl, true, false, ◌||◌, some, List, [], ◌∷◌}
use tuned.Base.{arith, contains, string_eq, ◌==◌, Bool-cases, Option-cases, inl, inr}
use tuned.Base.Dict.{Dict, lookup, lookup-insert, insert, has}
use tuned.Base.Names.{contains-union, contains-add, contains-remove, IsNodup}
use tuned.Plugins.Instance.{Instance}
use tuned.Plugins.Driver.{Driver}
use tuned.Plugins.Devices.{Plugin}
use tuned.Plugins.Devices.Partition.{holds-le, IsSound, put_back-IsSound}
use tuned.Plugins.Hotplug.{
  State, add_to_instance, remove_from_instance, add_device_process, remove_device_process,
  with_instance, each_device, add_devices_nocheck, remove_devices_nocheck, some_devices,
}
use tuned.Plugins.Hotplug.Books.{add_to_instance-IsSound, remove_from_instance-IsSound}
use tuned.Base.{◌∙◌}
use tuned.Base.{subst}

-- A device that the plugin does not know.
abbrev pub IsAbsent : Plugin → String → Type 0
IsAbsent p d = (contains p.assigned_devices d ≡ false) × (contains p.free_devices d ≡ false)

-- An instance that has tuned all the devices of a list.
abbrev pub HasAll : Instance → List String → Type 0
HasAll i ds = (d : String) → contains ds d ≡ true → contains i.processed_devices d ≡ true

has-insert :
    (name : String) (i : Instance) (d : Dict String Instance) → has (insert name i d) name ≡ true
has-insert name i d = ground (arith, lookup-insert name name i d)

module _ (D : Driver) where
  -- After some operation s has sound books, the instances of before, and knows no more devices.
  pub record Shrinks (s s' : State D) : Type 0 where
    pub sound : IsSound s'.plugin
    pub names : (k : String) → has s.plugin.instances k ≡ true → has s'.plugin.instances k ≡ true
    pub absent : (d : String) → IsAbsent s.plugin d → IsAbsent s'.plugin d

  removed :
      (name device : String) (i : Instance) (s : State D)
      → lookup name s.plugin.instances ≡ some i
      → contains i.processed_devices device ≡ true
      → IsSound s.plugin
      → let s' = with_instance D (remove_device_process D) name device s in
        Shrinks s s'
        × IsAbsent s'.plugin device
        × (lookup name s'.plugin.instances ≡ some (remove_from_instance i device s.plugin).0)
  unfolding with_instance remove_device_process remove_from_instance
  removed name device i s here held sound =
      rw (with_instance, here, remove_device_process, held)
        (
          record {
            sound = remove_from_instance-IsSound name device i s.plugin here sound held;
            names = λ k h. ground (
              arith,
              lookup-insert k name (remove_from_instance i device s.plugin).0 s.plugin.instances,
              h,
            );
            absent = λ d h. (rw contains-remove (ground (arith, h.0)), h.1);
          },
          (
            rw contains-remove (ground arith),
            ground (arith, holds-le name i s.plugin here sound device, sound.apart device, held),
          ),
          rw lookup-insert (ground arith),
        )

  removed_all :
      (name : String) (ds : List String) (i : Instance) (s : State D)
      → lookup name s.plugin.instances ≡ some i
      → IsNodup ds
      → HasAll i ds
      → IsSound s.plugin
      → let s' = each_device D (remove_device_process D) name ds s in
        Shrinks s s' × ((d : String) → contains ds d ≡ true → IsAbsent s'.plugin d)
  unfolding each_device remove_from_instance
  removed_all name [] i s here u all sound = (
    record { sound = sound; names = λ k h. h; absent = λ d h. h },
    λ d h. absurd (ground (arith, h)),
  )
  removed_all name (device ∷ ds) i s here (fresh, u) all sound =
      let (first, gone, here') = removed name device i s here (all device (ground arith)) sound in
      let (rest, absent) =
        removed_all name ds (remove_from_instance i device s.plugin).0
          (with_instance D (remove_device_process D) name device s) here' u
          (λ d h. rw contains-remove (ground (arith, all d, h, fresh))) first.sound in
      (
        record {
          sound = rest.sound;
          names = λ k h. rest.names k (first.names k h);
          absent = λ d h. rest.absent d (first.absent d h);
        },
        λ d h. elim (Bool-cases (d == device)) [
          | inl e ↦ rest.absent d (
              subst (IsAbsent (with_instance D (remove_device_process D) name device s).plugin)
                (ground (arith, e)) gone)
          | inr n ↦ absent d (ground (arith, h, n))
        ],
      )

  -- After some operation the instance of a name has tuned more devices, the given ones.
  pub record Grows (name : String) (ds : List String) (i : Instance) (s' : State D) : Type 0 where
    pub sound : IsSound s'.plugin
    pub owner : Instance
    pub here : lookup name s'.plugin.instances ≡ some owner
    pub processed :
        (d : String)
        → contains owner.processed_devices d ≡ (contains ds d || contains i.processed_devices d)

  added :
      (name device : String) (i : Instance) (s : State D)
      → lookup name s.plugin.instances ≡ some i
      → IsAbsent s.plugin device
      → IsSound s.plugin
      → let s' = with_instance D (add_device_process D) name device s in
        IsSound s'.plugin
        × (lookup name s'.plugin.instances ≡ some (add_to_instance i device s.plugin).0)
        × ((d : String) → (d == device) ≡ false → IsAbsent s.plugin d → IsAbsent s'.plugin d)
  unfolding with_instance add_device_process add_to_instance
  added name device i s here absent sound =
      rw (with_instance, here)
        (
          add_to_instance-IsSound name device i s.plugin here sound
              (rw contains-union (ground (arith, absent))),
          rw lookup-insert (ground arith),
          λ d n h. (rw contains-add (ground (arith, n, h.0)), h.1),
        )

  added_all :
      (name : String) (ds : List String) (i : Instance) (s : State D)
      → lookup name s.plugin.instances ≡ some i
      → IsNodup ds
      → ((d : String) → contains ds d ≡ true → IsAbsent s.plugin d)
      → IsSound s.plugin
      → Grows name ds i (each_device D (add_device_process D) name ds s)
  unfolding each_device add_to_instance
  added_all name [] i s here u absent sound = record {
    sound = sound;
    owner = i;
    here = here;
    processed = λ d. refl;
  }
  added_all name (device ∷ ds) i s here (fresh, u) absent sound =
      let (sound', here', others) =
        added name device i s here (absent device (ground arith)) sound in
      let rest =
        added_all name ds (add_to_instance i device s.plugin).0
          (with_instance D (add_device_process D) name device s) here' u
          (λ d h. others d (ground (arith, h, fresh)) (absent d (ground (arith, h)))) sound' in
      record {
        sound = rest.sound;
        owner = rest.owner;
        here = rest.here;
        processed = λ d. rest.processed d ∙ rw contains-add (ground arith);
      }

  -- Devices that pass from one instance of a plugin to another, or to the same one.
  pub move_devices-IsSound :
      (from to : String) (ds : List String) (i j : Instance) (s : State D)
      → lookup from s.plugin.instances ≡ some i
      → lookup to s.plugin.instances ≡ some j
      → IsNodup ds
      → HasAll i ds
      → IsSound s.plugin
      → let s' = add_devices_nocheck D to ds (remove_devices_nocheck D from ds s) in
        IsSound s'.plugin × (has s'.plugin.instances to ≡ true)
  unfolding add_devices_nocheck remove_devices_nocheck
  move_devices-IsSound from to ds i j s here there u all sound =
      let (shrunk, absent) = removed_all from ds i s here u all sound in
      let s1 = each_device D (remove_device_process D) from ds s in
      elim (Option-cases (lookup to s1.plugin.instances)) [
        | inl e ↦ absurd (ground (arith, shrunk.names to, there, e))
        | inr (k, e) ↦
            let grown = added_all to ds k s1 e u absent shrunk.sound in
            rw (add_devices_nocheck, grown.here)
              (
                put_back-IsSound to grown.owner _ grown.here grown.sound
                    (record grown.owner { active = some_devices grown.owner }) _ _
                    (λ d. (refl, grown.sound.apart d)),
                has-insert to (record grown.owner { active = some_devices grown.owner })
                    (each_device D (add_device_process D) to ds s1).plugin.instances,
              )
      ]
