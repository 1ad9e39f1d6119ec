-- ===== src/Plugins/Devices/Registry.antt =====
-- The instances of a plugin come and go: `create_instance`, `destroy_instance` and the end of
-- `instance_apply_tuning` in tuned/plugins/base.py.
use tuned.Base.{◌+◌, String, ◌≡◌, refl, true, not, ◌||◌, none, some, [], ◌∷◌}
use tuned.Base.{arith, ◌==◌, contains, string_eq, if◌then◌else◌, Bool-cases, inl, inr, if_intro}
use tuned.Base.Dict.{
  Dict, NodupKeys, lookup, lookup-erase, insert, erase, erase-NodupKeys, lookup-insert,
}
use tuned.Base.Names.{contains-union}
use tuned.Base.Text.{ltz}
use tuned.Plugins.Instance.{Instance}
use tuned.Plugins.Driver.{Driver}
use tuned.Plugins.Commands.{World}
use tuned.Plugins.Devices.{Plugin, put_back, sort_insert, sort_by_priority}
use tuned.Plugins.Devices.{create_instance, destroy_instance, release_devices}
use tuned.Plugins.Tuning.{instance_apply_tuning}
use tuned.Plugins.Devices.Partition.{
  holds, tally, tally-insert, tally-erase, holds-le, IsSound, put_back-IsSound,
  release_devices-IsSound,
}
use tuned.Base.Dict.{insert-NodupKeys}

lookup-sort_insert :
    (x k : String) (i : Instance) (d : Dict String Instance)
    → lookup k d ≡ none
    → lookup x (sort_insert k i d) ≡ (if x == k then some i else lookup x d)
unfolding sort_insert lookup
lookup-sort_insert x k i [] h = refl
lookup-sort_insert x k i ((j, l) ∷ d) h = ground (arith, lookup-sort_insert x k i d)

sort_insert-NodupKeys :
    (k : String) (i : Instance) (d : Dict String Instance)
    → lookup k d ≡ none
    → NodupKeys d
    → NodupKeys (sort_insert k i d)
unfolding sort_insert lookup
sort_insert-NodupKeys k i [] h u = (refl, tt)
sort_insert-NodupKeys k i ((j, l) ∷ d) h (fresh, u) =
    elim (Bool-cases (ltz l.priority i.priority)) [
      | inl p ↦
          rw p (
            ground (arith, lookup-sort_insert j k i d),
            sort_insert-NodupKeys k i d (ground arith) u,
          )
      | inr p ↦ rw p (h, (fresh, u))
    ]

tally-sort_insert :
    (x k : String) (i : Instance) (d : Dict String Instance)
    → tally x (sort_insert k i d) ≡ holds x i + tally x d
unfolding sort_insert tally
tally-sort_insert x k i [] = refl
tally-sort_insert x k i ((j, l) ∷ d) = ground (arith, tally-sort_insert x k i d)

-- Sorting keeps the instances under their names, each once.
lookup-sort_by_priority :
    (x : String) (d : Dict String Instance)
    → NodupKeys d
    → lookup x (sort_by_priority d) ≡ lookup x d
unfolding sort_by_priority lookup
lookup-sort_by_priority x [] u = refl
lookup-sort_by_priority x ((k, i) ∷ d) (fresh, u) = ground (
  arith,
  lookup-sort_insert x k i (sort_by_priority d),
  lookup-sort_by_priority x d u,
  lookup-sort_by_priority k d u,
)

sort_by_priority-NodupKeys :
    (d : Dict String Instance) → NodupKeys d → NodupKeys (sort_by_priority d)
unfolding sort_by_priority
sort_by_priority-NodupKeys [] u = tt
sort_by_priority-NodupKeys ((k, i) ∷ d) (fresh, u) =
    sort_insert-NodupKeys k i (sort_by_priority d) (rw (lookup-sort_by_priority k d u) fresh)
      (sort_by_priority-NodupKeys d u)

tally-sort_by_priority :
    (x : String) (d : Dict String Instance) → tally x (sort_by_priority d) ≡ tally x d
unfolding sort_by_priority tally
tally-sort_by_priority x [] = refl
tally-sort_by_priority x ((k, i) ∷ d) =
    ground (arith, tally-sort_insert x k i (sort_by_priority d), tally-sort_by_priority x d)

tally-insert_new :
    (x k : String) (i : Instance) (d : Dict String Instance)
    → lookup k d ≡ none
    → tally x (insert k i d) ≡ tally x d + holds x i
unfolding tally insert lookup
tally-insert_new x k i [] h = omega arith
tally-insert_new x k i ((j, l) ∷ d) h = ground (arith, tally-insert_new x k i d)

-- A released instance holds nothing.
released-holds :
    (d : String) (i : Instance) (p : Plugin)
    → p.devices_supported ≡ true
    → holds d (release_devices i p).0 ≡ 0
unfolding release_devices
released-holds d i p supported =
    if_intro {A = Instance × Plugin} (λ r. holds d r.0 ≡ 0) (not p.devices_supported) _ _
      (λ h. ground (arith, supported)) (λ _. refl)

released-instances : (i : Instance) (p : Plugin) → (release_devices i p).1.instances ≡ p.instances
unfolding release_devices
released-instances i p =
    if_intro {A = Instance × Plugin} (λ r. r.1.instances ≡ p.instances) (not p.devices_supported) _
      _ (λ _. refl) (λ _. refl)

module _ (p : Plugin) (s : IsSound p) where
  -- In a plugin with sound books, a new instance, which holds no device yet, is created if its
  -- name is not taken. Then it is found under its name, every other name is found as before, and
  -- the books are sound.
  pub create_instance-IsSound :
      (instance : Instance)
      → instance.assigned_devices ≡ []
      → instance.processed_devices ≡ []
      → lookup instance.name p.instances ≡ none
      → (p' : Plugin) × (create_instance instance p ≡ some p')
        × IsSound p'
        × ((name : String)
            → lookup name p'.instances
              ≡ (if name == instance.name then some instance else lookup name p.instances))
  unfolding create_instance
  create_instance-IsSound instance ha hp new =
      let d = insert instance.name instance p.instances in
      let u = insert-NodupKeys instance.name instance p.instances s.names in
      (
        record p { instances = sort_by_priority d },
        ground (arith, new),
        record {
          names = sort_by_priority-NodupKeys d u;
          held = λ x. ground (
            arith,
            tally-sort_by_priority x d,
            tally-insert_new x instance.name instance p.instances new,
            s.held x,
          );
          apart = s.apart;
        },
        λ name.
            rw
              (
                lookup-sort_by_priority name d u,
                lookup-insert name instance.name instance p.instances,
              )
              refl,
      )

  -- In a plugin with sound books that supports devices, the instance that a name stands for can be
  -- destroyed. Then the name is free, every other name is found as before, exactly the devices
  -- that the instance held become free, and the books are sound.
  pub destroy_instance-IsSound :
      (name : String) (i : Instance)
      → p.devices_supported ≡ true
      → lookup name p.instances ≡ some i
      → (p' : Plugin) × (destroy_instance name p ≡ some p')
        × IsSound p'
        × ((k : String)
            → lookup k p'.instances ≡ (if k == name then none else lookup k p.instances))
        × ((d : String)
            → contains p'.free_devices d ≡ (
                contains p.free_devices d
                || (contains i.processed_devices d || contains i.assigned_devices d)))
  unfolding destroy_instance
  destroy_instance-IsSound name i supported here =
      let (kept, freed) = release_devices-IsSound name i p supported here s in
      (
        record (release_devices i p).1 { instances = erase name p.instances },
        rw (destroy_instance, here) refl,
        record {
          names = erase-NodupKeys name p.instances s.names;
          held = λ x. omega (
            arith,
            tally-erase x name i p.instances s.names here,
            tally-insert x name i (release_devices i p).0 p.instances here,
            rw (released-instances i p) at (kept.held x),
            released-holds x i p supported,
          );
          apart = kept.apart;
        },
        λ k. lookup-erase k name p.instances,
        freed,
      )

  -- Tuning an instance of a plugin keeps sound books sound, and no device of an active instance is
  -- left untuned: each that was assigned to it is processed afterwards.
  pub instance_apply_tuning-IsSound :
      (D : Driver) (name : String) (i : Instance) (w : World D)
      → lookup name p.instances ≡ some i
      → let i' = (instance_apply_tuning D p.devices_supported i w).0 in
        IsSound (put_back name (i', p))
        × (i.active ≡ true
            → (i'.assigned_devices ≡ [])
              × ((d : String)
                  → contains i'.processed_devices d
                    ≡ (contains i.processed_devices d || contains i.assigned_devices d)))
  unfolding instance_apply_tuning
  instance_apply_tuning-IsSound D name i w here =
      if_intro {A = Instance × World D}
        (λ r.
          IsSound (put_back name (r.0, p))
          × (i.active ≡ true
              → (r.0.assigned_devices ≡ [])
                × ((d : String)
                    → contains r.0.processed_devices d
                      ≡ (contains i.processed_devices d || contains i.assigned_devices d))))
        (not i.active) _ _
        (λ idle. (
          put_back-IsSound name i p here s i _ _ (λ d. (refl, s.apart d)),
          λ h. ground (arith, h, idle),
        ))
        (λ _. (
          put_back-IsSound name i p here s _ _ _ (λ d. (
            rw (contains-union i.processed_devices i.assigned_devices d)
                (ground (arith, holds-le name i p here s d)),
            s.apart d,
          )),
          λ _. (refl, λ d. contains-union i.processed_devices i.assigned_devices d),
        ))
