-- ===== src/Monitors/Shared.antt =====
-- Which devices the monitors of tuned/monitors/base.py update.
use tuned.Base.{
  ℕ, String, ◌≡◌, refl, sym, ap, ◌∙◌, Bool, true, false, not, ◌&&◌, ◌||◌, Option, none, some, List,
  [], ◌∷◌, ◌==◌, contains, string_eq, nat_eq, arith, if◌then◌else◌, Bool-cases, inl, inr, subst,
  if_intro,
}
use mathlib.Core.Option.{some-injective}
use tuned.Base.Dict.{Dict, insert, lookup-insert}
use tuned.Base.Names.{add, remove, inter, contains-union, contains-add, contains-remove}
use tuned.Monitors.{
  MonitorClass, devices_of, all_devices, refresh_updating_devices, set_devices, register_instance,
  new_monitor, cleanup, add_device, remove_device,
}
use tuned.Base.{select}

-- Some of these monitors has the device.
unfoldable pub held : List ℕ → Dict ℕ (List String) → String → Bool
held [] d x = false
held (monitor ∷ ms) d x = contains (devices_of monitor d) x || held ms d x

-- The devices to update are those of the registered monitors.
abbrev pub Tracks : MonitorClass → Type 0
Tracks m = (x : String) → contains m.updating_devices x ≡ held m.instances m.devices x

contains-all_devices :
    (ms : List ℕ) (d : Dict ℕ (List String)) (x : String)
    → contains (all_devices ms d) x ≡ held ms d x
unfolding all_devices held
contains-all_devices [] d x = refl
contains-all_devices (k ∷ ms) d x =
    ground
      (arith, contains-union (devices_of k d) (all_devices ms d) x, contains-all_devices ms d x)

devices_of-insert :
    (j k : ℕ) (l : List String) (d : Dict ℕ (List String))
    → devices_of j (insert k l d) ≡ (if j == k then l else devices_of j d)
unfolding devices_of
devices_of-insert j k l d = ground (arith, lookup-insert j k l d)

held_of_member :
    (k : ℕ) (ms : List ℕ) (d : Dict ℕ (List String)) (x : String)
    → contains ms k ≡ true
    → contains (devices_of k d) x ≡ true
    → held ms d x ≡ true
unfolding held
held_of_member k [] d x h e = absurd (ground (arith, h))
held_of_member k (j ∷ ms) d x h e = elim (Bool-cases (k == j)) [
  | inl same ↦
      let own : contains (devices_of j d) x ≡ true =
        subst (λ i. contains (devices_of i d) x ≡ true) (ground (arith, same)) e in
      ground (arith, own)
  | inr other ↦ ground (arith, held_of_member k ms d x (ground (arith, h, other)) e)
]

held-insert_other :
    (k : ℕ) (l : List String) (ms : List ℕ) (d : Dict ℕ (List String)) (x : String)
    → contains ms k ≡ false
    → held ms (insert k l d) x ≡ held ms d x
unfolding held
held-insert_other k l [] d x h = refl
held-insert_other k l (j ∷ ms) d x h =
    let differ : (j == k) ≡ false = ground (arith, h) in
    rw (devices_of-insert j k l d, differ, held-insert_other k l ms d x (ground (arith, h))) refl

devices_of-insert_same :
    (j k : ℕ) (l : List String) (d : Dict ℕ (List String))
    → (j == k) ≡ true
    → (devices_of j (insert k l d) ≡ l) × (devices_of j d ≡ devices_of k d)
devices_of-insert_same j k l d same =
    (rw (devices_of-insert j k l d, same) refl, ap (λ i. devices_of i d) (ground (arith, same)))

held-add :
    (k : ℕ) (a x : String) (ms : List ℕ) (d : Dict ℕ (List String))
    → contains ms k ≡ true
    → held ms (insert k (add a (devices_of k d)) d) x ≡ (x == a || held ms d x)
unfolding held
held-add k a x [] d h = absurd (ground (arith, h))
held-add k a x (j ∷ ms) d h =
    let l = add a (devices_of k d) in
    let later = held-insert_other k l ms d x in
    let rest = held-add k a x ms d in
    elim (Bool-cases (j == k)) [
      | inl same ↦
          let (new, old) = devices_of-insert_same j k l d same in
          rw (new, old, contains-add a (devices_of k d) x)
            (elim (Bool-cases (contains ms k)) [
              | inl t ↦ ground (arith, rest t)
              | inr f ↦ ground (arith, later f)
            ])
      | inr differ ↦
          let there : contains ms k ≡ true = ground (arith, h, differ) in
          rw (devices_of-insert j k l d, differ) (ground (arith, rest there))
    ]

held-remove :
    (k : ℕ) (a x : String) (ms : List ℕ) (d : Dict ℕ (List String))
    → held (remove k ms) d a ≡ false
    → held ms (insert k (remove a (devices_of k d)) d) x ≡ (held ms d x && not (x == a))
unfolding held remove select
held-remove k a x [] d alone = refl
held-remove k a x (j ∷ ms) d alone =
    let l = remove a (devices_of k d) in
    elim (Bool-cases (j == k)) [
      | inl same ↦
          let (new, old) = devices_of-insert_same j k l d same in
          let rest = held-remove k a x ms d (ground (arith, alone, same)) in
          rw (new, old, contains-remove a (devices_of k d) x) (ground (arith, rest))
      | inr differ ↦
          let own : contains (devices_of j d) a ≡ false = ground (arith, alone, differ) in
          let rest = held-remove k a x ms d (ground (arith, alone, differ)) in
          let apart : (contains (devices_of j d) x && x == a) ≡ false = elim (Bool-cases (x == a)) [
            | inl e ↦
                let same : a ≡ x = ground (arith, e) in
                let gone : contains (devices_of j d) x ≡ false =
                  subst (λ y. contains (devices_of j d) y ≡ false) same own in
                ground (arith, gone)
            | inr n ↦ ground (arith, n)
          ] in
          rw (devices_of-insert j k l d, differ) (ground (arith, rest, apart))
    ]

-- The calls on the monitors of a class
pub data Call : Type 0 where
  created : ℕ → Option (List String) → Call
  assigned : ℕ → List String → Call
  cleaned : ℕ → Call
  added : ℕ → String → List String → Call
  removed : ℕ → String → Call

unfoldable pub step : Call → MonitorClass → Option MonitorClass
unfolding new_monitor set_devices cleanup add_device remove_device
step (created k devices) m = some (new_monitor k devices m)
step (assigned k value) m = some (set_devices k value m)
step (cleaned k) m = cleanup k m
step (added k a found) m = some (add_device k a found m)
step (removed k a) m = remove_device k a m

-- A device is added to a registered monitor, and removed from a monitor only if no other registered
-- one has it.
unfoldable pub Alone : Call → MonitorClass → Type 0
unfolding held
Alone (added k a found) m = contains m.instances k ≡ true
Alone (removed k a) m = held (remove k m.instances) m.devices a ≡ false
Alone call m = Unit

add_device-Tracks :
    (k : ℕ) (a : String) (found : List String) (m : MonitorClass)
    → Tracks m
    → contains m.instances k ≡ true
    → Tracks (add_device k a found m)
unfolding add_device
add_device-Tracks k a found m t there =
    if_intro Tracks (contains found a) _ _
      (λ _ x.
        contains-add a m.updating_devices x
        ∙ ap (λ b. x == a || b) (t x)
        ∙ sym (held-add k a x m.instances m.devices there))
      (λ _. t)

remove_device-Tracks :
    (k : ℕ) (a : String) (m m' : MonitorClass)
    → Tracks m
    → held (remove k m.instances) m.devices a ≡ false
    → remove_device k a m ≡ some m'
    → Tracks m'
unfolding remove_device
remove_device-Tracks k a m m' t alone h =
    let moved : MonitorClass = record m {
      devices = insert k (remove a (devices_of k m.devices)) m.devices;
      updating_devices = remove a m.updating_devices;
    } in
    let kept : Tracks moved = λ x.
      contains-remove a m.updating_devices x
      ∙ ap (λ b. b && not (x == a)) (t x)
      ∙ sym (held-remove k a x m.instances m.devices alone) in
    elim (Bool-cases (contains (devices_of k m.devices) a)) [
      | inl own ↦ elim (Bool-cases (contains m.updating_devices a)) [
        | inl listed ↦
            let result : remove_device k a m ≡ some moved = rw (remove_device, own, listed) refl in
            subst Tracks (some-injective _ _ (sym result ∙ h)) kept
        | inr missing ↦
            let result : remove_device k a m ≡ none = rw (remove_device, own, missing) refl in
            absurd (ground (arith, result, h))
      ]
      | inr other ↦
          let result : remove_device k a m ≡ some m = rw (remove_device, other) refl in
          subst Tracks (some-injective _ _ (sym result ∙ h)) t
    ]

cleanup-Tracks : (k : ℕ) (m m' : MonitorClass) → cleanup k m ≡ some m' → Tracks m'
unfolding cleanup refresh_updating_devices
cleanup-Tracks k m m' h = elim (Bool-cases (contains m.instances k)) [
  | inl there ↦
      let left : MonitorClass = record m { instances = remove k m.instances } in
      let result : cleanup k m ≡ some (refresh_updating_devices left) = rw (cleanup, there) refl in
      subst Tracks (some-injective _ _ (sym result ∙ h))
        (contains-all_devices left.instances left.devices)
  | inr gone ↦ absurd (ground (arith, gone, h))
]

set_devices-Tracks :
    (k : ℕ) (value : List String) (m : MonitorClass) → Tracks (set_devices k value m)
unfolding set_devices refresh_updating_devices
set_devices-Tracks k value m =
    contains-all_devices m.instances (insert k (inter m.available_devices value) m.devices)

-- A call on monitors, if it returns, keeps this: the devices that are updated are exactly those
-- that some registered monitor has. A device is added to registered monitors only, since a monitor
-- that was cleaned up would bring it to the updated ones as well, and it is removed from a monitor
-- only if no other registered one has it.
pub step-Tracks :
    (call : Call) (m m' : MonitorClass)
    → Tracks m
    → Alone call m
    → step call m ≡ some m'
    → Tracks m'
unfolding step Alone new_monitor
step-Tracks (created k none) m m' t _ h =
    subst Tracks (some-injective _ _ h)
      (set_devices-Tracks k m.available_devices (register_instance k m))
step-Tracks (created k (some devices)) m m' t _ h =
    subst Tracks (some-injective _ _ h) (set_devices-Tracks k devices (register_instance k m))
step-Tracks (assigned k value) m m' t _ h =
    subst Tracks (some-injective _ _ h) (set_devices-Tracks k value m)
step-Tracks (cleaned k) m m' t _ h = cleanup-Tracks k m m' h
step-Tracks (added k a found) m m' t there h =
    subst Tracks (some-injective _ _ h) (add_device-Tracks k a found m t there)
step-Tracks (removed k a) m m' t alone h = remove_device-Tracks k a m m' t alone h

-- Where two registered monitors have a device, its removal from the first one takes it from the
-- devices that are updated, although the second one still has it, and its removal from the second
-- one then raises a `KeyError`.
pub remove_device_shared :
    (j k : ℕ) (a : String) (m : MonitorClass)
    → Tracks m
    → (k == j) ≡ false
    → contains m.instances j ≡ true
    → contains m.instances k ≡ true
    → contains (devices_of j m.devices) a ≡ true
    → contains (devices_of k m.devices) a ≡ true
    → (m' : MonitorClass) × (remove_device j a m ≡ some m')
      × (contains m'.updating_devices a ≡ false)
      × (held m'.instances m'.devices a ≡ true)
      × (remove_device k a m' ≡ none)
unfolding remove_device
remove_device_shared j k a m t differ hj hk own other =
    let shared : contains m.updating_devices a ≡ true =
      t a ∙ held_of_member j m.instances m.devices a hj own in
    let gone : contains (remove a m.updating_devices) a ≡ false =
      ground (arith, contains-remove a m.updating_devices a) in
    let left = insert j (remove a (devices_of j m.devices)) m.devices in
    let still : contains (devices_of k left) a ≡ true =
      rw (devices_of-insert k j (remove a (devices_of j m.devices)) m.devices, differ) other in
    (
      record m { devices = left; updating_devices = remove a m.updating_devices },
      rw (remove_device, own, shared) refl,
      gone,
      held_of_member k m.instances left a hk still,
      rw (remove_device, still, gone) refl,
    )
