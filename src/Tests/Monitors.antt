-- ===== src/Tests/Monitors.antt =====
-- Two monitors of one class.
use tuned.Base.{◌≡◌, refl, true, false, none, some, [], ◌∷◌, contains, string_eq, nat_eq, arith}
use tuned.Base.Dict.{insert, lookup}
use tuned.Base.Names.{add}
use tuned.Monitors.{MonitorClass, devices_of, add_device, remove_device}
use tuned.Monitors.Shared.{Alone, Tracks, held, added, step, step-Tracks, remove_device_shared}

abbrev pair : MonitorClass
pair = record {
  available_devices = "sda" ∷ "sdb" ∷ [];
  instances = 1 ∷ 2 ∷ [];
  devices = (1, "sda" ∷ []) ∷ (2, "sda" ∷ "sdb" ∷ []) ∷ (3, "sdb" ∷ []) ∷ [];
  updating_devices = "sda" ∷ "sdb" ∷ [];
}

pair-Tracks : Tracks pair
unfolding held devices_of lookup nat_eq
pair-Tracks x = ground arith

abbrev grown : MonitorClass
grown = record {
  available_devices = "sdb" ∷ "sdc" ∷ [];
  instances = 1 ∷ 2 ∷ [];
  devices = (1, "sdc" ∷ "sda" ∷ []) ∷ (2, "sda" ∷ "sdb" ∷ []) ∷ (3, "sdb" ∷ []) ∷ [];
  updating_devices = "sdc" ∷ "sda" ∷ "sdb" ∷ [];
}

step-Tracks_example : Tracks grown
unfolding step lookup insert nat_eq string_eq Alone add devices_of
step-Tracks_example =
    step-Tracks (added 1 "sdc" ("sdb" ∷ "sdc" ∷ [])) pair grown pair-Tracks refl refl

remove_device_shared_example :
    (m' : MonitorClass) × (remove_device 1 "sda" pair ≡ some m')
    × (contains m'.updating_devices "sda" ≡ false)
    × (held m'.instances m'.devices "sda" ≡ true)
    × (remove_device 2 "sda" m' ≡ none)
unfolding lookup nat_eq string_eq devices_of
remove_device_shared_example =
    remove_device_shared 1 2 "sda" pair pair-Tracks refl refl refl refl refl

-- A device that is added to a monitor which was cleaned up is updated, though no registered monitor
-- has it.
left_over : contains (add_device 3 "sdc" ("sdc" ∷ []) pair).updating_devices "sdc" ≡ true
unfolding add_device add string_eq
left_over = refl
