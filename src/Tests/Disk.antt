-- ===== src/Tests/Disk.antt =====
-- A disk that answers all calls, and its levels while it is idle and busy.
use tuned.Base.{
  ℕ, ◌+◌, String, ◌≡◌, refl, true, Option, none, some, List, [], ◌∷◌, string_eq, nat_eq, arith,
}
use tuned.Base.Dict.{lookup, insert, lookup-nil}
use tuned.Base.Text.{ℤ, pos, eqz}
use tuned.Plugins.Disk.{Disks, DeviceState, DiskState, succeeded, new_state}
use tuned.Plugins.Disk.Levels.{AllBounded, Ok}
use tuned.Plugins.Disk.Updates.{run_updates, run_updates-Ok}

-- The number of the calls so far
abbrev disks : Disks
disks = record {
  Sys = ℕ;
  execute = λ call n. ((succeeded, "drive state is:  active/idle"), n + 1);
  is_small = λ diff max. eqz diff (pos 0);
}

abbrev plugged : DiskState disks
plugged = record {
  use_hdparm = true;
  apm_support = [];
  apm_errcnt = 0;
  spindown_errcnt = 0;
  devices = [];
  sys = 0;
}

plugged-AllBounded : AllBounded disks plugged
plugged-AllBounded = record {
  bounded = λ device d e. absurd (ground (arith, e, lookup-nil {V = DeviceState} device));
  apm_within = omega arith;
  spindown_within = omega arith;
}

abbrev no_load : List ℤ
no_load = pos 0 ∷ pos 0 ∷ pos 0 ∷ pos 0 ∷ pos 0 ∷ pos 0 ∷ []

abbrev busy_load : List ℤ
busy_load = pos 9 ∷ pos 9 ∷ pos 9 ∷ pos 9 ∷ pos 9 ∷ pos 9 ∷ []

abbrev evening : List (String × Option (List ℤ))
evening =
    ("sda", some no_load)
    ∷ ("sda", none)
    ∷ ("sda", some no_load)
    ∷ ("sdb", some busy_load)
    ∷ ("sda", some no_load)
    ∷ ("sda", some no_load)
    ∷ ("sda", some no_load)
    ∷ ("sda", some no_load)
    ∷ []

run_updates-Ok_example : Ok disks (run_updates disks evening plugged)
run_updates-Ok_example = run_updates-Ok disks evening plugged (omega arith) plugged-AllBounded

abbrev known_disk : DiskState disks
known_disk = record plugged { apm_support = ("sda", true) ∷ []; devices = ("sda", new_state) ∷ [] }

abbrev level_of : Option (DiskState disks) → Option ℕ
level_of none = none
level_of (some s) = elim (lookup "sda" s.devices) [ none ↦ none | some d ↦ some d.idle.level ]

-- The disk has gone up one level.
after_evening : level_of (run_updates disks evening plugged) ≡ some 1
unfolding run_updates lookup insert string_eq
after_evening = refl
