-- ===== src/Tests/Commands.antt =====
-- A plugin whose commands write into a table, on two disks.
use tuned.Base.{
  String, ◌≡◌, ◌≢◌, refl, Bool, true, false, Option, none, some, List, [], ◌∷◌, All, arith,
}
use tuned.Base.{◌==◌, ◌&&◌, string_eq, option_eq, if◌then◌else◌}
use tuned.Base.Text.{pos}
use tuned.Plugins.Instance.{Instance, new_instance}
use tuned.Plugins.Driver.{Command, Driver}
use tuned.Plugins.Verify.{verify_command}
use tuned.Plugins.Verify.Laws.{verify-execute}
use tuned.Plugins.Commands.{execute_command, World, apply_static, unapply_static}
use tuned.Plugins.Commands.Effects.{IsLawful, stored_value, current_value}
use tuned.Plugins.Commands.Keys.{IsPlain}
use tuned.Base.{◌⊎◌, starts_with}
use tuned.Storage.Laws.{entry}
use tuned.Plugins.Tuning.{call_device_script, soft, instance_apply_dynamic}
use tuned.Plugins.Tuning.Scripts.{LiesIn, call_device_script-safe}
use tuned.Plugins.Tuning.Dynamic.{entry-instance_apply_dynamic}
use tuned.Plugins.Commands.Static.{unapply_static-apply_static, IsRestored}
use tuned.Plugins.Commands.{non_device_commands}
use tuned.Plugins.Commands.{device_commands}
use tuned.Base.{◌<>◌}
use tuned.Base.{contains}

abbrev pub Table : Type 0
Table = String → Option String → Option String

abbrev pub readahead : Command
readahead = record { name = "readahead"; per_device = true; custom = false }

abbrev pub governor : Command
governor = record { name = "governor"; per_device = false; custom = false }

abbrev pub disk_driver : Driver
disk_driver = record {
  Sys = Table;
  class_name = "DiskPlugin";
  commands = governor ∷ readahead ∷ [];
  options_used_by_dynamic = "readahead" ∷ [];
  read = λ c i d ignore s. s c d;
  write = λ e i v f sim remove s.
      (some v, if sim then s else (λ c d. if c == e && d == f then some v else s c d));
  custom = λ c i enabling v d verify ignore s. (none, s);
  expand = λ s. s;
  run_script = λ script arguments s. (true, s);
  realpath = λ s. s;
  profile_dirs = "/usr/lib/tuned/profiles" ∷ [];
  dynamic_tuning = true;
  pre_static = λ i enabling s. s;
  post_static = λ i enabling s. s;
  init_dynamic = λ i s. s;
  update_dynamic = λ i d s. s;
  unapply_dynamic = λ i d s. s;
}

pub disk_driver-IsLawful : IsLawful disk_driver
disk_driver-IsLawful = record { read-write = λ c e i v d f remove ignore s. refl }

abbrev pub disk : Instance
disk =
    record (new_instance "disk" (pos 0) "*" none none none
      (("readahead", ">4096") ∷ ("governor", "performance") ∷ [])) {
        has_static_tuning = true;
        assigned_devices = "sda" ∷ "sdb" ∷ [];
      }

abbrev pub fresh_world : World disk_driver
fresh_world = record { stored = []; sys = λ c d. some "128" }

pub disk-IsPlain : IsPlain "disk"
disk-IsPlain = (refl, (refl, (refl, (refl, tt))))

readahead-IsPlain : IsPlain "readahead"
readahead-IsPlain = (refl, (refl, (refl, (refl, (refl, (refl, (refl, (refl, (refl, tt)))))))))

governor-IsPlain : IsPlain "governor"
governor-IsPlain = (refl, (refl, (refl, (refl, (refl, (refl, (refl, (refl, tt))))))))

pub not_empty : (d : String) → (d == "") ≡ false → some d ≢ some ""
not_empty d h e = ground arith

no_device : ◌≢◌ {A = Option String} none (some "")
no_device e = cc e

unapply_static-apply_static_example :
    let after =
      unapply_static disk_driver disk
        ("sda" ∷ "sdb" ∷ [])
        (apply_static disk_driver disk ("sda" ∷ "sdb" ∷ []) fresh_world) in
    All
      (λ c. IsRestored disk_driver disk_driver-IsLawful disk disk-IsPlain fresh_world after c none)
      (governor ∷ [])
    × All
        (λ c.
          All
            (λ d.
              IsRestored disk_driver disk_driver-IsLawful disk disk-IsPlain fresh_world after c
                (some d))
            ("sda" ∷ "sdb" ∷ []))
        (readahead ∷ [])
unfolding non_device_commands device_commands stored_value current_value string_eq
    tuned.Storage.Laws.entry tuned.Base.Dict.lookup
unapply_static-apply_static_example =
    unapply_static-apply_static disk_driver disk_driver-IsLawful disk disk-IsPlain
      ("sda" ∷ "sdb" ∷ []) fresh_world (refl, tt) (refl, tt) (refl, (refl, tt))
      (((governor-IsPlain, no_device, refl), refl, λ e. cc e), tt)
      (
        (
          ((readahead-IsPlain, not_empty "sda" refl, refl), refl, λ e. cc e),
          (((readahead-IsPlain, not_empty "sdb" refl, refl), refl, λ e. cc e), tt),
        ),
        tt,
      )

abbrev disk_a : Option String
disk_a = some "sda"

call_device_script-safe_example :
    (((rest : String) × ("/tmp/evil.sh" ≡ "/" <> rest))
      × ((dir : String) × (contains disk_driver.profile_dirs dir ≡ true)
          × LiesIn dir (disk_driver.realpath "/tmp/evil.sh")))
    ⊎ (((call_device_script disk_driver
            (some "/tmp/evil.sh")
            "apply"
            ("sda" ∷ [])
            soft
            fresh_world).1
          ≡ fresh_world)
        × ((call_device_script disk_driver
              (some "/tmp/evil.sh")
              "apply"
              ("sda" ∷ [])
              soft
              fresh_world).0
            ≢ some true))
call_device_script-safe_example =
    call_device_script-safe disk_driver "/tmp/evil.sh" "apply" ("sda" ∷ []) soft fresh_world

entry-instance_apply_dynamic_example :
    entry "DiskPlugin" "DiskPlugin/disk/readahead/sda"
      (instance_apply_dynamic disk_driver disk (some "sda") fresh_world).stored
    ≡ entry "DiskPlugin" "DiskPlugin/disk/readahead/sda" fresh_world.stored
entry-instance_apply_dynamic_example =
    entry-instance_apply_dynamic disk_driver disk "DiskPlugin" "DiskPlugin/disk/readahead/sda"
      (some "sda") fresh_world

verify-execute_example :
    (verify_command
      (λ v. v)
      (λ v. false)
      (λ v. v)
      disk_driver
      disk
      readahead
      disk_a
      ">4096"
      false
      (execute_command disk_driver disk readahead disk_a ">4096" fresh_world)).0
    ≢ some false
verify-execute_example =
    verify-execute (λ v. v) (λ v. false) (λ v. v) disk_driver disk_driver-IsLawful disk readahead
      disk_a (λ v s. refl) refl ">4096" "128" false fresh_world (λ ignore. refl)
