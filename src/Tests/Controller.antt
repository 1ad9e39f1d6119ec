-- ===== src/Tests/Controller.antt =====
-- Calls to a daemon that runs a profile, and devices that pass between two instances.
use tuned.Base.{◌≡◌, refl, true, false, ◌&&◌, none, some, [], ◌∷◌, string_eq, arith}
use tuned.Base.Dict.{lookup}
use tuned.Profiles.Unit.{empty_profile}
use tuned.Daemon.Switch.{Daemon}
use tuned.Controller.Power.{Control, is_denied, is_enabled, switch_to, reload_call}
use tuned.Controller.Power.Running.{switch_to_lem, reload_call_lem}
use tuned.Controller.Instances.{Member, own, instance_acquire_devices, instance_destroy}
use tuned.Controller.Instances.Destroy.{instance_destroy-IsSound}
use tuned.Plugins.Hotplug.Books.{known}
use tuned.Controller.Instances.Acquire.{instance_acquire_devices-IsSound}
use tuned.Utils.Files.{ProfileFiles, content, unreadable}
use tuned.Plugins.Devices.{Plugin, Matching, destroy_instance}
use tuned.Plugins.Devices.Partition.{IsSound, tally}
use tuned.Plugins.Hotplug.{State}
use tuned.Tests.Commands.{disk_driver, fresh_world}
use tuned.Tests.Daemon.{idle_daemon, known_names, named}
use tuned.Tests.Devices.{busy, idle, busy_plugin, not_both}
use tuned.Base.Dict.{has}
use tuned.Base.{String}
use tuned.Base.{contains}
use tuned.Base.{List}

abbrev running_daemon : Daemon
running_daemon = record idle_daemon {
  profile = some empty_profile;
  manual = some true;
  running = true;
}

abbrev tuning : Control
tuning = record { daemon = running_daemon; timers = [] }

abbrev broken_files : ProfileFiles
broken_files = record { active = unreadable; mode = content "manual\n"; post_loaded = content "" }

-- The profile is not known: the switch fails, and the daemon runs the profile of before.
failed_switch : (switch_to known_names named "missing" true tuning).0 ≡ false
unfolding switch_to string_eq
failed_switch = refl

switch_to_lem_example :
    let (ok, c) = switch_to known_names named "missing" true tuning in
    (c.daemon.running ≡ (true && is_enabled c.daemon))
    × (ok ≡ false → (c.daemon.profile ≡ some empty_profile) × (c.daemon.running ≡ true))
switch_to_lem_example = switch_to_lem known_names named "missing" true tuning (λ h. refl)

-- The files cannot be read: the reload fails and leaves the daemon stopped.
failed_reload :
    (reload_call known_names named true broken_files "balanced" none tuning).1.daemon.running
    ≡ false
unfolding reload_call
failed_reload = refl

reload_call_lem_example :
    let (ok, c) = reload_call known_names named true broken_files "balanced" none tuning in
    ok ≡ c.daemon.running
unfolding is_denied
reload_call_lem_example = reload_call_lem known_names named broken_files "balanced" none tuning refl

abbrev two_instances : Plugin
two_instances = record busy_plugin { instances = ("disk", busy) ∷ ("fast", idle) ∷ [] }

two_instances-IsSound : IsSound two_instances
unfolding tally lookup string_eq
two_instances-IsSound = record {
  names = (refl, (refl, tt));
  held = λ d. ground (arith, not_both "sda" "sdb" d refl);
  apart = λ d. ground (arith, not_both "sda" "sdc" d refl, not_both "sdb" "sdc" d refl);
}

abbrev both_instances : State disk_driver
both_instances = record { plugin = two_instances; world = fresh_world }

instance_acquire_devices-IsSound_example :
    IsSound
      (instance_acquire_devices disk_driver "fast"
        (own "disk" ∷ own "fast" ∷ [])
        ("sda" ∷ "sdz" ∷ [])
        both_instances).1.plugin
unfolding string_eq
instance_acquire_devices-IsSound_example =
    instance_acquire_devices-IsSound disk_driver "fast" (own "disk" ∷ own "fast" ∷ [])
      ("sda" ∷ "sdz" ∷ []) both_instances (refl, (refl, tt)) two_instances-IsSound

abbrev both : List Member
both = own "disk" ∷ own "fast" ∷ []

abbrev takes_all : Matching
takes_all i l = l

-- The device that the destroyed instance had tuned passes to the other instance.
passed_on :
    let (ok, members, s) = instance_destroy disk_driver takes_all "disk" both both_instances in
    (members ≡ own "fast" ∷ [])
    × (s.plugin.instances
        ≡ ("fast", record idle { active = true; processed_devices = "sda" ∷ [] }) ∷ [])
unfolding instance_destroy string_eq destroy_instance
passed_on = (refl, refl)

instance_destroy-IsSound_example :
    let (ok, members, s') = instance_destroy disk_driver takes_all "disk" both both_instances in
    (ok ≡ true)
    × IsSound s'.plugin
    × (has s'.plugin.instances "disk" ≡ false)
    × ((d : String) → contains busy.processed_devices d ≡ true → known d s'.plugin ≡ true)
unfolding lookup string_eq
instance_destroy-IsSound_example =
    instance_destroy-IsSound disk_driver takes_all "disk" busy both both_instances refl refl
      two_instances-IsSound
