-- ===== src/Lib.antt =====
-- TuneD, a daemon that tunes a Linux system by profiles, as a model with its theorems.
--
-- The daemon (tuned/daemon/daemon.py) chooses profiles and runs a thread. A profile is loaded from
-- files, and profiles are merged into one (tuned/profiles/). Each unit of a profile becomes an
-- instance of a plugin. The base plugin (tuned/plugins/base.py) shares the devices among its
-- instances, executes the commands of an instance on them, saves the values of before in a storage
-- (tuned/storage/), verifies the values and writes the saved ones back. Devices that come and go
-- (tuned/plugins/hotplug.py) reach the plugins by the inventory (tuned/hardware/inventory.py).
--
-- - Base: what the files share: equality tests, lists, dictionaries as association lists in
--   insertion order (`Dict`), sets of names as lists (`Names`), and Python's methods of `str` and
--   `int()` on ASCII text (`Text`).
-- - Profiles.Unit: `Unit` and `Profile` (tuned/profiles/unit.py, profile.py).
-- - Profiles.Merger: `Merger` (tuned/profiles/merger.py); `none` is the `TypeError` of `+`. Units
--   are values here: a unit of the newer profile that is taken over is not shared with it.
-- - Profiles.Parser: `_process` of `Parser` (tuned/profiles/functions/parser.py), with the
--   functions of the repository a parameter; `expand` also removes backslashes by a regular
--   expression.
-- - Storage: `PickleProvider` (tuned/storage/pickle_provider.py). A storage of
--   tuned/storage/storage.py is the provider at one namespace. What pickle does with a file is a
--   parameter.
-- - Hardware.Matcher: `DeviceMatcher` (tuned/hardware/device_matcher.py) on a list of rules, with
--   `fnmatch` a parameter. Hardware.Inventory: the subscriptions of `Inventory`
--   (tuned/hardware/inventory.py); the udev monitor is not modelled.
-- - Plugins.Instance: `Instance` (tuned/plugins/instance/instance.py).
-- - Plugins.Driver: what the base plugin calls and does not implement, as a record: a subclass's
--   commands and hooks, the variables, the scripts and the system that they act on. The law of a
--   driver that some theorems take, `IsLawful`, says that a command reads back what it writes.
-- - Plugins.Commands, Plugins.Verify, Plugins.Devices, Plugins.Tuning: `Plugin` of
--   tuned/plugins/base.py, in parts: the commands of an instance, their verification, the devices
--   and instances of a plugin, and the tuning of an instance as a whole. A `World` is the storage
--   and the system. Operations that change an instance and its plugin return both, and `put_back`
--   writes the instance where the plugin holds it.
-- - Plugins.Hotplug: `Plugin` of tuned/plugins/hotplug.py, on the plugin's books and a world.
-- - Plugins.Scheduler: the processes of `SchedulerPlugin` (tuned/plugins/plugin_scheduler.py):
--   their policies, CPUs and cgroups, and what is saved of them. The kernel is a parameter
--   (`Kernel`); the law `Accepts` says that it takes back each value that it gave, and that a
--   write to one process leaves the others alone. Plugins.Scheduler.Objects tunes all processes
--   and follows those that come and go, Plugins.Scheduler.Rollback restores them.
--   Plugins.Scheduler.Irqs: the affinities of the interrupts, whose files are a parameter
--   (`Interrupts`) with the law `Takes`.
-- - Plugins.Disk, Plugins.Disk.Dynamic: the calls of hdparm and the dynamic tuning of `DiskPlugin`
--   (tuned/plugins/plugin_disk.py). hdparm is a parameter, and so is the test of a quotient of
--   floats, which is kept as the pair of its operands; the division by zero is an error here too.
-- - Plugins.Bootloader: the kernel arguments by rpm-ostree of tuned/plugins/plugin_bootloader.py.
--   rpm-ostree is a parameter with the law `IsLawful`; the value that the source reads back from
--   its file of the boot command line is a field of the state. The wait ends after its number of
--   sleeps.
-- - Monitors: the base class of tuned/monitors/base.py with the devices that all its monitors
--   share; the readings of a subclass are an argument. A monitor that was cleaned up is no longer
--   registered, but keeps its devices.
-- - Daemon.Loop: `_thread_code` of tuned/daemon/daemon.py, for a number of waits that time out
--   before the thread is to terminate. Daemon.Switch: the operations on the daemon's profile; the
--   loader is a parameter, and the result false is a `TunedException`.
-- - Units.Manager: `Manager` of tuned/units/manager.py over any plugins and instances; an
--   instance's exception is a value there. Profiles.Loader: `get_config` of
--   tuned/profiles/locator.py and `load` of tuned/profiles/loader.py, with the parser of a file
--   and the expansion of variables as parameters.
-- - Controller: the calls of `Controller` (tuned/daemon/controller.py). Controller.Power starts,
--   stops, reloads and switches the daemon of Daemon.Switch; the answers are without their
--   messages. Controller.Instances moves devices to an instance and destroys one; the unit manager's instances are
--   names of the target's plugin, which is a state of Plugins.Hotplug, or foreign ones with their
--   devices.
-- - Utils: helpers of tuned/utils/commands.py. Utils.Masks and Utils.Cpulist are the masks and
--   lists of CPUs, Utils.Files the files of the active and the post-loaded profile. A list is
--   given by the `str()` of its items; a value that was split at its minus signs is no negative
--   number.
-- - Ppd: the daemon tuned-ppd (tuned/ppd/). Ppd.Config is `PPDConfig` for a file that could be
--   parsed, Ppd.Controller the `Controller` with its `ProfileHoldManager`, Ppd.Platform the
--   handler of the platform profile's file. TuneD's interface, the draws of the random cookies and
--   the contents of the files are parameters; the law `Accepts` says that TuneD switches to what
--   it is told.
-- - Tests: concrete inputs and runs.
--
-- Loops are recursion on the lists that they run over. `remove_running` has the length of the list
-- as fuel, which its index reaches at the latest. `wait_rounds` takes any fuel. The loader's fuel
-- is one more than the number of the files that there are, since each nested inclusion has read
-- another one.
--
-- The parser's fuel is one more than the length of its text, of which each round leaves less. A
-- mask is fuel enough for the halving of itself, and a number for the division by ten.
--
-- Not modelled: logging, threads, D-Bus, the command line, the other plugins and the rest of the
-- three above, the readings of the monitors, and the variables of profiles with the functions on
-- them, which are input and output, or parameters of what is here. Numbers are natural numbers or
-- integers without bound, as Python's are.
pub mod Base
pub mod Controller
pub mod Daemon
pub mod Hardware
pub mod Monitors
pub mod Plugins
pub mod Ppd
pub mod Profiles
pub mod Storage
pub mod Tests
pub mod Units
pub mod Utils
