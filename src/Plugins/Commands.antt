-- ===== src/Plugins/Commands.antt =====
-- The commands of a plugin, in tuned/plugins/base.py: their execution, which saves the value that
-- was there before, and their cleanup, which writes it back.
use Prim.Native.String.{[] as empty, ◌∷◌ as ◌◂◌}
use Prim.Native.Char.{code}
pub mod Keys
pub mod Effects
pub mod Restore
pub mod Runs
pub mod Undo
pub mod Jobs
pub mod Static
use tuned.Base.{String, ◌<>◌, Bool, true, false, not, ◌||◌, Option, none, some, List, [], ◌∷◌}
use tuned.Base.{◌==◌, contains, string_eq, if◌then◌else◌, select, reverse, eqb}
use tuned.Base.Dict.{lookup, has}
use tuned.Base.Text.{int, ltz, ℤ}
use tuned.Storage
use tuned.Storage.{Provider}
use tuned.Plugins.Instance.{Instance}
use tuned.Plugins.Driver.{Command, Driver}
use tuned.Base.{ℕ}

-- `int(val)` and `int(current_value)` compared by an operator; `new` if one is no number.
unfoldable pub compared : (ℤ → ℤ → Bool) → String → String → String → Option String
compared test new val current = elim (int 10 val) [
  | none ↦ some new
  | some v ↦ elim (int 10 current) [
    | none ↦ some new
    | some c ↦ if test v c then some val else none
  ]
]

-- `_process_assignment_modifiers` for a value of two characters at least: `op` and `val`.
unfoldable pub modified : String → ℕ → String → Option String → Option String
modified new op val none = if eqb op b'<' || eqb op b'>' then some val else some new
modified new op val (some current) =
    if eqb op b'>'
    then compared (λ v c. ltz c v) new val current
    else if eqb op b'<'
    then compared ltz new val current
    else some new

-- A value `>5` is written only where it raises the current value, `<5` where it lowers it.
unfoldable pub process_assignment_modifiers : Option String → Option String → Option String
unfolding modified
process_assignment_modifiers none current = none
process_assignment_modifiers (some String.[]) current = some ""
process_assignment_modifiers (some (String.◌∷◌ c String.[])) current = some (String.◌∷◌ c String.[])
process_assignment_modifiers (some (String.◌∷◌ c (String.◌∷◌ d s))) current =
    modified (String.◌∷◌ c (String.◌∷◌ d s)) (code c) (String.◌∷◌ d s) current

abbrev pub or_empty : Option String → String
or_empty none = ""
or_empty (some s) = s

-- `_storage_key`
unfoldable pub storage_key : String → String → String → Option String → String
storage_key class_name instance_name command_name device_name =
    class_name
    <> ("/" <> (instance_name <> ("/" <> (command_name <> ("/" <> or_empty device_name)))))

module _ (D : Driver) where
  open D use {Sys, class_name, commands, options_used_by_dynamic, read, write, custom, expand}

  -- What commands change: the stored values and the system.
  pub record World : Type 0 where
    pub stored : Provider String
    pub sys : Sys

  unfoldable pub store_key : Instance → Command → Option String → String
  unfolding storage_key
  store_key i c device = storage_key class_name i.name c.name device

  unfoldable pub storage_set : Instance → Command → String → Option String → World → World
  unfolding store_key Storage.set
  storage_set i c value device w = record w {
    stored = Storage.set class_name (store_key i c device) value w.stored;
  }

  unfoldable pub storage_get : Instance → Command → Option String → World → Option String × World
  unfolding store_key Storage.get
  storage_get i c device w =
      let (value, stored) = Storage.get class_name (store_key i c device) w.stored in
      (value, record w { stored = stored })

  unfoldable pub storage_unset : Instance → Command → Option String → World → World
  unfolding store_key Storage.unset
  storage_unset i c device w = record w {
    stored = Storage.unset class_name (store_key i c device) w.stored;
  }

  -- The new value, if there is one to write, and the old value saved.
  saved : Instance → Command → Option String → Option String → Option String → World → World
  unfolding storage_set
  saved i c device none current w = w
  saved i c device (some new) none w = w
  saved i c device (some new) (some current) w = storage_set i c current device w

  unfoldable pub check_and_save_value :
      Instance → Command → Option String → Option String → World → Option String × World
  unfolding saved process_assignment_modifiers
  check_and_save_value i c device value w =
      let current = read c.name i device false w.sys in
      let new = process_assignment_modifiers value current in (new, saved i c device new current w)

  unfoldable pub set_value :
      Instance → Command → Option String → Bool → Option String → World → World
  set_value i c device remove none w = w
  set_value i c device remove (some value) w = record w {
    sys = (write c.name i value device false remove w.sys).1;
  }

  -- `_execute_device_command` with a device, `_execute_non_device_command` with none
  unfoldable pub execute_command : Instance → Command → Option String → String → World → World
  unfolding check_and_save_value set_value
  execute_command i c device value w =
      let (new, w') = check_and_save_value i c device (some value) w in
      if c.custom
      then record w { sys = (custom c.name i true (some value) device false false w.sys).1 }
      else set_value i c device false new w'

  -- `_cleanup_device_command` with a device, `_cleanup_non_device_command` with none
  unfoldable pub cleanup_command : Instance → Command → Option String → Bool → World → World
  unfolding storage_get storage_unset set_value
  cleanup_command i c device remove w =
      let (old, w') = storage_get i c device w in
      if c.custom
      then record w { sys = (custom c.name i false none device false false w.sys).1 }
      else storage_unset i c device (set_value i c device remove old w')

  -- `self._variables.expand(instance.options.get(command["name"], None))`
  unfoldable pub option_value : Instance → Command → Option String
  unfolding lookup
  option_value i c = elim (lookup c.name i.options) [ none ↦ none | some v ↦ some (expand v) ]

  unfoldable pub execute_given : Instance → Command → Option String → Option String → World → World
  unfolding execute_command
  execute_given i c device none w = w
  execute_given i c device (some value) w = execute_command i c device value w

  unfoldable pub non_device_commands : List Command
  unfolding select
  non_device_commands = select (λ c. not c.per_device) commands

  unfoldable pub device_commands : List Command
  unfolding select
  device_commands = select (λ c. c.per_device) commands

  unfoldable pub execute_non_device_commands : Instance → List Command → World → World
  unfolding execute_given option_value
  execute_non_device_commands i [] w = w
  execute_non_device_commands i (c ∷ cs) w =
      execute_non_device_commands i cs (execute_given i c none (option_value i c) w)

  -- One command on every device.
  unfoldable pub execute_on_devices : Instance → Command → List String → World → World
  unfolding execute_given option_value
  execute_on_devices i c [] w = w
  execute_on_devices i c (d ∷ ds) w =
      execute_on_devices i c ds (execute_given i c (some d) (option_value i c) w)

  unfoldable pub execute_device_commands : Instance → List Command → List String → World → World
  unfolding execute_on_devices
  execute_device_commands i [] ds w = w
  execute_device_commands i (c ∷ cs) ds w =
      execute_device_commands i cs ds (execute_on_devices i c ds w)

  -- The test of the cleanup loops.
  unfoldable pub is_wanted : Instance → Command → Bool
  unfolding lookup
  is_wanted i c = has i.options c.name || contains options_used_by_dynamic c.name

  unfoldable pub cleanup_non_device_commands : Instance → List Command → World → World
  unfolding is_wanted cleanup_command
  cleanup_non_device_commands i [] w = w
  cleanup_non_device_commands i (c ∷ cs) w =
      cleanup_non_device_commands i cs
        (if is_wanted i c then cleanup_command i c none false w else w)

  unfoldable pub cleanup_on_devices : Instance → Command → List String → Bool → World → World
  unfolding cleanup_command
  cleanup_on_devices i c [] remove w = w
  cleanup_on_devices i c (d ∷ ds) remove w =
      cleanup_on_devices i c ds remove (cleanup_command i c (some d) remove w)

  unfoldable pub cleanup_device_commands :
      Instance → List Command → List String → Bool → World → World
  unfolding is_wanted cleanup_on_devices
  cleanup_device_commands i [] ds remove w = w
  cleanup_device_commands i (c ∷ cs) ds remove w =
      cleanup_device_commands i cs ds remove
        (if is_wanted i c then cleanup_on_devices i c ds remove w else w)

  -- `_instance_apply_static`
  unfoldable pub apply_static : Instance → List String → World → World
  unfolding execute_non_device_commands execute_device_commands non_device_commands device_commands
  apply_static i devices w =
      execute_device_commands i device_commands devices
        (execute_non_device_commands i non_device_commands w)

  -- `_instance_unapply_static`
  unfoldable pub unapply_static : Instance → List String → World → World
  unfolding cleanup_non_device_commands cleanup_device_commands non_device_commands device_commands
  unapply_static i devices w =
      cleanup_non_device_commands i (reverse non_device_commands)
        (cleanup_device_commands i (reverse device_commands) devices false w)
