-- ===== src/Plugins/Driver.antt =====
-- What the base plugin calls and does not implement: a subclass's handlers, the variables, the
-- scripts of a profile and the system that all of them act on.
use tuned.Base.{String, Bool, Option, List}
use tuned.Plugins.Instance.{Instance}

-- An entry of `_commands`; `custom` says whether a custom handler is registered.
pub record Command : Type 0 where
  pub name : String
  pub per_device : Bool
  pub custom : Bool

pub record Driver : Type 1 where
  pub Sys : Type 0
  -- the class's name, and its commands by priority
  pub class_name : String
  pub commands : List Command
  pub options_used_by_dynamic : List String
  -- `command["get"]`: the command's name, the instance, the device and `ignore_missing`
  pub read : String → Instance → Option String → Bool → Sys → Option String
  -- `command["set"]`: the command's name, the instance, the value, the device, `sim` and `remove`
  pub write : String → Instance → String → Option String → Bool → Bool → Sys → Option String × Sys
  -- `command["custom"]`: `enabling`, the value, the device, `verify` and `ignore_missing`
  pub custom :
      String
      → Instance
      → Bool
      → Option String
      → Option String
      → Bool
      → Bool
      → Sys
      → Option Bool × Sys
  -- `self._variables.expand`
  pub expand : String → String
  -- one run of a script with its arguments, and whether it went well
  pub run_script : String → List String → Sys → Bool × Sys
  -- `os.path.realpath`, and the configured profile directories
  pub realpath : String → String
  pub profile_dirs : List String
  -- the global option `dynamic_tuning`
  pub dynamic_tuning : Bool
  -- hooks of a subclass around its static tuning; the flag is `enabling`
  pub pre_static : Instance → Bool → Sys → Sys
  pub post_static : Instance → Bool → Sys → Sys
  pub init_dynamic : Instance → Sys → Sys
  pub update_dynamic : Instance → Option String → Sys → Sys
  pub unapply_dynamic : Instance → Option String → Sys → Sys
