-- ===== src/Profiles/Unit.antt =====
-- tuned/profiles/unit.py and profile.py: a unit is a section of a profile's configuration.
use tuned.Base.{ℕ, String, Bool, true, false, ◌||◌, Option, none, some, List, [], ◌∷◌}
use tuned.Base.{◌==◌, string_eq, eqb, if◌then◌else◌}
use tuned.Base.Dict.{Dict, lookup, insert, erase}

-- A value of a configuration: a text, a list of script paths, or what Python code puts there.
pub data Value : Type 0 where
  text : String → Value
  paths : List String → Value
  bool : Bool → Value
  int : ℕ → Value

abbrev pub Options : Type 0
Options = Dict String Value

-- `value in [True, "True", "true", 1, "1"]`
unfoldable pub truthy : Value → Bool
truthy (text s) = s == "True" || s == "true" || s == "1"
truthy (paths l) = false
truthy (bool b) = b
truthy (int n) = eqb n 1

-- `value == s` for a text `s`
unfoldable pub is_text : Value → String → Bool
is_text (text s) t = s == t
is_text (paths l) t = false
is_text (bool b) t = false
is_text (int n) t = false

-- `d.pop(key, default)`, the popped value
abbrev popped : String → Value → Options → Value
popped key default d = elim (lookup key d) [ none ↦ default | some v ↦ v ]

pub record ProfileUnit : Type 0 where
  pub name : String
  pub priority : Option Value
  pub type : Value
  pub enabled : Bool
  pub replace : Bool
  pub prepend : Bool
  pub drop : Option (List String)
  pub devices : Value
  pub devices_udev_regex : Option Value
  pub cpuinfo_regex : Option Value
  pub uname_regex : Option Value
  pub script_pre : Option Value
  pub script_post : Option Value
  pub options : Options

-- The options that `Unit.__init__` pops, in its order.
abbrev pub unit_keys : List String
unit_keys =
    "priority" ∷ "type" ∷ "enabled" ∷ "replace" ∷ "prepend" ∷ "drop" ∷ "devices"
    ∷ "devices_udev_regex" ∷ "cpuinfo_regex" ∷ "uname_regex" ∷ "script_pre" ∷ "script_post" ∷ []

unfoldable pub erase_all : List String → Options → Options
erase_all [] d = d
erase_all (k ∷ ks) d = erase_all ks (erase k d)

-- profile.py
pub record Profile : Type 0 where
  pub name : Option String
  pub options : Options
  pub variables : Options
  pub units : Dict String ProfileUnit

-- `Profile()`
abbrev pub empty_profile : Profile
empty_profile = record { name = none; options = []; variables = []; units = [] }

-- The regular expression that splits `drop` is the library's.
module _ (split_drop : Value → List String) where
  -- `Unit.__init__`. The keys are distinct, so each pop reads the given configuration.
  unfoldable pub create_unit : String → Options → ProfileUnit
  unfolding truthy erase_all
  create_unit name config = record {
    name = name;
    priority = lookup "priority" config;
    type = popped "type" (text name) config;
    enabled = truthy (popped "enabled" (bool true) config);
    replace = truthy (popped "replace" (bool false) config);
    prepend = truthy (popped "prepend" (bool false) config);
    drop = elim (lookup "drop" config) [ none ↦ none | some v ↦ some (split_drop v) ];
    devices = popped "devices" (text "*") config;
    devices_udev_regex = lookup "devices_udev_regex" config;
    cpuinfo_regex = lookup "cpuinfo_regex" config;
    uname_regex = lookup "uname_regex" config;
    script_pre = lookup "script_pre" config;
    script_post = lookup "script_post" config;
    options = erase_all unit_keys config;
  }

  -- `Profile._init_units`: every section but `main`, in order.
  unfoldable pub init_units :
      Dict String Options → Dict String ProfileUnit → Dict String ProfileUnit
  unfolding create_unit
  init_units [] units = units
  init_units ((name, config) ∷ rest) units =
      init_units rest
        (if name == "main" then units else insert name (create_unit name config) units)

  -- `Profile.__init__` with a name and a configuration
  unfoldable pub create_profile : String → Dict String Options → Profile
  unfolding init_units
  create_profile name config = record {
    name = some name;
    options = elim (lookup "main" config) [ none ↦ [] | some options ↦ options ];
    variables = [];
    units = init_units config [];
  }
