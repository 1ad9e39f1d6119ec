-- ===== src/Ppd/Config.antt =====
-- tuned/ppd/config.py: the profiles of power-profiles-daemon (PPD) and the TuneD profiles that
-- they stand for, on mains and on battery. The parser of the file is the library's.
pub mod Inverse
use tuned.Base.{
  ℕ, String, Bool, true, false, not, ◌&&◌, ◌||◌, Option, none, some, List, [], ◌∷◌, ◌++◌,
}
use tuned.Base.{◌==◌, contains, string_eq, if◌then◌else◌, length, eqb}
use tuned.Base.Dict.{Dict, keys, values, lookup, has, update}
use tuned.Base.Names.{add, diff, union}

abbrev pub power_saver : String
power_saver = "power-saver"

abbrev pub balanced : String
balanced = "balanced"

abbrev pub performance : String
performance = "performance"

-- `ProfileMap`
pub record ProfileMap : Type 0 where
  pub ac_map : Dict String String
  pub dc_map : Dict String String

abbrev pub profile_map : ProfileMap → Bool → Dict String String
profile_map m on_battery = if on_battery then m.dc_map else m.ac_map

-- `ProfileMap.get`; `none` is the `KeyError`.
unfoldable pub get_profile : ProfileMap → String → Bool → Option String
unfolding lookup
get_profile m profile on_battery = lookup profile (profile_map m on_battery)

-- `ProfileMap.keys`
unfoldable pub profile_keys : ProfileMap → Bool → List String
profile_keys m on_battery = keys (profile_map m on_battery)

pub record PpdConfig : Type 0 where
  pub default_profile : String
  pub battery_detection : Bool
  pub ppd_to_tuned : ProfileMap
  pub tuned_to_ppd : ProfileMap
  pub sysfs_acpi_monitor : Bool

-- `set(l)`
unfoldable pub to_set : List String → List String
unfolding add
to_set [] = []
to_set (x ∷ xs) = add x (to_set xs)

-- The items of a dict, the other way round.
unfoldable pub swapped : Dict String String → Dict String String
swapped [] = []
swapped ((k, v) ∷ d) = (v, k) ∷ swapped d

-- `{v: k for k, v in d.items()}`
unfoldable pub reverse_map : Dict String String → Dict String String
unfolding swapped update
reverse_map d = update [] (swapped d)

-- The last check of the configuration: whether the mapping is injective.
unfoldable pub is_injective : Dict String String → Bool
unfolding to_set
is_injective d = eqb (length (to_set (values d))) (length d)

is_empty : List String → Bool
is_empty [] = true
is_empty (x ∷ xs) = false

-- A section of the file, and its option.
abbrev pub Sections : Type 0
Sections = Dict String (Dict String String)

abbrev option_in : Sections → String → String → Option String
option_in cfg section option = elim (lookup section cfg) [ none ↦ none | some d ↦ lookup option d ]

-- The checks of `load_from_file` once both mappings are there; `known` are TuneD's profiles.
unfoldable pub are_valid : List String → Dict String String → Dict String String → Bool
unfolding is_injective diff union is_empty
are_valid known ac dc =
    is_empty (diff (union (values ac) (values dc)) known)
    && (is_empty (diff (keys dc) (keys ac)) && (is_injective ac && is_injective dc))

-- The profiles that every configuration has.
unfoldable pub has_basic : Dict String String → Bool
unfolding lookup
has_basic d = has d power_saver && (has d balanced && has d performance)

-- The mapping on battery; `none` is the exception for a missing section.
unfoldable pub battery_map : Sections → Bool → Dict String String → Option (Dict String String)
unfolding lookup update
battery_map cfg false ac = some ac
battery_map cfg true ac = elim (lookup "battery" cfg) [
  | none ↦ none
  | some battery ↦ some (update ac battery)
]

abbrev default_in : Sections → String
default_in cfg = elim (option_in cfg "main" "default") [ none ↦ balanced | some p ↦ p ]

-- `getboolean` with a fallback: `none` is the `ValueError` for a text that is no Boolean.
module _ (to_boolean : String → Option Bool) where
  unfoldable pub get_boolean : Sections → String → String → Bool → Option Bool
  unfolding lookup
  get_boolean cfg section option fallback = elim (option_in cfg section option) [
    | none ↦ some fallback
    | some v ↦ to_boolean v
  ]

  -- The end of `load_from_file`, with the default profile and whether a battery is looked for.
  unfoldable pub make_config :
      List String
      → Sections
      → String
      → Bool
      → Dict String String
      → Dict String String
      → Option PpdConfig
  unfolding are_valid get_boolean reverse_map
  make_config known cfg default battery ac dc =
      if are_valid known ac dc
      then (elim (get_boolean cfg "main" "sysfs_acpi_monitor" true) [
        | none ↦ none
        | some monitor ↦ some (record {
          default_profile = default;
          battery_detection = battery;
          ppd_to_tuned = record { ac_map = ac; dc_map = dc };
          tuned_to_ppd = record { ac_map = reverse_map ac; dc_map = reverse_map dc };
          sysfs_acpi_monitor = monitor;
        })
      ])
      else none

  -- `load_from_file` for a file that could be parsed; `none` is an exception.
  unfoldable pub load_config : List String → Sections → Option PpdConfig
  unfolding lookup has_basic get_boolean battery_map make_config
  load_config known cfg = elim (lookup "profiles" cfg) [
    | none ↦ none
    | some ac ↦
        if has_basic ac && has ac (default_in cfg)
        then (elim (get_boolean cfg "main" "battery_detection" (has cfg "battery")) [
          | none ↦ none
          | some detection ↦ elim (battery_map cfg detection ac) [
            | none ↦ none
            | some dc ↦ make_config known cfg (default_in cfg) detection ac dc
          ]
        ])
        else none
  ]
