-- ===== src/Profiles/Merger.antt =====
-- tuned/profiles/merger.py: `none` stands for the `TypeError` of `+` on unlike values.
pub mod Units
pub mod Script
pub mod Prepend
pub mod Total
use tuned.Base.{String, Option, none, some, List, [], ◌∷◌, ◌++◌, ◌<>◌, reverse}
use tuned.Base.{◌==◌, contains, string_eq, if◌then◌else◌}
use tuned.Base.Dict.{Dict, lookup, insert, erase, update, keys}
use tuned.Base.Names.{inter}
use tuned.Profiles.Unit.{Value, text, paths, Options, ProfileUnit, Profile, empty_profile}
use tuned.Profiles.Unit.{is_text, erase_all}

-- `d.move_to_end(k, last=False)`, which the merger calls for keys of `d` alone
unfoldable pub move_to_front : String → Options → Options
move_to_front k d = elim (lookup k d) [ none ↦ d | some v ↦ (k, v) ∷ erase k d ]

-- The loop over the new variables, in reverse.
unfoldable pub prepend_all : List String → List String → Options → Options
unfolding move_to_front
prepend_all overwritten [] d = d
prepend_all overwritten (k ∷ ks) d =
    prepend_all overwritten ks (if contains overwritten k then d else move_to_front k d)

-- The newer variables, merged into those that the profile keeps.
unfoldable pub update_variables : Options → ProfileUnit → Options
unfolding prepend_all update inter
update_variables before unit =
    let overwritten = inter (keys before) (keys unit.options) in
    let after = update before unit.options in
    if unit.prepend then prepend_all overwritten (reverse (keys unit.options)) after else after

-- A unit of type `variables`: its options become variables of the profile.
unfoldable pub merge_variables : Options → ProfileUnit → Options
unfolding update_variables
merge_variables variables unit = update_variables (if unit.replace then [] else variables) unit

-- `a + b`
unfoldable pub concat : Value → Value → Option Value
concat (text s) (text t) = some (text (s <> t))
concat (paths s) (paths t) = some (paths (s ++ t))
concat _ _ = none

-- The scripts of the older unit come first.
unfoldable pub join_scripts : Value → Options → Option Options
unfolding concat
join_scripts script d = elim (lookup "script" d) [
  | none ↦ none
  | some new ↦ elim (concat script new) [ none ↦ none | some both ↦ some (insert "script" both d) ]
]

-- The options of a unit that both profiles have, its dropped options already gone.
unfoldable pub merge_options : String → Options → Options → Option Options
unfolding join_scripts update
merge_options unit_name old new =
    if unit_name == "script"
    then (elim (lookup "script" old) [
      | none ↦ some (update old new)
      | some script ↦ join_scripts script (update old new)
    ])
    else some (update old new)

abbrev pub first_given {ℓ} : {A : Type ℓ} → Option A → Option A → Option A
first_given none old = old
first_given (some v) old = some v

abbrev pub drop_options : Option (List String) → Options → Options
drop_options none d = d
drop_options (some ks) d = erase_all ks d

-- The older unit with what the newer one sets, and with the merged options.
abbrev pub set_fields : ProfileUnit → ProfileUnit → Options → ProfileUnit
set_fields old unit options = record old {
  type = unit.type;
  enabled = unit.enabled;
  devices = unit.devices;
  priority = first_given unit.priority old.priority;
  devices_udev_regex = first_given unit.devices_udev_regex old.devices_udev_regex;
  cpuinfo_regex = first_given unit.cpuinfo_regex old.cpuinfo_regex;
  uname_regex = first_given unit.uname_regex old.uname_regex;
  script_pre = first_given unit.script_pre old.script_pre;
  script_post = first_given unit.script_post old.script_post;
  options = options;
}

-- The last branch of `_merge_two`: the older unit is updated from the first_given one.
unfoldable pub update_unit : String → ProfileUnit → ProfileUnit → Option ProfileUnit
unfolding merge_options erase_all
update_unit unit_name old unit =
    elim (merge_options unit_name (drop_options unit.drop old.options) unit.options) [
      | none ↦ none
      | some options ↦ some (set_fields old unit options)
    ]

abbrev install : String → ProfileUnit → Profile → Profile
install unit_name unit a = record a { units = insert unit_name unit a.units }

-- One round of the loop over the newer profile's units.
unfoldable pub merge_unit : String → ProfileUnit → Profile → Option Profile
unfolding merge_variables update_unit is_text
merge_unit unit_name unit a =
    if is_text unit.type "variables"
    then some (record a { variables = merge_variables a.variables unit })
    else elim (lookup unit_name a.units) [
      | none ↦ some (install unit_name unit a)
      | some old ↦
          if unit.replace
          then some (install unit_name unit a)
          else elim (update_unit unit_name old unit) [
            | none ↦ none
            | some merged ↦ some (install unit_name merged a)
          ]
    ]

unfoldable pub merge_units : Dict String ProfileUnit → Profile → Option Profile
unfolding merge_unit
merge_units [] a = some a
merge_units ((name, unit) ∷ rest) a = elim (merge_unit name unit a) [
  | none ↦ none
  | some a' ↦ merge_units rest a'
]

unfoldable pub merge_two : Profile → Profile → Option Profile
unfolding merge_units update
merge_two a b =
    merge_units b.units
      (record a { name = first_given a.name b.name; options = update a.options b.options })

unfoldable pub merge_from : Profile → List Profile → Option Profile
unfolding merge_two
merge_from a [] = some a
merge_from a (b ∷ rest) = elim (merge_two a b) [ none ↦ none | some a' ↦ merge_from a' rest ]

-- `reduce(self._merge_two, configs, Profile())`
unfoldable pub merge : List Profile → Option Profile
unfolding merge_from
merge = merge_from empty_profile
