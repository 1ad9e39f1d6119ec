-- ===== src/Profiles/Loader.antt =====
-- tuned/profiles/loader.py and locator.py: the files of the profiles that are named, and of those
-- that they include. The file system, the parser of a file and the variables are parameters.
use Prim.Native.String
use Prim.Native.Char.{code}
pub mod Includes
use tuned.Base.{
  ℕ, zero, suc, String, Bool, true, false, not, Option, none, some, List, [], ◌∷◌, ◌++◌, reverse,
}
use tuned.Base.{◌<>◌, ◌&&◌, ◌||◌, leb, select, ◌==◌, contains, string_eq, if◌then◌else◌, eqb}
use tuned.Base.Dict.{Dict, lookup, insert, erase}
use tuned.Profiles.Merger.{merge}
use tuned.Profiles.Unit.{ProfileUnit, Value, Options, Profile, create_profile}

-- What `get_config` answers: `None`, the empty string or a file.
pub data Found : Type 0 where
  missing skipped : Found
  found : String → Found

-- What `_load_profile` does with the profiles and the processed files: it returns them, or it
-- raises `InvalidProfileException`, or the fuel of the model is used up.
pub data Loading : Type 0 where
  loaded : List Profile → List String → Loading
  invalid exhausted : Loading

-- `profile_name[0:1] == "-"`, and the rest of such a name
unfoldable pub is_conditional : String → Bool
is_conditional String.[] = false
is_conditional (String.◌∷◌ c s) = eqb (code c) b'-'

unfoldable pub plain_name : String → String
plain_name String.[] = String.[]
plain_name (String.◌∷◌ c s) = if eqb (code c) b'-' then s else String.◌∷◌ c s

-- The file system: whether a path is a file, and the configuration file of a profile's name in a
-- directory, by `basename`, `join` and `normpath`.
module _ (is_file : String → Bool) (config_filename : String → String → String) where
  -- The loop of `get_config` over the directories, the last one first.
  unfoldable pub search_config : List String → String → List String → Found → Found
  search_config [] name skip_files ret = ret
  search_config (dir ∷ dirs) name skip_files ret =
      let file = config_filename dir name in
      let later = search_config dirs name skip_files ret in
      if contains skip_files file
      then search_config dirs name skip_files skipped
      else if is_file file
      then found file
      else later

  unfoldable pub or_skipped : Bool → Found → Found
  or_skipped conditional missing = if conditional then skipped else missing
  or_skipped conditional skipped = skipped
  or_skipped conditional (found f) = found f

  -- `get_config`
  unfoldable pub get_config : List String → String → List String → Found
  unfolding search_config or_skipped is_conditional plain_name
  get_config load_directories name skip_files =
      or_skipped (is_conditional name)
        (search_config (reverse load_directories) (plain_name name) skip_files missing)

-- `get_config` of the loader's locator, `_load_config_data`, `none` where it raises, and the names
-- in the option `include`, its variables expanded.
module _ (locate : String → List String → Found)
    (load_config_data : String → Option (Dict String Options)) (include_names : Value → List String)
    (split_drop : Value → List String) where
  -- `_load_profile`; the fuel bounds the depth of the inclusions.
  unfoldable pub load_profile : ℕ → List String → List Profile → List String → Loading
  unfolding create_profile
  load_profile fuel [] profiles processed = loaded profiles processed
  load_profile zero (name ∷ names) profiles processed = exhausted
  load_profile (suc fuel) (name ∷ names) profiles processed = elim (locate name processed) [
    | missing ↦ invalid
    | skipped ↦ load_profile (suc fuel) names profiles processed
    | found file ↦ elim (load_config_data file) [
      | none ↦ invalid
      | some config ↦
          let profile = create_profile split_drop name config in
          elim (lookup "include" profile.options) [
            | none ↦
                load_profile (suc fuel) names (profiles ++ (profile ∷ []))
                  (processed ++ (file ∷ []))
            | some v ↦
                elim (load_profile fuel (include_names v) profiles (processed ++ (file ∷ []))) [
                  | invalid ↦ invalid
                  | exhausted ↦ exhausted
                  | loaded before read ↦
                      load_profile (suc fuel) names
                        (before
                          ++ (record profile { options = erase "include" profile.options } ∷ []))
                        read
                ]
          ]
    ]
  ]

-- One character of `[a-zA-Z0-9_.-]`
unfoldable pub is_safe_char : ℕ → Bool
is_safe_char c =
    (leb b'a' c && leb c b'z')
    || (leb b'A' c && leb c b'Z')
    || (leb b'0' c && leb c b'9')
    || eqb c b'_'
    || eqb c b'.'
    || eqb c b'-'

-- The expression's `$` also matches before a newline at the end.
safe_rest : String → Bool
unfolding is_safe_char
safe_rest String.[] = true
safe_rest (String.◌∷◌ c s) = is_safe_char (code c) && safe_rest s || eqb (code c) 10 && s == ""

-- `safe_name`
unfoldable pub safe_name : String → Bool
unfolding safe_rest
safe_name String.[] = false
safe_name (String.◌∷◌ c s) = is_safe_char (code c) && safe_rest s

-- `" ".join(names)`
unfoldable pub join_names : List String → String
join_names [] = ""
join_names (name ∷ []) = name
join_names (name ∷ other ∷ names) = name <> (" " <> join_names (other ∷ names))

module _ (expand : Value → Value) where
  abbrev expand_given : Option Value → Option Value
  expand_given none = none
  expand_given (some v) = some (expand v)

  -- `_expand_vars_in_devices` and `_expand_vars_in_regexes`
  unfoldable pub expand_units : Dict String ProfileUnit → Dict String ProfileUnit
  expand_units [] = []
  expand_units ((name, unit) ∷ units) =
      (
        name,
        record unit {
          devices = expand unit.devices;
          cpuinfo_regex = expand_given unit.cpuinfo_regex;
          uname_regex = expand_given unit.uname_regex;
        },
      )
      ∷ expand_units units

-- The end of `load`: the profiles merged, with the variables that are known after them to expand.
unfoldable pub finish_loading : (Options → Value → Value) → List String → Loading → Option Profile
unfolding merge join_names expand_units
finish_loading expand names invalid = none
finish_loading expand names exhausted = none
finish_loading expand names (loaded profiles processed) = elim (merge profiles) [
  | none ↦ none
  | some p ↦ some (record p {
    name = some (join_names names);
    units = expand_units (expand p.variables) p.units;
  })
]

-- `load` for a list of names, `none` for an exception; `loading` is `_load_profile` from the start
-- with enough fuel.
unfoldable pub load_all :
    (Options → Value → Value) → (List String → Loading) → List String → Option Profile
unfolding safe_name select finish_loading
load_all expand loading names = elim (select safe_name names) [
  | [] ↦ none
  | name ∷ others ↦ finish_loading expand (name ∷ others) (loading (name ∷ others))
]
