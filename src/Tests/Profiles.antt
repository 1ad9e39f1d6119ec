-- ===== src/Tests/Profiles.antt =====
-- Two profiles, one that includes the other.
use mathlib.Core.Option.{or_else}
use tuned.Base.{
  String, ◌≡◌, ◌≢◌, refl, true, false, none, some, List, [], ◌∷◌, ◌++◌, arith, ◌==◌, string_eq,
  if◌then◌else◌,
}
use tuned.Base.Dict.{lookup, keys}
use tuned.Base.Names.{diff}
use tuned.Profiles.Unit.{Value, text, paths, Options, Profile, ProfileUnit}
use tuned.Profiles.Loader.{load_profile, get_config}
use tuned.Profiles.Loader.Includes.{Ends, unread, load_profile-Ends}
use tuned.Profiles.Merger.{merge, update_unit, merge_variables}
use tuned.Profiles.Merger.Units.{lookup-update_unit, dropped}
use tuned.Profiles.Merger.Script.{script_twice-update_unit}
use tuned.Profiles.Merger.Prepend.{keys-prepend}
use tuned.Profiles.Merger.Total.{merge-total, HasScripts}
use mathlib.Core.Option.{Option}
use tuned.Base.{◌<>◌}
use tuned.Base.{Bool}
use tuned.Base.{contains}

-- Splits no list: `drop` is one option here.
abbrev one_option : Value → List String
one_option (text s) = s ∷ []
one_option _ = []

abbrev unit_of : String → Options → ProfileUnit
unit_of name options = record {
  name = name;
  priority = none;
  type = text name;
  enabled = true;
  replace = false;
  prepend = false;
  drop = none;
  devices = text "*";
  devices_udev_regex = none;
  cpuinfo_regex = none;
  uname_regex = none;
  script_pre = none;
  script_post = none;
  options = options;
}

abbrev old_disk : ProfileUnit
old_disk = unit_of "disk" (("readahead", text ">4096") ∷ ("spindown", text "6") ∷ [])

abbrev new_disk : ProfileUnit
new_disk = record (unit_of "disk" (("readahead", text ">8192") ∷ [])) {
  drop = some ("spindown" ∷ []);
}

abbrev old_script : ProfileUnit
old_script = unit_of "script" (("script", paths ("/a/x.sh" ∷ [])) ∷ [])

abbrev new_script : ProfileUnit
new_script = unit_of "script" (("script", paths ("/b/y.sh" ∷ [])) ∷ [])

abbrev empty_script : ProfileUnit
empty_script = unit_of "script" []

abbrev old_variables : Options
old_variables = ("cpus", text "1") ∷ ("mem", text "2") ∷ []

abbrev new_variables : ProfileUnit
new_variables = record (unit_of "variables" (("mem", text "3") ∷ ("net", text "4") ∷ [])) {
  prepend = true;
}

abbrev base_profile : Profile
base_profile = record {
  name = some "base";
  options = [];
  variables = [];
  units = ("disk", old_disk) ∷ ("script", old_script) ∷ [];
}

abbrev child_profile : Profile
child_profile = record {
  name = some "child";
  options = [];
  variables = [];
  units = ("disk", new_disk) ∷ ("script", new_script) ∷ ("variables", new_variables) ∷ [];
}

different : (a b : String) → (a == b) ≡ false → a ≢ b
different a b h e = ground arith

lookup-update_unit_example :
    (merged : ProfileUnit) × (update_unit "disk" old_disk new_disk ≡ some merged)
    × ((k : String)
        → lookup k merged.options
          ≡ or_else
              (lookup k new_disk.options)
              (if dropped new_disk.drop k then none else lookup k old_disk.options))
unfolding lookup string_eq
lookup-update_unit_example =
    lookup-update_unit "disk" old_disk new_disk (different "disk" "script" refl) (refl, tt)

script_twice-update_unit_example :
    (merged : ProfileUnit) × (update_unit "script" old_script empty_script ≡ some merged)
    × (lookup "script" merged.options ≡ some (paths ("/a/x.sh" ∷ "/a/x.sh" ∷ [])))
unfolding lookup string_eq
script_twice-update_unit_example =
    script_twice-update_unit old_script empty_script ("/a/x.sh" ∷ []) tt refl refl

keys-prepend_example :
    keys (merge_variables old_variables new_variables)
    ≡ diff (keys new_variables.options) (keys old_variables) ++ keys old_variables
unfolding lookup string_eq
keys-prepend_example = keys-prepend old_variables new_variables (refl, (refl, tt)) refl refl

merge-total_example :
    (p : Profile) × (merge (base_profile ∷ child_profile ∷ []) ≡ some p) × HasScripts p.units
unfolding lookup string_eq
merge-total_example = merge-total (base_profile ∷ child_profile ∷ []) (
  ((refl, (refl, tt)), tt, ((refl, tt), tt, tt)),
  (((refl, tt), tt, ((refl, tt), tt, ((refl, (refl, tt)), tt, tt))), tt),
)

-- Two files of profiles that include each other.
abbrev profile_files : List String
profile_files = "/etc/tuned/a/tuned.conf" ∷ "/etc/tuned/b/tuned.conf" ∷ []

abbrev exists : String → Bool
exists f = contains profile_files f

abbrev file_in : String → String → String
file_in dir name = dir <> ("/" <> (name <> "/tuned.conf"))

abbrev read_file : String → Option (List (String × Options))
read_file f =
    if f == "/etc/tuned/a/tuned.conf"
    then some (("main", ("include", text "b") ∷ []) ∷ [])
    else some (("main", ("include", text "a") ∷ []) ∷ [])

load_profile-Ends_example : Ends profile_files (unread profile_files []) (
    load_profile
      (get_config exists file_in ("/etc/tuned" ∷ []))
      read_file
      one_option
      one_option
      3
      ("a" ∷ [])
      []
      [])
load_profile-Ends_example =
    load_profile-Ends exists file_in ("/etc/tuned" ∷ []) read_file one_option one_option
      profile_files (λ f h. h) 3 ("a" ∷ []) [] [] (omega arith)
