-- ===== src/Utils/Files.antt =====
-- tuned/utils/commands.py: the files that keep the active and the post-loaded profile.
pub mod RoundTrip
use tuned.Base.{
  String, ◌<>◌, Bool, true, false, not, ◌&&◌, Option, none, some, if◌then◌else◌, ◌==◌, string_eq,
}
use tuned.Base.Text.{strip}

-- A file is not there, or it has a content, or reading it fails otherwise.
pub data FileState : Type 0 where
  absent : FileState
  content : String → FileState
  unreadable : FileState

-- `ACTIVE_PROFILE_FILE`, `PROFILE_MODE_FILE` and `POST_LOADED_PROFILE_FILE`
pub record ProfileFiles : Type 0 where
  pub active : FileState
  pub mode : FileState
  pub post_loaded : FileState

-- The stripped text of a file, empty if it is not there; `none` is the `TunedException`.
unfoldable pub read_name : FileState → Option String
unfolding strip
read_name absent = some ""
read_name (content s) = some (strip s)
read_name unreadable = none

unfoldable pub name_or_none : String → Option String
name_or_none s = if s == "" then none else some s

-- The mode as it is understood: manual, automatic, or unknown. `none` is the `TunedException` for
-- any other text.
unfoldable pub read_mode : String → Option (Option Bool)
read_mode mode =
    if mode == ""
    then some none
    else if mode == "manual"
    then some (some true)
    else if mode == "auto"
    then some (some false)
    else none

-- `get_active_profile`
unfoldable pub get_active_profile : ProfileFiles → Option (Option String × Option Bool)
unfolding read_name read_mode name_or_none
get_active_profile f = elim (read_name f.active) [
  | none ↦ none
  | some name ↦ elim (read_name f.mode) [
    | none ↦ none
    | some mode ↦ elim (read_mode mode) [
      | none ↦ none
      | some manual ↦ some (name_or_none name, manual)
    ]
  ]
]

-- `get_post_loaded_profile`
unfoldable pub get_post_loaded_profile : ProfileFiles → Option (Option String)
unfolding read_name name_or_none
get_post_loaded_profile f = elim (read_name f.post_loaded) [
  | none ↦ none
  | some name ↦ some (name_or_none name)
]

unfoldable pub name_line : Option String → String
name_line none = ""
name_line (some name) = name <> "\n"

-- `save_active_profile`, for whether each file can be opened: the files, and whether it returns.
unfoldable pub save_active_profile :
    Bool → Bool → Option String → Bool → ProfileFiles → Bool × ProfileFiles
unfolding name_line
save_active_profile opens_active opens_mode name manual f =
    if opens_active
    then (let f' = record f { active = content (name_line name) } in
        if opens_mode
        then (true, record f' { mode = content ((if manual then "manual" else "auto") <> "\n") })
        else (false, f'))
    else (false, f)

-- `save_post_loaded_profile`
unfoldable pub save_post_loaded_profile : Bool → Option String → ProfileFiles → Bool × ProfileFiles
unfolding name_line
save_post_loaded_profile opens name f =
    if opens then (true, record f { post_loaded = content (name_line name) }) else (false, f)
