-- ===== src/Daemon/Switch.antt =====
-- The daemon's choice of a profile, in tuned/daemon/daemon.py. The profile loader is a parameter
-- here, and so are the files in which the active profile is kept.
pub mod Outcome
pub mod Running
use tuned.Base.{String, Bool, true, false, not, ◌&&◌, Option, none, some, List, [], ◌∷◌, ◌++◌}
use tuned.Base.{◌==◌, contains, string_eq, if◌then◌else◌, ltb, length}
use tuned.Base.Text.{words}
use tuned.Profiles.Unit.{Profile}

-- The daemon's state. `running` says that the thread is alive, and `signals` are the profile names
-- and the result of each `profile_changed` signal, the last one first.
pub record Daemon : Type 0 where
  pub profile : Option Profile
  pub manual : Option Bool
  pub active_profiles : List String
  pub post_loaded : Option String
  pub running : Bool
  pub profile_applied : Bool
  pub profile_switch : Bool
  pub signals : List (Option String × Bool)
  -- the names, and whether they were set by hand, as they were saved last
  pub saved_active : Option (Option String × Bool)
  pub saved_post_loaded : Option (Option String)

abbrev pub text_or_empty : Option String → String
text_or_empty none = ""
text_or_empty (some s) = s

-- `_notify_profile_changed`
abbrev pub notify : Option String → Bool → Daemon → Daemon
notify names result d = record d { signals = (names, result) ∷ d.signals }

unfoldable pub all_known : List String → List String → Bool
all_known known [] = true
all_known known (name ∷ names) = contains known name && all_known known names

-- The profiles to load: the given ones, and then the post-loaded one.
abbrev pub with_post_loaded : Option String → List String → List String
with_post_loaded none names = names
with_post_loaded (some p) names = if p == "" then names else names ++ (p ∷ [])

-- `_set_post_loaded_profile`; false is an exception.
unfoldable pub set_post_loaded_profile : Option String → Daemon → Bool × Daemon
unfolding words
set_post_loaded_profile none d = (true, record d { post_loaded = none })
set_post_loaded_profile (some name) d =
    if name == ""
    then (true, record d { post_loaded = none })
    else if ltb 1 (length (words name))
    then (false, d)
    else (true, record d { post_loaded = some name })

-- The loader: the known names, and what `load` answers, `none` for `InvalidProfileException`.
module _ (known : List String) (load : List String → Option Profile) where
  -- The end of `_load_profiles` for a list of known profiles.
  unfoldable pub load_known : String → Bool → List String → Daemon → Bool × Daemon
  unfolding words
  load_known names manual [] d =
      (true, record d { profile = none; manual = some manual; active_profiles = words names })
  load_known names manual (p ∷ ps) d = elim (load (p ∷ ps)) [
    | none ↦ (false, notify (some names) false d)
    | some profile ↦ (
      true,
      record d { profile = some profile; manual = some manual; active_profiles = words names },
    )
  ]

  -- `_load_profiles`
  unfoldable pub load_profiles : Option String → Bool → Daemon → Bool × Daemon
  unfolding load_known all_known words
  load_profiles profile_names manual d =
      let names = text_or_empty profile_names in
      let profile_list = with_post_loaded d.post_loaded (words names) in
      if all_known known profile_list
      then load_known names manual profile_list d
      else (false, notify (some names) false d)

  -- `set_profile`
  unfoldable pub set_profile : Option String → Bool → Daemon → Bool × Daemon
  unfolding load_profiles
  set_profile profile_names manual d =
      if d.running
      then (false, notify profile_names false d)
      else load_profiles profile_names manual d

  unfoldable pub save_both :
      Option String → Bool → Option String → Bool → Bool × Daemon → Bool × Daemon
  save_both active_profiles manual post_loaded save_instantly (ok, d) =
      if ok && save_instantly
      then (
        ok,
        record d {
          saved_active = some (active_profiles, manual);
          saved_post_loaded = some post_loaded;
        },
      )
      else (ok, d)

  -- `set_all_profiles`
  unfoldable pub set_all_profiles :
      Option String → Bool → Option String → Bool → Daemon → Bool × Daemon
  unfolding set_post_loaded_profile load_profiles save_both
  set_all_profiles active_profiles manual post_loaded save_instantly d =
      if d.running
      then (false, notify active_profiles false d)
      else (let (ok, d') = set_post_loaded_profile post_loaded d in
          if ok
          then save_both active_profiles manual post_loaded save_instantly
              (load_profiles active_profiles manual d')
          else (false, d'))

  -- `_get_startup_profile`, for what the files say and what is recommended
  unfoldable pub startup_profile : Option String → Option Bool → String → Option String × Bool
  startup_profile profile (some true) recommended = (profile, true)
  startup_profile profile (some false) recommended = (some recommended, false)
  startup_profile none none recommended = (some recommended, false)
  startup_profile (some p) none recommended = (some p, true)

  abbrev given_or_startup : Option String → Option String × Bool → Option String × Bool
  given_or_startup none startup = startup
  given_or_startup (some names) startup = (some names, true)

  -- `_init_profile`
  unfoldable pub init_profile :
      Option String → Option String → Option Bool → String → Option String → Daemon → Bool × Daemon
  unfolding startup_profile set_all_profiles
  init_profile profile_names stored stored_manual recommended post_loaded d =
      let (names, manual) =
        given_or_startup profile_names (startup_profile stored stored_manual recommended) in
      set_all_profiles names manual post_loaded false
        (record d { profile = none; manual = none; active_profiles = []; post_loaded = none })

-- `start`: whether a thread was started
unfoldable pub start : Daemon → Bool × Daemon
start d = if d.running then (false, d) else elim d.profile [
  | none ↦ (false, d)
  | some p ↦ (true, record d { running = true; profile_switch = false })
]

-- `stop`, which waits for the thread; the thread has cleared `_profile_applied` at its end.
unfoldable pub stop : Bool → Daemon → Bool × Daemon
stop profile_switch d =
    if d.running
    then (
      true,
      record d {
        running = false;
        profile_applied = false;
        profile_switch = if profile_switch then true else d.profile_switch;
      },
    )
    else (false, d)

-- `verify_profile`, with what the unit manager answers
unfoldable pub verify_profile : Bool → Daemon → Bool
verify_profile verified d = if not d.running then false else elim d.profile [
  | none ↦ false
  | some p ↦ if not d.profile_applied then false else verified
]
