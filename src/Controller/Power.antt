-- ===== src/Controller/Power.antt =====
-- tuned/daemon/controller.py: the calls that start, stop, reload and switch the daemon. Messages
-- and log captures are left out; the recommended profile is a parameter, and so are the files.
pub mod Running
use tuned.Base.{
  String, ℕ, Bool, true, false, not, ◌&&◌, ◌||◌, Option, none, some, List, [], ◌∷◌, ◌==◌, string_eq,
  if◌then◌else◌,
}
use tuned.Base.Dict.{Dict, insert, erase}
use tuned.Profiles.Unit.{Profile}
use tuned.Daemon.Switch.{
  Daemon, set_profile, set_all_profiles, init_profile, start, stop, verify_profile, text_or_empty,
}
use tuned.Utils.Files.{ProfileFiles, get_active_profile, get_post_loaded_profile}

-- The daemon, and the timers of `TimerStore` by their tokens.
pub record Control : Type 0 where
  pub daemon : Daemon
  pub timers : Dict String ℕ

-- `TimerStore.store_timer`, `drop_timer` and `cancel_all`
unfoldable pub store_timer : String → ℕ → Control → Control
unfolding insert
store_timer token timer c = record c { timers = insert token timer c.timers }

unfoldable pub drop_timer : String → Control → Control
unfolding erase
drop_timer token c = record c { timers = erase token c.timers }

abbrev pub cancel_all_timers : Control → Control
cancel_all_timers c = record c { timers = [] }

-- A call that was not authorized: the caller is the empty text, and none where nothing was checked.
unfoldable pub is_denied : Option String → Bool
is_denied none = false
is_denied (some caller) = caller == ""

-- `is_enabled` of the daemon
abbrev pub is_enabled : Daemon → Bool
is_enabled d = elim d.profile [ none ↦ false | some _ ↦ true ]

-- `start`, for whether TuneD runs as a daemon
unfoldable pub start_call : Bool → Option String → Control → Bool × Control
unfolding is_denied start
start_call as_daemon caller c =
    if is_denied caller
    then (false, c)
    else if as_daemon && c.daemon.running
    then (true, c)
    else if as_daemon && not (is_enabled c.daemon)
    then (false, c)
    else (let (started, d) = start c.daemon in (started, record c { daemon = d }))

-- `_stop`
unfoldable pub stop_running : Bool → Control → Bool × Control
unfolding stop
stop_running profile_switch c =
    if not c.daemon.running
    then (true, cancel_all_timers c)
    else (let (stopped, d) = stop profile_switch c.daemon in
        (stopped, cancel_all_timers (record c { daemon = d })))

-- `stop`
unfoldable pub stop_call : Option String → Control → Bool × Control
unfolding is_denied stop_running
stop_call caller c = if is_denied caller then (false, c) else stop_running false c

module _ (known : List String) (load : List String → Option Profile) where
  -- `reload_profile_config` of the daemon, which reads the files; false is a `TunedException`.
  unfoldable pub reload_profile_config : ProfileFiles → String → Daemon → Bool × Daemon
  unfolding get_post_loaded_profile get_active_profile init_profile
  reload_profile_config files recommended d = elim (get_post_loaded_profile files) [
    | none ↦ (false, d)
    | some post_loaded ↦ elim (get_active_profile files) [
      | none ↦ (false, d)
      | some active ↦
          let (stored, manual) = active in
          init_profile known load none stored manual recommended post_loaded d
    ]
  ]

  -- `reload`
  unfoldable pub reload_call :
      Bool → ProfileFiles → String → Option String → Control → Bool × Control
  unfolding is_denied stop_running reload_profile_config start_call
  reload_call as_daemon files recommended caller c =
      if is_denied caller
      then (false, c)
      else (let (stop_ok, c') = if c.daemon.running then stop_running true c else (true, c) in
          if stop_ok
          then (let (loaded, d) = reload_profile_config files recommended c'.daemon in
              let c'' = record c' { daemon = d } in
              if loaded then start_call as_daemon none c'' else (false, c''))
          else (false, c'))

  -- `_switch_profile`: a daemon that was running is started again in any case.
  unfoldable pub switch_to : String → Bool → Control → Bool × Control
  unfolding set_profile start stop
  switch_to profile_name manual c =
      let was_running = c.daemon.running in
      let stopped = if was_running then (stop true c.daemon).1 else c.daemon in
      let (success, d) = set_profile known load (some profile_name) manual stopped in
      (success, record c { daemon = if was_running then (start d).1 else d })

  -- `switch_profile`, for whether the name is valid
  unfoldable pub switch_profile_call : Bool → String → Option String → Control → Bool × Control
  unfolding is_denied switch_to
  switch_profile_call valid profile_name caller c =
      if is_denied caller
      then (false, c)
      else if not valid
      then (false, c)
      else switch_to profile_name true c

  -- `auto_profile`
  unfoldable pub auto_profile : String → Option String → Control → Bool × Control
  unfolding is_denied switch_to
  auto_profile recommended caller c =
      if is_denied caller then (false, c) else switch_to recommended false c

  -- `disable`
  unfoldable pub disable : Option String → Control → Bool × Control
  unfolding is_denied stop set_all_profiles
  disable caller c =
      if is_denied caller
      then (false, c)
      else (let d = if c.daemon.running then (stop false c.daemon).1 else c.daemon in
          if is_enabled d
          then (let (ok, d') = set_all_profiles known load none true none true d in
              (ok, record c { daemon = d' }))
          else (true, record c { daemon = d }))

-- `active_profile`
unfoldable pub active_profile : Option String → Control → Option String
unfolding is_denied
active_profile caller c =
    if is_denied caller then some "" else elim c.daemon.profile [ none ↦ some "" | some p ↦ p.name ]

-- What `profile_mode` says of the mode: manual, automatic, or unknown with an error or a refusal.
pub data Mode : Type 0 where
  manual_mode automatic_mode unknown_mode : Mode

mode_of : Bool → Mode
mode_of true = manual_mode
mode_of false = automatic_mode

-- `profile_mode`
unfoldable pub profile_mode : ProfileFiles → Option String → Control → Mode
unfolding is_denied get_active_profile mode_of
profile_mode files caller c = if is_denied caller then unknown_mode else elim c.daemon.manual [
  | some manual ↦ mode_of manual
  | none ↦ elim (get_active_profile files) [
    | none ↦ unknown_mode
    | some active ↦
        let (profile, manual) = active in
        elim manual [
          | some m ↦ mode_of m
          | none ↦ elim profile [ none ↦ automatic_mode | some p ↦ manual_mode ]
        ]
  ]
]

-- `post_loaded_profile`
unfoldable pub post_loaded_call : Option String → Control → String
unfolding is_denied
post_loaded_call caller c = if is_denied caller then "" else text_or_empty c.daemon.post_loaded

-- `is_running`
unfoldable pub is_running : Option String → Control → Bool
unfolding is_denied
is_running caller c = if is_denied caller then false else c.daemon.running

-- `verify_profile`, for what the unit manager answers
unfoldable pub verify_call : Bool → Option String → Control → Bool
unfolding is_denied verify_profile
verify_call verified caller c = if is_denied caller then false else verify_profile verified c.daemon
