-- ===== src/Plugins/Tuning.antt =====
-- The tuning of one instance, in tuned/plugins/base.py: its scripts, its static and its dynamic
-- tuning, applied, verified, updated and removed.
use Prim.Native.String
pub mod Dynamic
pub mod Scripts
use tuned.Base.{
  String, ◌<>◌, Bool, true, false, not, ◌&&◌, ◌||◌, Option, none, some, List, [], ◌∷◌, ◌++◌,
}
use tuned.Base.{◌==◌, string_eq, starts_with, if◌then◌else◌, length, ltb, eqb}
use tuned.Base.Names.{union}
use tuned.Plugins.Instance.{Instance}
use tuned.Plugins.Driver.{Driver}
use tuned.Plugins.Commands.{World, apply_static, unapply_static}
use tuned.Plugins.Verify.{verify_static}
use tuned.Plugins.Driver.{Command}
use tuned.Plugins.Commands.{storage_get}
use tuned.Plugins.Commands.{check_and_save_value}

-- `consts.ROLLBACK_NONE`, `ROLLBACK_SOFT` and `ROLLBACK_FULL`
pub data Rollback : Type 0 where
  none_at_all soft full : Rollback

abbrev pub is_full : Rollback → Bool
is_full full = true
is_full _ = false

unfoldable pub ends_with_slash : String → Bool
ends_with_slash String.[] = true
ends_with_slash (String.◌∷◌ c String.[]) = String.◌∷◌ c String.[] == "/"
ends_with_slash (String.◌∷◌ c (String.◌∷◌ d s)) = ends_with_slash (String.◌∷◌ d s)

-- `os.path.join(p, "")`, which adds a slash to a path that neither ends in one nor is empty
unfoldable pub join_empty : String → String
unfolding ends_with_slash
join_empty p = if ends_with_slash p then p else p <> "/"

unfoldable pub starts_in_some : String → List String → Bool
unfolding join_empty
starts_in_some path [] = false
starts_in_some path (p ∷ ps) =
    let rest = starts_in_some path ps in if starts_with path (join_empty p) then true else rest

module _ (D : Driver) where
  open D use {run_script, realpath, profile_dirs, dynamic_tuning}
  open D use {pre_static, post_static, init_dynamic, update_dynamic, unapply_dynamic}

  -- `_safe_script_path`, which is called without `tmp_allowed`
  unfoldable pub safe_script_path : String → Bool
  unfolding starts_in_some
  safe_script_path path = starts_in_some (realpath path) profile_dirs

  abbrev script_arguments : String → Rollback → String → List String
  script_arguments op rollback dev =
      if is_full rollback then op ∷ "full_rollback" ∷ dev ∷ [] else op ∷ dev ∷ []

  -- The loop over the devices: every run is made, also after one that failed.
  unfoldable pub run_on_devices :
      String → String → Rollback → List String → Bool → World D → Bool × World D
  run_on_devices script op rollback [] ret w = (ret, w)
  run_on_devices script op rollback (dev ∷ devices) ret w =
      let (fine, sys) = run_script script (script_arguments op rollback dev) w.sys in
      run_on_devices script op rollback devices (ret && fine) (record w { sys = sys })

  -- `_call_device_script`: `None`, `False` or `True`
  unfoldable pub call_device_script :
      Option String → String → List String → Rollback → World D → Option Bool × World D
  unfolding safe_script_path run_on_devices
  call_device_script none op devices rollback w = (none, w)
  call_device_script (some script) op [] rollback w = (none, w)
  call_device_script (some script) op (dev ∷ devices) rollback w =
      if not (starts_with script "/")
      then (some false, w)
      else if not (safe_script_path script)
      then (some false, w)
      else (let (ret, w') = run_on_devices script op rollback (dev ∷ devices) true w in
          (some ret, w'))

  -- `_run_for_each_device`: once with no device where the plugin supports none
  for_devices : (Option String → World D → World D) → List String → World D → World D
  for_devices callback [] w = w
  for_devices callback (d ∷ ds) w = for_devices callback ds (callback (some d) w)

  unfoldable pub run_for_each_device :
      Bool → (Option String → World D → World D) → List String → World D → World D
  unfolding for_devices
  run_for_each_device supported callback devices w =
      if not supported then callback none w else for_devices callback devices w

  abbrev on_system : (D.Sys → D.Sys) → World D → World D
  on_system f w = record w { sys = f w.sys }

  -- The saved values of the options that dynamic tuning changes, for one device.
  save_dynamic : Instance → List Command → Option String → World D → World D
  unfolding check_and_save_value storage_get
  save_dynamic i [] device w = w
  save_dynamic i (c ∷ cs) device w =
      save_dynamic i cs device (check_and_save_value D i c device none w).1

  -- The options of dynamic tuning for which nothing is stored, read before any is saved.
  unsaved : Instance → List Command → Option String → World D → List Command × World D
  unfolding storage_get
  unsaved i [] device w = ([], w)
  unsaved i (c ∷ cs) device w =
      let (value, w') = storage_get D i c device w in
      let (rest, w'') = unsaved i cs device w' in
      (elim value [ none ↦ c ∷ rest | some v ↦ rest ], w'')

  find_command : String → List Command → Option Command
  find_command name [] = none
  find_command name (c ∷ cs) =
      let rest = find_command name cs in if c.name == name then some c else rest

  -- The commands of `_options_used_by_dynamic`, in its order. A subclass lists names of its own
  -- commands there; another name, which would raise a `KeyError`, is passed over.
  dynamic_commands : List String → List Command
  unfolding find_command
  dynamic_commands [] = []
  dynamic_commands (name ∷ names) =
      let rest = dynamic_commands names in
      elim (find_command name D.commands) [ none ↦ rest | some c ↦ c ∷ rest ]

  -- `_instance_apply_dynamic`
  unfoldable pub instance_apply_dynamic : Instance → Option String → World D → World D
  unfolding save_dynamic unsaved dynamic_commands
  instance_apply_dynamic i device w =
      let (cs, w') = unsaved i (dynamic_commands D.options_used_by_dynamic) device w in
      on_system (update_dynamic i device) (save_dynamic i cs device w')

  -- The static part of `instance_apply_tuning`.
  unfoldable pub static_part : Instance → World D → World D
  unfolding call_device_script apply_static
  static_part i w =
      if i.has_static_tuning
      then (call_device_script i.script_post "apply" i.assigned_devices soft (
          on_system (post_static i true) (
            apply_static D i i.assigned_devices (
              on_system (pre_static i true)
                (call_device_script i.script_pre "apply" i.assigned_devices soft w).1)))).1
      else w

  -- Its dynamic part.
  unfoldable pub dynamic_part : Bool → Instance → World D → World D
  unfolding run_for_each_device instance_apply_dynamic
  dynamic_part supported i w =
      if i.has_dynamic_tuning && dynamic_tuning
      then run_for_each_device supported (instance_apply_dynamic i) i.assigned_devices
          (on_system (init_dynamic i) w)
      else w

  -- The dynamic and the static part of `instance_unapply_tuning`.
  unfoldable pub undo_dynamic_part : Bool → Instance → World D → World D
  unfolding run_for_each_device
  undo_dynamic_part supported i w =
      if i.has_dynamic_tuning && dynamic_tuning
      then run_for_each_device supported (λ d. on_system (unapply_dynamic i d)) i.processed_devices
          w
      else w

  unfoldable pub undo_static_part : Instance → Rollback → World D → World D
  unfolding call_device_script unapply_static
  undo_static_part i rollback w =
      if i.has_static_tuning
      then (call_device_script i.script_pre "unapply" i.processed_devices rollback (
          on_system (post_static i false) (
            unapply_static D i i.processed_devices (
              on_system (pre_static i false)
                (call_device_script i.script_post "unapply" i.processed_devices rollback w).1)))).1
      else w

  abbrev is_false : Option Bool → Bool
  is_false none = false
  is_false (some b) = not b

  -- `instance_apply_tuning`
  unfoldable pub instance_apply_tuning : Bool → Instance → World D → Instance × World D
  unfolding static_part dynamic_part union
  instance_apply_tuning supported i w = if not i.active then (i, w) else (
    record i {
      processed_devices = union i.processed_devices i.assigned_devices;
      assigned_devices = [];
    },
    dynamic_part supported i (static_part i w),
  )

  -- `instance_update_tuning`
  unfoldable pub instance_update_tuning : Bool → Instance → World D → World D
  unfolding run_for_each_device
  instance_update_tuning supported i w =
      if i.active && (i.has_dynamic_tuning && dynamic_tuning)
      then run_for_each_device supported (λ d. on_system (update_dynamic i d)) i.processed_devices w
      else w

  -- `instance_unapply_tuning`, for an active instance or not
  unfoldable pub instance_unapply_tuning : Bool → Instance → Rollback → World D → World D
  unfolding undo_dynamic_part undo_static_part
  instance_unapply_tuning supported i none_at_all w = w
  instance_unapply_tuning supported i soft w =
      undo_static_part i soft (undo_dynamic_part supported i w)
  instance_unapply_tuning supported i full w =
      undo_static_part i full (undo_dynamic_part supported i w)

  module _ (unquote : String → String) (has_zeros : String → Bool)
      (strip_zeros : String → String) where
    -- Each stage ends the verification where it fails: the first script, the commands and the
    -- second script, all on the devices that have been tuned.
    unfoldable pub verify_part : Instance → Bool → World D → Option Bool × World D
    unfolding call_device_script
    verify_part i ignore_missing w =
        let (pre, w1) = call_device_script i.script_pre "verify" i.processed_devices soft w in
        let (ret, w2) =
          verify_static unquote has_zeros strip_zeros D i ignore_missing i.processed_devices w1 in
        let (post, w3) = call_device_script i.script_post "verify" i.processed_devices soft w2 in
        if is_false pre
        then (some false, w1)
        else if not ret
        then (some false, w2)
        else if is_false post
        then (some false, w3)
        else (some true, w3)

    -- `instance_verify_tuning`: `none` where there is nothing to verify
    unfoldable pub instance_verify_tuning : Instance → Bool → World D → Option Bool × World D
    unfolding verify_part
    instance_verify_tuning i ignore_missing w =
        if i.active && i.has_static_tuning then verify_part i ignore_missing w else (none, w)
