-- ===== src/Plugins/Commands/Runs.antt =====
-- The execution and cleanup loops of tuned/plugins/base.py as runs over lists of jobs.
use tuned.Base.{String, ◌≡◌, refl, ◌∙◌, ap, false, Option, none, some, arith}
use tuned.Base.{List, [], ◌∷◌, ◌++◌, string_eq, option_eq, if◌then◌else◌}
use tuned.Plugins.Instance.{Instance}
use tuned.Plugins.Driver.{Command, Driver}
use tuned.Plugins.Commands.{
  World, cleanup_command, execute_given, option_value, is_wanted, execute_non_device_commands,
  execute_on_devices, execute_device_commands, cleanup_non_device_commands, cleanup_on_devices,
  cleanup_device_commands,
}
use tuned.Plugins.Commands.Restore.{}

-- A command on a device, or on none.
abbrev pub Job : Type 0
Job = Command × Option String

-- Every command on every device, in the order of the loops.
unfoldable pub on_devices : Command → List String → List Job
on_devices c [] = []
on_devices c (d ∷ ds) = (c, some d) ∷ on_devices c ds

unfoldable pub pairs : List Command → List String → List Job
pairs [] ds = []
pairs (c ∷ cs) ds = on_devices c ds ++ pairs cs ds

unfoldable pub plain_jobs : List Command → List Job
plain_jobs [] = []
plain_jobs (c ∷ cs) = (c, none) ∷ plain_jobs cs

module _ (D : Driver) (i : Instance) where
  unfoldable pub run : List Job → World D → World D
  run [] w = w
  run ((c, d) ∷ jobs) w = run jobs (execute_given D i c d (option_value D i c) w)

  unfoldable pub undo : List Job → World D → World D
  undo [] w = w
  undo ((c, d) ∷ jobs) w =
      undo jobs (if is_wanted D i c then cleanup_command D i c d false w else w)

  pub run-append : (js ks : List Job) (w : World D) → run (js ++ ks) w ≡ run ks (run js w)
  unfolding run
  run-append [] ks w = refl
  run-append (j ∷ js) ks w = run-append js ks _

  pub undo-append : (js ks : List Job) (w : World D) → undo (js ++ ks) w ≡ undo ks (undo js w)
  unfolding undo
  undo-append [] ks w = refl
  undo-append (j ∷ js) ks w = undo-append js ks _

  run-on_devices :
      (c : Command) (ds : List String) (w : World D)
      → run (on_devices c ds) w ≡ execute_on_devices D i c ds w
  unfolding run on_devices execute_on_devices
  run-on_devices c [] w = refl
  run-on_devices c (d ∷ ds) w = run-on_devices c ds _

  pub run-pairs :
      (cs : List Command) (ds : List String) (w : World D)
      → run (pairs cs ds) w ≡ execute_device_commands D i cs ds w
  unfolding pairs execute_device_commands
  run-pairs [] ds w = unfold run in refl
  run-pairs (c ∷ cs) ds w =
      run-append (on_devices c ds) (pairs cs ds) w
      ∙ ap (run (pairs cs ds)) (run-on_devices c ds w)
      ∙ run-pairs cs ds (execute_on_devices D i c ds w)

  pub run-plain_jobs :
      (cs : List Command) (w : World D)
      → run (plain_jobs cs) w ≡ execute_non_device_commands D i cs w
  unfolding run plain_jobs execute_non_device_commands
  run-plain_jobs [] w = refl
  run-plain_jobs (c ∷ cs) w = run-plain_jobs cs _

  undo-on_devices_wanted :
      (c : Command) (ds : List String) (w : World D)
      → undo (on_devices c ds) w
        ≡ (if is_wanted D i c then cleanup_on_devices D i c ds false w else w)
  unfolding undo on_devices cleanup_on_devices
  undo-on_devices_wanted c [] w = ground arith
  undo-on_devices_wanted c (d ∷ ds) w = ground (
    arith,
    undo-on_devices_wanted c ds w,
    undo-on_devices_wanted c ds (cleanup_command D i c (some d) false w),
  )

  pub undo-pairs :
      (cs : List Command) (ds : List String) (w : World D)
      → undo (pairs cs ds) w ≡ cleanup_device_commands D i cs ds false w
  unfolding pairs cleanup_device_commands
  undo-pairs [] ds w = unfold undo in refl
  undo-pairs (c ∷ cs) ds w =
      undo-append (on_devices c ds) (pairs cs ds) w
      ∙ ap (undo (pairs cs ds)) (undo-on_devices_wanted c ds w)
      ∙ undo-pairs cs ds _

  pub undo-plain_jobs :
      (cs : List Command) (w : World D)
      → undo (plain_jobs cs) w ≡ cleanup_non_device_commands D i cs w
  unfolding undo plain_jobs cleanup_non_device_commands
  undo-plain_jobs [] w = refl
  undo-plain_jobs (c ∷ cs) w = undo-plain_jobs cs _
