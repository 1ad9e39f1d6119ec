-- ===== src/Plugins/Commands/Static.antt =====
-- The static tuning of an instance is undone: `_instance_apply_static` and then
-- `_instance_unapply_static`, over all commands and devices.
use tuned.Base.{String, ◌≡◌, ◌≢◌, refl, false, Option, none, some}
use tuned.Base.{List, ◌++◌, map, reverse, All, All-append, All-map}
use tuned.Base.{string_eq, option_eq}
use tuned.Base.Names.{IsNodup}
use tuned.Plugins.Instance.{Instance}
use tuned.Plugins.Driver.{Command, Driver}
use tuned.Plugins.Commands.{
  World, apply_static, unapply_static, non_device_commands, device_commands,
}
use tuned.Plugins.Commands.Keys.{IsPlain}
use tuned.Plugins.Commands.Effects.{IsLawful, IsTarget, stored_value, current_value}
use tuned.Plugins.Commands.Runs.{
  pairs, plain_jobs, run, undo, run-append, undo-append, run-pairs, undo-pairs, run-plain_jobs,
  undo-plain_jobs,
}
use tuned.Plugins.Commands.Undo.{Apart, run-Done, undo-Done}
use tuned.Plugins.Commands.Jobs.{
  command_name, OnAll, OnNone, pairs_in, plain_in, cleanup_order, apply_order, jobs-Apart,
}

module _ (D : Driver) (L : IsLawful D) (i : Instance) (plain : IsPlain i.name) where
  -- Before the tuning: nothing is stored for the command on the device, and its value can be read.
  abbrev pub IsFresh : World D → Command → Option String → Type 0
  IsFresh w c d = IsTarget c d × (stored_value D i c d w ≡ none) × (current_value D i c d w ≢ none)

  -- After the cleanup: nothing is stored, and the value is the one from before.
  abbrev pub IsRestored : World D → World D → Command → Option String → Type 0
  IsRestored before after c d =
      (stored_value D i c d after ≡ none)
      × (current_value D i c d after ≡ current_value D i c d before)

  abbrev before_of : World D → String → Option String → Option String
  before_of w n d = D.read n i d false w.sys

  jobs-IsRestored :
      (ns cs : List Command) (ds : List String) (w : World D)
      → Apart (plain_jobs ns ++ pairs cs ds)
      → All (λ (c, d). IsFresh w c d) (plain_jobs ns ++ pairs cs ds)
      → let after =
          undo D i
            (pairs (reverse cs) ds ++ plain_jobs (reverse ns))
            (run D i (plain_jobs ns ++ pairs cs ds) w) in
        OnNone (λ (c, d). IsRestored w after c d) ns
        × OnAll (λ (c, d). IsRestored w after c d) cs ds
  unfolding current_value
  jobs-IsRestored ns cs ds w apart fresh = apply_order _ ns cs ds (
      undo-Done D L i plain (before_of w) _ _ (
        cleanup_order _ ns cs ds (
          run-Done D L i plain (before_of w) _ w apart
            (All-map _ _ _ (λ (c, d) (t, s, r). (t, (s, refl), r)) fresh))))

  -- For a plugin whose commands read back what they write, with no custom handlers and with names
  -- without a slash, static tuning is undone whole. If the commands have different names, the
  -- devices are distinct and not empty texts, every value can be read and nothing was stored for
  -- it, then after the static tuning is applied and removed again every value of every command, on
  -- every device, is the one from before, and nothing is stored for it.
  pub unapply_static-apply_static :
      (ds : List String) (w : World D)
      → IsNodup (map command_name (non_device_commands D))
      → IsNodup (map command_name (device_commands D))
      → IsNodup ds
      → All (λ c. IsFresh w c none) (non_device_commands D)
      → All (λ c. All (λ d. IsFresh w c (some d)) ds) (device_commands D)
      → let after = unapply_static D i ds (apply_static D i ds w) in
        All (λ c. IsRestored w after c none) (non_device_commands D)
        × All (λ c. All (λ d. IsRestored w after c (some d)) ds) (device_commands D)
  unfolding apply_static unapply_static
  unapply_static-apply_static ds w un uc ud fn fc =
      let ns = non_device_commands D in
      let cs = device_commands D in
      rw
        (
          ← run-plain_jobs D i ns w,
          ← run-pairs D i cs ds,
          ← run-append D i (plain_jobs ns) (pairs cs ds) w,
          ← undo-pairs D i (reverse cs) ds,
          ← undo-plain_jobs D i (reverse ns),
          ← undo-append D i (pairs (reverse cs) ds) (plain_jobs (reverse ns)),
        )
        (jobs-IsRestored ns cs ds w (jobs-Apart ns cs ds un uc ud)
          (All-append _ (plain_jobs ns) (pairs cs ds) (plain_in _ ns fn) (pairs_in _ cs ds fc)))
