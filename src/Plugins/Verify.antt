-- ===== src/Plugins/Verify.antt =====
-- Verification of a plugin's commands, in tuned/plugins/base.py: whether the system still has the
-- values that the profile asks for.
pub mod Laws
use tuned.Base.{String, Bool, true, false, ◌&&◌, Option, none, some, List, [], ◌∷◌, ◌==◌, string_eq}
use tuned.Base.{if◌then◌else◌}
use tuned.Base.Text.{ℤ, int, eqz, split, strip}
use tuned.Plugins.Instance.{Instance}
use tuned.Plugins.Driver.{Command, Driver}
use tuned.Plugins.Commands.{World, process_assignment_modifiers, option_value}
use tuned.Plugins.Commands.{non_device_commands}
use tuned.Plugins.Commands.{device_commands}

-- The loop over the alternatives of a value with `|`; it stops at the first that fits.
unfoldable pub fits_some : String → List String → Bool
unfolding strip
fits_some current [] = false
fits_some current (v ∷ vals) =
    let rest = fits_some current vals in if strip v == current then true else rest

-- `str(new_value) == str(current_value)`, or one of the alternatives
unfoldable pub same_text : String → String → Bool
unfolding fits_some split
same_text new current = if new == current then true else fits_some current (split b'|' new)

both : Option ℤ → Option ℤ → Option Bool
both (some a) (some b) = some (eqz a b)
both none b = none
both (some a) none = none

-- Two normalised values: as numbers, else as hexadecimal numbers, else as texts.
unfoldable pub same_value : String → String → Bool
unfolding int both same_text
same_value new current = elim (both (int 10 new) (int 10 current)) [
  | some b ↦ b
  | none ↦ elim (both (int 16 new) (int 16 current)) [ some b ↦ b | none ↦ same_text new current ]
]

-- The regular expressions of `unquote` and of `_norm_value` are the library's: what takes off the
-- quotes, what finds a value of leading zeros and what takes these off.
module _ (unquote : String → String) (has_zeros : String → Bool)
    (strip_zeros : String → String) where
  unfoldable pub norm_value : String → String
  norm_value value = let v = unquote value in if has_zeros v then strip_zeros v else v

  -- `_verify_value`, without its log: `none` where there is no new value
  unfoldable pub verify_value : Option String → Option String → Bool → Option Bool
  unfolding norm_value same_value
  verify_value none current ignore_missing = none
  verify_value (some new) none ignore_missing = some ignore_missing
  verify_value (some new) (some current) ignore_missing =
      some (same_value (norm_value new) (norm_value current))

  module _ (D : Driver) where
    open D use {commands, read, write, custom}

    -- A dry run of the setter says what it would write.
    simulated :
        Instance → Command → Option String → Option String → World D → Option String × World D
    simulated i c device none w = (none, w)
    simulated i c device (some value) w =
        let (new, sys) = write c.name i value device true false w.sys in
        (new, record w { sys = sys })

    -- `_verify_device_command` with a device, `_verify_non_device_command` with none. Without a
    -- device the getter is not told of `ignore_missing`.
    unfoldable pub verify_command :
        Instance → Command → Option String → String → Bool → World D → Option Bool × World D
    unfolding process_assignment_modifiers simulated verify_value
    verify_command i c device value ignore_missing w =
        let ignore : Bool = elim device [ none ↦ false | some d ↦ ignore_missing ] in
        let current = read c.name i device ignore w.sys in
        let (new, w') =
          simulated i c device (process_assignment_modifiers (some value) current) w in
        if c.custom
        then (
          (custom c.name i true (some value) device true ignore_missing w.sys).0,
          record w { sys = (custom c.name i true (some value) device true ignore_missing w.sys).1 },
        )
        else (verify_value new current ignore_missing, w')

    -- `ret = False` for a result that is `False`; `None` counts as a success.
    abbrev pub and_not_false : Bool → Option Bool → Bool
    and_not_false ret none = ret
    and_not_false ret (some b) = ret && b

    verify_given :
        Instance → Command → Option String → Bool → Option String → Bool → World D → Bool × World D
    unfolding verify_command
    verify_given i c device ignore_missing none ret w = (ret, w)
    verify_given i c device ignore_missing (some value) ret w =
        let (res, w') = verify_command i c device value ignore_missing w in
        (and_not_false ret res, w')

    unfoldable pub verify_non_device_commands :
        Instance → Bool → List Command → Bool → World D → Bool × World D
    unfolding verify_given option_value
    verify_non_device_commands i ignore_missing [] ret w = (ret, w)
    verify_non_device_commands i ignore_missing (c ∷ cs) ret w =
        let (ret', w') = verify_given i c none ignore_missing (option_value D i c) ret w in
        verify_non_device_commands i ignore_missing cs ret' w'

    unfoldable pub verify_on_devices :
        Instance → Command → Bool → List String → Bool → World D → Bool × World D
    unfolding verify_given option_value
    verify_on_devices i c ignore_missing [] ret w = (ret, w)
    verify_on_devices i c ignore_missing (d ∷ ds) ret w =
        let (ret', w') = verify_given i c (some d) ignore_missing (option_value D i c) ret w in
        verify_on_devices i c ignore_missing ds ret' w'

    unfoldable pub verify_device_commands :
        Instance → Bool → List Command → List String → Bool → World D → Bool × World D
    unfolding verify_on_devices
    verify_device_commands i ignore_missing [] ds ret w = (ret, w)
    verify_device_commands i ignore_missing (c ∷ cs) ds ret w =
        let (ret', w') = verify_on_devices i c ignore_missing ds ret w in
        verify_device_commands i ignore_missing cs ds ret' w'

    -- `_instance_verify_static`
    unfoldable pub verify_static : Instance → Bool → List String → World D → Bool × World D
    unfolding verify_non_device_commands verify_device_commands non_device_commands device_commands
    verify_static i ignore_missing devices w =
        let (one, w1) =
          verify_non_device_commands i ignore_missing (non_device_commands D) true w in
        let (two, w2) =
          verify_device_commands i ignore_missing (device_commands D) devices true w1 in
        (one && two, w2)
