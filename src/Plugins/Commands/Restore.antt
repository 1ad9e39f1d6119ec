-- ===== src/Plugins/Commands/Restore.antt =====
-- What is held of the old values while commands are executed and cleaned up, one at a time.
use mathlib.Core.Option.{or_else}
use tuned.Base.{String, ◌≡◌, ◌≢◌, Bool, true, false, Option, none, some, ◌⊎◌, inl, inr, arith}
use tuned.Base.{string_eq, option_eq}
use tuned.Plugins.Instance.{Instance}
use tuned.Plugins.Driver.{Command, Driver}
use tuned.Plugins.Commands.{World, execute_command, cleanup_command, storage_set}
use tuned.Plugins.Commands.Keys.{IsPlain}
use tuned.Plugins.Commands.Effects.{IsLawful, IsTarget, same, stored_value, current_value}
use tuned.Plugins.Commands.Effects.{stored-storage_set, current-set_value, stored-set_value}
use tuned.Plugins.Commands.Effects.{
  current-storage_set, execute_cases, stored-cleanup, current-cleanup,
}

module _ (D : Driver) (L : IsLawful D) (i : Instance) (plain : IsPlain i.name) where
  -- Against the values before the tuning: nothing is stored and the value is the old one, or
  -- else the old one is stored.
  module _ (before : String → Option String → Option String) where
    abbrev pub IsUntouched : Command → Option String → World D → Type 0
    IsUntouched c d w =
        (stored_value D i c d w ≡ none) × (current_value D i c d w ≡ before c.name d)

    abbrev pub IsHeld : Command → Option String → World D → Type 0
    IsHeld c d w =
        IsUntouched c d w ⊎ ((stored_value D i c d w ≡ before c.name d) × (before c.name d ≢ none))

    module _ (c e : Command) (d f : Option String) (hc : IsTarget c d) (he : IsTarget e f) where
      pub IsHeld-execute_other :
          (v old : String) (w : World D)
          → current_value D i e f w ≡ some old
          → same c d e f ≡ false
          → IsHeld c d w
          → IsHeld c d (execute_command D i e f v w)
      IsHeld-execute_other v old w h ne k = elim (execute_cases D L i plain e f he v old w h) [
        | inl kept ↦ rw kept k
        | inr (new, changed) ↦ rw changed (
            ground (
              arith,
              stored-set_value D L i plain c e d f hc he (some new) false
                  (storage_set D i e old f w),
              stored-storage_set D L i plain c e d f hc he old w,
              current-set_value D L i plain c e d f hc he new false (storage_set D i e old f w),
              current-storage_set D L i plain c e d f hc he old w,
            ))
      ]

      pub IsUntouched-execute_other :
          (v old : String) (w : World D)
          → current_value D i e f w ≡ some old
          → same c d e f ≡ false
          → IsUntouched c d w
          → IsUntouched c d (execute_command D i e f v w)
      IsUntouched-execute_other v old w h ne k = elim (execute_cases D L i plain e f he v old w h) [
        | inl kept ↦ rw kept k
        | inr (new, changed) ↦ rw changed (
            ground (
              arith,
              stored-set_value D L i plain c e d f hc he (some new) false
                  (storage_set D i e old f w),
              stored-storage_set D L i plain c e d f hc he old w,
              current-set_value D L i plain c e d f hc he new false (storage_set D i e old f w),
              current-storage_set D L i plain c e d f hc he old w,
            ))
      ]

      pub IsHeld-execute_self :
          (v old : String) (w : World D)
          → current_value D i e f w ≡ some old
          → same c d e f ≡ true
          → IsUntouched c d w
          → before c.name d ≡ some old
          → IsHeld c d (execute_command D i e f v w)
      IsHeld-execute_self v old w h eq k b = elim (execute_cases D L i plain e f he v old w h) [
        | inl kept ↦ rw kept (inl k)
        | inr (new, changed) ↦ rw changed (
            inr (
              ground (
                arith,
                stored-set_value D L i plain c e d f hc he (some new) false
                    (storage_set D i e old f w),
                stored-storage_set D L i plain c e d f hc he old w,
              ),
              ground arith,
            ))
      ]

      -- A cleanup restores its own value, and keeps what is held or restored of the others.
      pub IsUntouched-cleanup :
          (remove : Bool) (w : World D)
          → IsUntouched c d w
          → IsUntouched c d (cleanup_command D i e f remove w)
      unfolding or_else
      IsUntouched-cleanup remove w k =
          rw (stored-cleanup D L i plain c e d f hc he, current-cleanup D L i plain c e d f hc he)
            (ground arith)

      pub IsHeld-cleanup :
          (remove : Bool) (w : World D)
          → IsHeld c d w
          → IsHeld c d (cleanup_command D i e f remove w)
      unfolding or_else
      IsHeld-cleanup remove w k =
          rw (stored-cleanup D L i plain c e d f hc he, current-cleanup D L i plain c e d f hc he)
            (ground arith)

      pub IsUntouched-cleanup_self :
          (remove : Bool) (w : World D)
          → same c d e f ≡ true
          → IsHeld c d w
          → IsUntouched c d (cleanup_command D i e f remove w)
      unfolding or_else
      IsUntouched-cleanup_self remove w eq k =
          rw (stored-cleanup D L i plain c e d f hc he, current-cleanup D L i plain c e d f hc he)
            (ground arith)
