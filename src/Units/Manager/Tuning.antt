-- ===== src/Units/Manager/Tuning.antt =====
-- The loops of tuned/units/manager.py over the instances.
use tuned.Base.{◌≡◌, Bool, true, false, not, ◌&&◌, some, List, [], ◌∷◌, arith, if◌then◌else◌}
use tuned.Units.Manager.{Parts, returned, is_failure, try_call, verify_all}

module _ (M : Parts) where
  open M use {W, InstanceObject, apply_tuning, unapply_tuning, verify_tuning}

  -- What each instance answers, an exception being a failure.
  abbrev pub answers : Bool → List InstanceObject → W → List Bool
  answers ignore_missing [] w = []
  answers ignore_missing (i ∷ is) w =
      not (is_failure (try_call (returned (some false)) (verify_tuning i ignore_missing w).0))
      ∷ answers ignore_missing is (verify_tuning i ignore_missing w).1

  abbrev pub all_true : List Bool → Bool
  all_true [] = true
  all_true (b ∷ bs) = b && all_true bs

  verify_all_from :
      (ignore_missing : Bool) (is : List InstanceObject) (ret : Bool) (w : W)
      → (verify_all M ignore_missing is ret w).0 ≡ (ret && all_true (answers ignore_missing is w))
  unfolding verify_all
  verify_all_from ignore_missing [] ret w = ground arith
  verify_all_from ignore_missing (i ∷ is) ret w = ground (
    arith,
    verify_all_from ignore_missing is
        (if is_failure (try_call (returned (some false)) (verify_tuning i ignore_missing w).0)
          then false
          else ret)
        (verify_tuning i ignore_missing w).1,
  )

  -- The verification of the instances succeeds exactly if none of them, asked one after the other,
  -- answers false or raises an exception.
  pub verify_all_lem :
      (ignore_missing : Bool) (is : List InstanceObject) (w : W)
      → (verify_all M ignore_missing is true w).0 ≡ all_true (answers ignore_missing is w)
  verify_all_lem ignore_missing is w = verify_all_from ignore_missing is true w
