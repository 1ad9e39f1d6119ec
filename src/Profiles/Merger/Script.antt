-- ===== src/Profiles/Merger/Script.antt =====
-- The `script` unit, whose script lists are joined.
use mathlib.Core.Option.{or_else}
use tuned.Base.{String, ◌≡◌, none, some, List, ◌++◌, arith, string_eq}
use tuned.Base.Dict.{NodupKeys, lookup, lookup-insert, lookup-update, update, insert}
use tuned.Profiles.Unit.{paths, ProfileUnit}
use tuned.Profiles.Merger.{drop_options, update_unit, set_fields}

module _ (old unit : ProfileUnit) (xs : List String) (u : NodupKeys unit.options) where
  abbrev joined : List String → ProfileUnit
  joined l =
      set_fields old unit
        (insert "script" (paths l) (update (drop_options unit.drop old.options) unit.options))

  -- When both script units name scripts as lists of paths, and the newer one does not drop the
  -- option, the merged unit runs the scripts of the older unit first, then those of the newer one.
  -- The option names of the newer unit are distinct.
  pub script-update_unit :
      (ys : List String)
      → lookup "script" (drop_options unit.drop old.options) ≡ some (paths xs)
      → lookup "script" unit.options ≡ some (paths ys)
      → (merged : ProfileUnit) × (update_unit "script" old unit ≡ some merged)
        × (lookup "script" merged.options ≡ some (paths (xs ++ ys)))
  unfolding update_unit or_else
  script-update_unit ys hx hy = (
    joined (xs ++ ys),
    ground (arith, lookup-update "script" (drop_options unit.drop old.options) unit.options u),
    ground (
      arith,
      lookup-insert "script" "script" (paths (xs ++ ys))
          (update (drop_options unit.drop old.options) unit.options),
    ),
  )

  -- When the newer script unit names no script, and does not drop the option, the merged unit runs
  -- each of the scripts of the older unit twice. The option names of the newer unit are distinct.
  pub script_twice-update_unit :
      lookup "script" (drop_options unit.drop old.options) ≡ some (paths xs)
      → lookup "script" unit.options ≡ none
      → (merged : ProfileUnit) × (update_unit "script" old unit ≡ some merged)
        × (lookup "script" merged.options ≡ some (paths (xs ++ xs)))
  unfolding update_unit or_else
  script_twice-update_unit hx hy = (
    joined (xs ++ xs),
    ground (arith, lookup-update "script" (drop_options unit.drop old.options) unit.options u),
    ground (
      arith,
      lookup-insert "script" "script" (paths (xs ++ xs))
          (update (drop_options unit.drop old.options) unit.options),
    ),
  )
