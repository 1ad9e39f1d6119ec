-- ===== src/Profiles/Merger/Units.antt =====
-- What the options of a merged unit are.
use mathlib.Core.Option.{or_else}
use tuned.Base.{String, ◌≡◌, ◌≢◌, refl, Bool, false, Option, none, some, List, [], ◌∷◌}
use tuned.Base.{arith, contains, string_eq, if◌then◌else◌}
use tuned.Base.Dict.{NodupKeys, lookup, lookup-erase, lookup-update}
use tuned.Base.Dict.{update, erase}
use tuned.Profiles.Unit.{Options, ProfileUnit, erase_all}
use tuned.Profiles.Merger.{drop_options, update_unit, set_fields}

lookup-erase_all :
    (k : String) (ks : List String) (d : Options)
    → lookup k (erase_all ks d) ≡ (if contains ks k then none else lookup k d)
unfolding erase_all
lookup-erase_all k [] d = refl
lookup-erase_all k (j ∷ ks) d =
    ground (arith, lookup-erase_all k ks (erase j d), lookup-erase k j d)

abbrev pub dropped : Option (List String) → String → Bool
dropped none k = false
dropped (some ks) k = contains ks k

pub lookup-drop_options :
    (k : String) (drop : Option (List String)) (d : Options)
    → lookup k (drop_options drop d) ≡ (if dropped drop k then none else lookup k d)
lookup-drop_options k none d = refl
lookup-drop_options k (some ks) d = lookup-erase_all k ks d

-- Two units that are not the script unit always merge, if the option names of the newer one are
-- distinct. An option has the value of the newer unit, or else that of the older unit unless the
-- newer unit drops it.
pub lookup-update_unit :
    (name : String) (old unit : ProfileUnit)
    → name ≢ "script"
    → NodupKeys unit.options
    → (merged : ProfileUnit) × (update_unit name old unit ≡ some merged)
      × ((k : String)
          → lookup k merged.options
            ≡ or_else
                (lookup k unit.options)
                (if dropped unit.drop k then none else lookup k old.options))
unfolding update_unit or_else
lookup-update_unit name old unit h u = (
  set_fields old unit (update (drop_options unit.drop old.options) unit.options),
  ground arith,
  λ k. rw (
    lookup-update k (drop_options unit.drop old.options) unit.options u,
    lookup-drop_options k unit.drop old.options,
  ),
)
