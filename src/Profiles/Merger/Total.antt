-- ===== src/Profiles/Merger/Total.antt =====
-- Merging never raises for profiles whose scripts are lists of paths, as the loader makes them.
use mathlib.Core.Option.{or_else}
use tuned.Base.{String, ◌≡◌, ◌≢◌, refl, Bool, true, false, Option, none, some, List, [], ◌∷◌}
use tuned.Base.{arith, ◌==◌, string_eq, if◌then◌else◌, Bool-cases, inl, inr}
use tuned.Base.Dict.{Dict, NodupKeys, lookup, lookup-update, lookup-cases, update, insert}
use tuned.Profiles.Unit.{
  Value, paths, text, bool, int, ProfileUnit, Profile, empty_profile, is_text,
}
use tuned.Profiles.Merger.{
  update_unit, install, merge_variables, merge_unit, merge_units, merge_two, merge_from, merge,
  drop_options, set_fields, first_given,
}
use tuned.Profiles.Merger.Units.{lookup-update_unit, lookup-drop_options, dropped}
use tuned.Profiles.Merger.Script.{script-update_unit, script_twice-update_unit}

abbrev pub IsScript : Option Value → Type 0
IsScript none = Unit
IsScript (some (paths l)) = Unit
IsScript (some (text s)) = ⊥
IsScript (some (bool b)) = ⊥
IsScript (some (int n)) = ⊥

-- The script of every unit is missing or a list of paths.
abbrev pub HasScripts : Dict String ProfileUnit → Type 0
HasScripts [] = Unit
HasScripts ((_, u) ∷ d) = IsScript (lookup "script" u.options) × HasScripts d

-- Units as a configuration file gives them.
abbrev pub IsLoaded : Dict String ProfileUnit → Type 0
IsLoaded [] = Unit
IsLoaded ((_, u) ∷ d) = NodupKeys u.options × IsScript (lookup "script" u.options) × IsLoaded d

HasScripts-insert :
    (k : String) (u : ProfileUnit) (d : Dict String ProfileUnit)
    → IsScript (lookup "script" u.options)
    → HasScripts d
    → HasScripts (insert k u d)
unfolding insert
HasScripts-insert k u [] h hs = (h, tt)
HasScripts-insert k u ((j, w) ∷ d) h (hw, hs) = elim (Bool-cases (k == j)) [
  | inl e ↦ rw e (h, hs)
  | inr e ↦ rw e (hw, HasScripts-insert k u d h hs)
]

HasScripts-lookup :
    (k : String) (d : Dict String ProfileUnit) (u : ProfileUnit)
    → HasScripts d
    → lookup k d ≡ some u
    → IsScript (lookup "script" u.options)
unfolding lookup
HasScripts-lookup k [] u hs e = cc
HasScripts-lookup k ((j, w) ∷ d) u (hw, hs) e = elim (Bool-cases (k == j)) [
  | inl p ↦ let q : w ≡ u = ground arith in rw q at hw
  | inr p ↦ HasScripts-lookup k d u hs (ground arith)
]

IsScript-or_else : (a b : Option Value) → IsScript a → IsScript b → IsScript (or_else a b)
unfolding or_else
IsScript-or_else none b h k = k
IsScript-or_else (some v) b h k = h

IsScript-if : (b : Bool) (o : Option Value) → IsScript o → IsScript (if b then none else o)
IsScript-if true o h = tt
IsScript-if false o h = h

-- Two units merge into one with a script, whatever the unit's name.
abbrev Merges : String → ProfileUnit → ProfileUnit → Type 0
Merges name old unit =
    (merged : ProfileUnit) × (update_unit name old unit ≡ some merged)
    × IsScript (lookup "script" merged.options)

module _ (old unit : ProfileUnit) (u : NodupKeys unit.options)
    (h : IsScript (lookup "script" old.options)) (k : IsScript (lookup "script" unit.options)) where
  kept : IsScript (lookup "script" (drop_options unit.drop old.options))
  kept =
      rw (lookup-drop_options "script" unit.drop old.options)
        (IsScript-if (dropped unit.drop "script") _ h)

  Merges-other : (name : String) → name ≢ "script" → Merges name old unit
  Merges-other name ne =
      let (merged, e, l) = lookup-update_unit name old unit ne u in
      (
        merged,
        e,
        rw (l "script") (IsScript-or_else _ _ k (IsScript-if (dropped unit.drop "script") _ h)),
      )

  Merges-script :
      (a b : Option Value)
      → lookup "script" (drop_options unit.drop old.options) ≡ a
      → lookup "script" unit.options ≡ b
      → IsScript a
      → IsScript b
      → Merges "script" old unit
  Merges-script none b ea eb sa sb = (
    set_fields old unit (update (drop_options unit.drop old.options) unit.options),
    unfold update_unit in
        ground
          (arith, lookup-update "script" (drop_options unit.drop old.options) unit.options u, ea),
    rw (lookup-update "script" (drop_options unit.drop old.options) unit.options u)
        (IsScript-or_else _ _ k kept),
  )
  Merges-script (some (text s)) b ea eb sa sb = elim sa [ ]
  Merges-script (some (bool c)) b ea eb sa sb = elim sa [ ]
  Merges-script (some (int n)) b ea eb sa sb = elim sa [ ]
  Merges-script (some (paths xs)) (some (text s)) ea eb sa sb = elim sb [ ]
  Merges-script (some (paths xs)) (some (bool c)) ea eb sa sb = elim sb [ ]
  Merges-script (some (paths xs)) (some (int n)) ea eb sa sb = elim sb [ ]
  Merges-script (some (paths xs)) none ea eb sa sb =
      let (merged, e, l) = script_twice-update_unit old unit xs u ea eb in (merged, e, rw l tt)
  Merges-script (some (paths xs)) (some (paths ys)) ea eb sa sb =
      let (merged, e, l) = script-update_unit old unit xs u ys ea eb in (merged, e, rw l tt)

  Merges-update_unit : (name : String) → Merges name old unit
  Merges-update_unit name = elim (string_eq.dec name "script") [
    | yes p ↦ rw p (Merges-script _ _ refl refl kept k)
    | no n ↦ Merges-other name n
  ]

abbrev Extends : Option Profile → Type 0
Extends o = (p : Profile) × (o ≡ some p) × HasScripts p.units

Extends-merge_unit :
    (name : String) (unit : ProfileUnit) (a : Profile)
    → NodupKeys unit.options
    → IsScript (lookup "script" unit.options)
    → HasScripts a.units
    → Extends (merge_unit name unit a)
unfolding merge_unit
Extends-merge_unit name unit a u k hs = elim (Bool-cases (is_text unit.type "variables")) [
  | inl v ↦ (record a { variables = merge_variables a.variables unit }, rw v, hs)
  | inr v ↦ elim (lookup-cases name a.units) [
    | inl absent ↦ (install name unit a, rw (v, absent), HasScripts-insert name unit a.units k hs)
    | inr (old, found) ↦ elim (Bool-cases unit.replace) [
      | inl r ↦ (install name unit a, rw (v, found, r), HasScripts-insert name unit a.units k hs)
      | inr r ↦
          let (merged, e, l) =
            Merges-update_unit old unit u (HasScripts-lookup name a.units old hs found) k name in
          (install name merged a, ground (arith, e), HasScripts-insert name merged a.units l hs)
    ]
  ]
]

Extends-merge_units :
    (units : Dict String ProfileUnit) (a : Profile)
    → IsLoaded units
    → HasScripts a.units
    → Extends (merge_units units a)
unfolding merge_units
Extends-merge_units [] a l hs = (a, refl, hs)
Extends-merge_units ((name, unit) ∷ rest) a (u, k, l) hs =
    let (a', e, hs') = Extends-merge_unit name unit a u k hs in
    let (p, e', hp) = Extends-merge_units rest a' l hs' in (p, ground (arith, e, e'), hp)

abbrev pub AllLoaded : List Profile → Type 0
AllLoaded [] = Unit
AllLoaded (b ∷ rest) = IsLoaded b.units × AllLoaded rest

Extends-merge_from :
    (a : Profile) (rest : List Profile)
    → HasScripts a.units
    → AllLoaded rest
    → Extends (merge_from a rest)
unfolding merge_from merge_two
Extends-merge_from a [] hs l = (a, refl, hs)
Extends-merge_from a (b ∷ rest) hs (lb, l) =
    let (a', e, hs') =
      Extends-merge_units b.units
        (record a { name = first_given a.name b.name; options = update a.options b.options }) lb
        hs in
    let (p, e', hp) = Extends-merge_from a' rest hs' l in (p, ground (arith, e, e'), hp)

-- Profiles as the loader makes them always merge, and every script option of the result is again
-- a list of paths.
pub merge-total :
    (profiles : List Profile)
    → AllLoaded profiles
    → (p : Profile) × (merge profiles ≡ some p) × HasScripts p.units
unfolding merge
merge-total profiles l = Extends-merge_from empty_profile profiles tt l
