-- ===== src/Base/Text/Search.antt =====
-- Python's `in` for texts, and the pieces of `s.split(sep)` at a separator of several characters.
use Prim.Native.Char.{code}
use Prim.Native.String.{String}
use mathlib.Core.Bool.{Bool, true, false}
use mathlib.Core.Option.{Option, none, some}
use tuned.Base.Equality.{if◌then◌else◌, eqb}

strip_prefix : String → String → Option String
strip_prefix String.[] s = some s
strip_prefix (String.◌∷◌ p ps) String.[] = none
strip_prefix (String.◌∷◌ p ps) (String.◌∷◌ c s) =
    let rest = strip_prefix ps s in if eqb (code p) (code c) then rest else none

-- The text behind the first `sep`, and the one in front of it, for a text `sep` that is not empty.
unfoldable pub behind : String → String → Option String
unfolding strip_prefix
behind sep String.[] = none
behind sep (String.◌∷◌ c s) =
    let rest = behind sep s in
    elim (strip_prefix sep (String.◌∷◌ c s)) [ none ↦ rest | some r ↦ some r ]

unfoldable pub in_front : String → String → String
unfolding strip_prefix
in_front sep String.[] = String.[]
in_front sep (String.◌∷◌ c s) =
    let rest = in_front sep s in
    elim (strip_prefix sep (String.◌∷◌ c s)) [ none ↦ String.◌∷◌ c rest | some r ↦ String.[] ]

-- `sep in s`
unfoldable pub occurs : String → String → Bool
unfolding behind
occurs sep s = elim (behind sep s) [ none ↦ false | some _ ↦ true ]
