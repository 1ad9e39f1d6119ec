-- ===== src/Utils/Cpulist.antt =====
-- tuned/utils/commands.py: lists of CPUs, unpacked from text with ranges, masks and negations, and
-- packed into ranges.
pub mod Hex
pub mod Packing
use tuned.Base.{
  ℕ, zero, suc, ◌+◌, ◌-◌, String, ◌<>◌, Bool, true, false, not, ◌&&◌, ◌||◌, Option, none, some,
  List, [], ◌∷◌, ◌++◌, if◌then◌else◌, eqb, ltb, contains, nat_eq,
}
use tuned.Base.Text.{ℤ, pos, negsuc, int, split}
use tuned.Base.Text.Decimal.{show, show_hex}
use tuned.Base.Names.{diff}
use tuned.Utils.Masks.{bitmask2cpulist, cpulist2bitmask, sorted_set}
use Prim.Native.Char.{Char, code}
use Prim.Native.String

-- What is unpacked: `None`, a text, or a list, whose items are given by their `str()`.
pub data CpuSpec : Type 0 where
  no_cpus : CpuSpec
  cpu_text : String → CpuSpec
  cpu_items : List String → CpuSpec

-- Does the value begin with `0x`?
unfoldable pub is_hexmask : String → Bool
is_hexmask String.[] = false
is_hexmask (String.◌∷◌ a String.[]) = false
is_hexmask (String.◌∷◌ a (String.◌∷◌ b s)) =
    eqb (code a) b'0' && (eqb (code b) b'x' || eqb (code b) b'X')

is_negation : String → Bool
is_negation String.[] = false
is_negation (String.◌∷◌ c s) = eqb (code c) b'^' || eqb (code c) b'!'

rest_of : String → String
rest_of String.[] = String.[]
rest_of (String.◌∷◌ c s) = s

is_blank : String → Bool
is_blank String.[] = true
is_blank (String.◌∷◌ c s) = false

-- `int` of a text without a minus sign
int_piece : String → Option ℕ
unfolding int
int_piece s = elim (int 10 s) [ none ↦ none | some n ↦ elim n [ pos k ↦ some k | negsuc k ↦ none ] ]

range_from : ℕ → ℕ → List ℕ
range_from zero lo = []
range_from (suc n) lo = lo ∷ range_from n (suc lo)

-- `list(range(lo, hi + 1))`
unfoldable pub range : ℕ → ℕ → List ℕ
unfolding range_from
range lo hi = range_from (hi + 1 - lo) lo

-- The CPUs of a value that was split at its minus signs; `none` is the `ValueError`.
unfoldable pub range_of : List String → Option (List ℕ)
unfolding int_piece range
range_of [] = none
range_of (a ∷ []) = elim (int_piece a) [ none ↦ none | some n ↦ some (n ∷ []) ]
range_of (a ∷ b ∷ _) = elim (int_piece a) [
  | none ↦ none
  | some lo ↦ elim (int_piece b) [ none ↦ none | some hi ↦ some (range lo hi) ]
]

-- The first loop: the values, without the commas in their masks, and the CPUs to be left out.
pub record Scan : Type 0 where
  pub hexmask : Bool
  pub hexvalue : String
  pub found : List String
  pub negated : List ℕ

unfoldable pub scan_item : Scan → String → Option Scan
unfolding is_hexmask is_negation range_of is_blank rest_of split
scan_item s v =
    if s.hexmask
    then (if is_blank v
        then some
            (record s { hexmask = false; found = s.found ++ (s.hexvalue ∷ []); hexvalue = "" })
        else some (record s { hexvalue = s.hexvalue <> v }))
    else if is_hexmask v
    then some (record s { hexmask = true; hexvalue = v })
    else if is_negation v
    then (elim (range_of (split b'-' (rest_of v))) [
      | none ↦ none
      | some cpus ↦ some (record s { negated = s.negated ++ cpus })
    ])
    else if is_blank v
    then some s
    else some (record s { found = s.found ++ (v ∷ []) })

unfoldable pub scan_items : Scan → List String → Option Scan
unfolding scan_item
scan_items s [] = some s
scan_items s (v ∷ l) = elim (scan_item s v) [ none ↦ none | some s' ↦ scan_items s' l ]

-- `str.replace(",", "")`
unfoldable pub without_commas : String → String
without_commas String.[] = String.[]
without_commas (String.◌∷◌ c s) =
    let rest = without_commas s in if eqb (code c) b',' then rest else String.◌∷◌ c rest

-- `hex2cpulist`, with the empty list for a mask that is no number
unfoldable pub hex2cpulist : String → List ℕ
unfolding without_commas int bitmask2cpulist
hex2cpulist mask = elim (int 16 (without_commas mask)) [
  | none ↦ []
  | some n ↦ elim n [ pos m ↦ bitmask2cpulist m | negsuc m ↦ [] ]
]

unfoldable pub expand_value : String → Option (List ℕ)
unfolding hex2cpulist range_of split is_hexmask
expand_value v = if is_hexmask v then some (hex2cpulist v) else range_of (split b'-' v)

-- The second loop.
unfoldable pub expand_values : List String → Option (List ℕ)
unfolding expand_value
expand_values [] = some []
expand_values (v ∷ l) = elim (expand_value v) [
  | none ↦ none
  | some cpus ↦ elim (expand_values l) [ none ↦ none | some rest ↦ some (cpus ++ rest) ]
]

-- `list.remove`
remove_cpu : ℕ → List ℕ → List ℕ
remove_cpu n [] = []
remove_cpu n (x ∷ xs) = let rest = remove_cpu n xs in if eqb x n then xs else x ∷ rest

-- The last loop.
remove_negated : List ℕ → List ℕ → List ℕ
unfolding remove_cpu
remove_negated [] l = l
remove_negated (n ∷ ns) l = remove_negated ns (remove_cpu n l)

found_values : Scan → List String
unfolding is_blank
found_values s = if is_blank s.hexvalue then s.found else s.found ++ (s.hexvalue ∷ [])

abbrev start_scan : Scan
start_scan = record { hexmask = false; hexvalue = ""; found = []; negated = [] }

-- `cpulist_unpack` of a list
unfoldable pub unpack_items : List String → List ℕ
unfolding scan_items expand_values remove_negated sorted_set found_values
unpack_items items = elim (scan_items start_scan items) [
  | none ↦ []
  | some s ↦ elim (expand_values (found_values s)) [
    | none ↦ []
    | some cpus ↦ remove_negated s.negated (sorted_set cpus)
  ]
]

is_quote : Char → Bool
is_quote c = eqb (code c) 39 || eqb (code c) 34

strip_quotes_left : String → String
unfolding is_quote
strip_quotes_left String.[] = String.[]
strip_quotes_left (String.◌∷◌ c s) =
    let rest = strip_quotes_left s in if is_quote c then rest else String.◌∷◌ c s

strip_quotes_right : String → String
unfolding is_quote is_blank
strip_quotes_right String.[] = String.[]
strip_quotes_right (String.◌∷◌ c s) =
    let rest = strip_quotes_right s in
    if is_quote c && is_blank rest then String.[] else String.◌∷◌ c rest

-- `cpulist_unpack` with the quotes that it strips by default
unfoldable pub cpulist_unpack : CpuSpec → Option (List ℕ)
unfolding unpack_items strip_quotes_left strip_quotes_right split
cpulist_unpack no_cpus = none
cpulist_unpack (cpu_text s) =
    some (unpack_items (split b',' (strip_quotes_right (strip_quotes_left s))))
cpulist_unpack (cpu_items items) = some (unpack_items items)

-- A range as text, or a single CPU.
piece : ℕ → ℕ → Bool → String
unfolding show
piece first last many = if many then show first <> "-" <> show last else show first

-- The loop of `cpulist_pack` behind its first CPU: `first` is `l[j]`, `last` is `l[i]`, and `many`
-- says that they are two.
pack_from : ℕ → ℕ → Bool → List ℕ → List String
unfolding piece
pack_from first last many [] = piece first last many ∷ []
pack_from first last many (next ∷ l) =
    let extended = pack_from first next true l in
    let fresh = pack_from next next false l in
    if eqb next (suc last) then extended else piece first last many ∷ fresh

pack_cpus : List ℕ → List String
unfolding pack_from
pack_cpus [] = []
pack_cpus (x ∷ l) = pack_from x x false l

-- `cpulist_pack`
unfoldable pub cpulist_pack : CpuSpec → Option (List String)
unfolding cpulist_unpack pack_cpus
cpulist_pack spec = elim (cpulist_unpack spec) [ none ↦ none | some l ↦ some (pack_cpus l) ]

-- `cpulist_invert`, for the text of the CPUs that are online; a set has no order, and `none` is the
-- `TypeError` for the set of `None`.
unfoldable pub cpulist_invert : String → CpuSpec → Option (List ℕ)
unfolding cpulist_unpack unpack_items diff
cpulist_invert online spec = elim (cpulist_unpack spec) [
  | none ↦ none
  | some cpus ↦ elim (cpulist_unpack (cpu_text online)) [
    | none ↦ none
    | some l ↦ some (diff l cpus)
  ]
]

-- `cpulist2string`
unfoldable pub cpulist2string : String → List ℕ → String
unfolding show
cpulist2string prefix [] = ""
cpulist2string prefix (v ∷ []) = prefix <> show v
cpulist2string prefix (v ∷ w ∷ l) =
    let rest = cpulist2string prefix (w ∷ l) in prefix <> show v <> "," <> rest
