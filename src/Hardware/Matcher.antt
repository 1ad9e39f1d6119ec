-- ===== src/Hardware/Matcher.antt =====
-- tuned/hardware/device_matcher.py: device names against the rules of a profile. The shell
-- patterns of `fnmatch` are the library's.
pub mod Laws
use Prim.Native.String
use tuned.Base.{String, Bool, true, false, not, ◌&&◌, List, [], ◌∷◌, map, select, contains}
use tuned.Base.{◌==◌, string_eq, starts_with, if◌then◌else◌}
use tuned.Base.Text.{strip}

-- `rule[1:]`
unfoldable pub drop_first : String → String
drop_first String.[] = String.[]
drop_first (String.◌∷◌ c s) = s

unfoldable pub is_positive : String → Bool
unfolding strip
is_positive rule = not (starts_with rule "!") && not (strip rule == "")

unfoldable pub positive_rules : List String → List String
unfolding is_positive select
positive_rules = select is_positive

unfoldable pub negative_rules : List String → List String
unfolding positive_rules drop_first
negative_rules rules =
    map drop_first (select (λ rule. not (contains (positive_rules rules) rule)) rules)

module _ (fnmatch : String → String → Bool) where
  -- A loop that stops at the first rule that matches.
  unfoldable pub matches_some : String → List String → Bool
  matches_some device [] = false
  matches_some device (rule ∷ rules) =
      let rest = matches_some device rules in if fnmatch device rule then true else rest

  or_all : List String → List String
  or_all [] = "*" ∷ []
  or_all (rule ∷ rules) = rule ∷ rules

  -- `DeviceMatcher.match` on a list of rules
  unfoldable pub match : List String → String → Bool
  unfolding matches_some or_all negative_rules
  match rules device =
      let matches = matches_some device (or_all (positive_rules rules)) in
      if matches_some device (negative_rules rules) then false else matches

  unfoldable pub match_list : List String → List String → List String
  unfolding match
  match_list rules [] = []
  match_list rules (device ∷ devices) =
      let rest = match_list rules devices in if match rules device then device ∷ rest else rest
