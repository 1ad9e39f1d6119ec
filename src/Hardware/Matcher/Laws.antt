-- ===== src/Hardware/Matcher/Laws.antt =====
-- Which devices tuned/hardware/device_matcher.py lets through.
use tuned.Base.{String, ◌≡◌, refl, Bool, true, ◌&&◌, List, [], ◌∷◌, arith, contains, string_eq}
use tuned.Hardware.Matcher.{match, match_list, matches_some}

module _ (fnmatch : String → String → Bool) where
  -- The devices of `match_list` are exactly those of the given ones that match.
  pub contains-match_list :
      (rules devices : List String) (d : String)
      → contains (match_list fnmatch rules devices) d
        ≡ (contains devices d && match fnmatch rules d)
  unfolding match_list
  contains-match_list rules [] d = refl
  contains-match_list rules (e ∷ devices) d = elim (string_eq.dec d e) [
    | yes p ↦ rw p (ground (arith, contains-match_list rules devices e))
    | no n ↦ ground (arith, contains-match_list rules devices d)
  ]

  -- A rule of a list that matches is enough for the list.
  some-matches :
      (rules : List String) (d r : String)
      → contains rules r ≡ true
      → fnmatch d r ≡ true
      → matches_some fnmatch d rules ≡ true
  unfolding matches_some
  some-matches [] d r h m = ground arith
  some-matches (q ∷ rules) d r h m = ground (arith, some-matches rules d r)
