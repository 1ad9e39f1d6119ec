-- ===== src/Plugins/Devices/Partition.antt =====
-- Every device of a plugin is free, or held once by one instance, or unknown.
use tuned.Base.{
  ℕ, ◌+◌, ◌≤◌, String, ◌≡◌, refl, Bool, true, false, not, ◌&&◌, ◌||◌, some, List, [], ◌∷◌,
}
use tuned.Base.{arith, ◌==◌, contains, string_eq, length, ltb, Bool-cases, inl, inr}
use tuned.Base.Dict.{Dict, NodupKeys, lookup, insert, erase}
use tuned.Base.Names.{union, diff, inter, contains-union, contains-diff, contains-inter}
use tuned.Plugins.Instance.{Instance}
use tuned.Base.Dict.{erase_absent}
use tuned.Plugins.Devices.{put_back, Plugin, Matching, assign_free_devices, release_devices}
use tuned.Base.Dict.{insert-NodupKeys}
use tuned.Base.{if_intro}

abbrev pub bit : Bool → ℕ
bit true = 1
bit false = 0

-- How often an instance holds a device: as assigned and as processed.
abbrev pub holds : String → Instance → ℕ
holds d i = bit (contains i.assigned_devices d) + bit (contains i.processed_devices d)

unfoldable pub tally : String → Dict String Instance → ℕ
tally d [] = 0
tally d ((_, i) ∷ rest) = holds d i + tally d rest

pub tally-insert :
    (d name : String) (i j : Instance) (ds : Dict String Instance)
    → lookup name ds ≡ some i
    → tally d (insert name j ds) + holds d i ≡ tally d ds + holds d j
unfolding tally lookup insert
tally-insert d name i j [] h = cc
tally-insert d name i j ((k, l) ∷ ds) h = elim (Bool-cases (name == k)) [
  | inl e ↦ let same : l ≡ i = ground arith in rw (e, same) (omega arith)
  | inr e ↦ let rest = tally-insert d name i j ds (ground arith) in rw e (omega (arith, rest))
]

pub tally-erase :
    (d name : String) (i : Instance) (ds : Dict String Instance)
    → NodupKeys ds
    → lookup name ds ≡ some i
    → tally d (erase name ds) + holds d i ≡ tally d ds
unfolding tally lookup erase
tally-erase d name i [] u h = cc
tally-erase d name i ((k, l) ∷ ds) (fresh, u) h = elim (string_eq.dec name k) [
  | yes e ↦
      let same : l ≡ i = ground arith in
      let gone : erase name ds ≡ ds = erase_absent name ds (rw e fresh) in
      ground (arith, same, gone)
  | no n ↦ let rest = tally-erase d name i ds u (ground arith) in ground (arith, rest)
]

-- A plugin's books: names are unique, a device is assigned exactly if one instance holds it, which
-- then holds it once, and no assigned device is free.
pub record IsSound (p : Plugin) : Type 0 where
  pub names : NodupKeys p.instances
  pub held : (d : String) → tally d p.instances ≡ bit (contains p.assigned_devices d)
  pub apart :
      (d : String) → bit (contains p.assigned_devices d) + bit (contains p.free_devices d) ≤ 1

-- An instance that the plugin holds under its name holds at most what all of them hold.
pub holds-le-tally :
    (d name : String) (i : Instance) (ds : Dict String Instance)
    → lookup name ds ≡ some i
    → holds d i ≤ tally d ds
unfolding tally lookup
holds-le-tally d name i [] h = cc
holds-le-tally d name i ((k, l) ∷ ds) h = elim (Bool-cases (name == k)) [
  | inl e ↦ let same : l ≡ i = ground arith in rw same (omega arith)
  | inr e ↦ omega (arith, holds-le-tally d name i ds (ground arith))
]

module _ (name : String) (i : Instance) (p : Plugin) (here : lookup name p.instances ≡ some i)
    (s : IsSound p) where
  pub holds-le : (d : String) → holds d i ≤ bit (contains p.assigned_devices d)
  holds-le d = rw (← s.held d) (holds-le-tally d name i p.instances here)

  -- An operation on one instance keeps the books if it balances for each device.
  pub put_back-IsSound :
      (i' : Instance) (assigned free : List String)
      → ((d : String)
          → (holds d i' + bit (contains p.assigned_devices d)
              ≡ holds d i + bit (contains assigned d))
            × (bit (contains assigned d) + bit (contains free d) ≤ 1))
      → IsSound (put_back name (i', record p { assigned_devices = assigned; free_devices = free }))
  put_back-IsSound i' assigned free balanced = record {
    names = insert-NodupKeys name i' p.instances s.names;
    held = λ d. omega (arith, tally-insert d name i i' p.instances here, s.held d, (balanced d).0);
    apart = λ d. (balanced d).1;
  }

-- What the matcher chooses is among the devices that it was given.
abbrev pub MatchesWithin : Matching → Type 0
MatchesWithin matching =
    (i : Instance) (ds : List String) (d : String)
    → contains (matching i ds) d ≡ true
    → contains ds d ≡ true

-- The two cases of `assign_free_devices`.
assign_balanced :
    (i : Instance) (p : Plugin) (chosen : List String) (d : String)
    → (contains chosen d ≡ true → contains p.free_devices d ≡ true)
    → holds d i ≤ bit (contains p.assigned_devices d)
    → bit (contains p.assigned_devices d) + bit (contains p.free_devices d) ≤ 1
    → (holds d (record i { active = true; assigned_devices = union i.assigned_devices chosen })
          + bit (contains p.assigned_devices d)
        ≡ holds d i + bit (contains (union p.assigned_devices chosen) d))
      × (bit (contains (union p.assigned_devices chosen) d)
            + bit (contains (diff p.free_devices chosen) d)
          ≤ 1)
assign_balanced i p chosen d within held apart =
    rw
      (
        contains-union i.assigned_devices chosen d,
        contains-union p.assigned_devices chosen d,
        contains-diff p.free_devices chosen d,
      )
      (ground arith)

module _ (matching : Matching) (within : MatchesWithin matching) where
  -- If a matcher chooses only among the devices that it is given, assigning the free devices that
  -- match an instance of the plugin keeps sound books sound, also where there are none or where
  -- the plugin supports no devices.
  pub assign_free_devices-IsSound :
      (name : String) (i : Instance) (p : Plugin)
      → lookup name p.instances ≡ some i
      → IsSound p
      → IsSound (put_back name (assign_free_devices matching i p))
  unfolding assign_free_devices
  assign_free_devices-IsSound name i p here s =
      if_intro (λ r. IsSound (put_back name r)) (not p.devices_supported) _ _
        (λ _. put_back-IsSound name i p here s _ _ _ (λ d. (refl, s.apart d)))
        (λ _.
          if_intro (λ r. IsSound (put_back name r)) (ltb 0 (length (matching i p.free_devices))) _ _
            (λ _. put_back-IsSound name i p here s _ _ _ (λ d.
              assign_balanced i p (matching i p.free_devices) d (within i p.free_devices d)
                (holds-le name i p here s d) (s.apart d)))
            (λ _. put_back-IsSound name i p here s _ _ _ (λ d. (refl, s.apart d))))

released : Instance → List String → List String
released i assigned = inter (union i.processed_devices i.assigned_devices) assigned

contains-released :
    (i : Instance) (assigned : List String) (d : String)
    → contains (released i assigned) d
      ≡ ((contains i.processed_devices d || contains i.assigned_devices d) && contains assigned d)
unfolding released
contains-released i assigned d =
    rw
      (
        contains-inter (union i.processed_devices i.assigned_devices) assigned d,
        contains-union i.processed_devices i.assigned_devices d,
      )
      refl

release_balanced :
    (i : Instance) (p : Plugin) (d : String)
    → holds d i ≤ bit (contains p.assigned_devices d)
    → bit (contains p.assigned_devices d) + bit (contains p.free_devices d) ≤ 1
    → (bit (contains p.assigned_devices d)
        ≡ holds d i + bit (contains (diff p.assigned_devices (released i p.assigned_devices)) d))
      × (bit (contains (diff p.assigned_devices (released i p.assigned_devices)) d)
            + bit (contains (union p.free_devices (released i p.assigned_devices)) d)
          ≤ 1)
release_balanced i p d held apart =
    rw
      (
        contains-diff p.assigned_devices (released i p.assigned_devices) d,
        contains-union p.free_devices (released i p.assigned_devices) d,
        contains-released i p.assigned_devices d,
      )
      (ground arith)

-- In a plugin with sound books that supports devices, releasing the devices of an instance frees
-- exactly those that it holds, and the books are sound afterwards.
pub release_devices-IsSound :
    (name : String) (i : Instance) (p : Plugin)
    → p.devices_supported ≡ true
    → lookup name p.instances ≡ some i
    → IsSound p
    → IsSound (put_back name (release_devices i p))
      × ((d : String)
          → contains (release_devices i p).1.free_devices d ≡ (
              contains p.free_devices d
              || (contains i.processed_devices d || contains i.assigned_devices d)))
unfolding release_devices released
release_devices-IsSound name i p supported here s =
    if_intro
      (λ r.
        IsSound (put_back name r)
        × ((d : String)
            → contains r.1.free_devices d ≡ (
                contains p.free_devices d
                || (contains i.processed_devices d || contains i.assigned_devices d))))
      (not p.devices_supported) _ _ (λ h. ground (arith, supported))
      (λ _. (
        put_back-IsSound name i p here s _ _ _ (λ d.
            let (balanced, apart) =
              release_balanced i p d (holds-le name i p here s d) (s.apart d) in
            (omega (arith, balanced), apart)),
        λ d.
            rw
              (
                contains-union p.free_devices (released i p.assigned_devices) d,
                contains-released i p.assigned_devices d,
              )
              (ground (arith, holds-le name i p here s d)),
      ))
