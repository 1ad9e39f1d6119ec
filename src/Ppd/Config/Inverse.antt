-- ===== src/Ppd/Config/Inverse.antt =====
-- The two mappings of a configuration of tuned/ppd/config.py are inverse to one another.
use mathlib.Core.Option.{or_else}
use tuned.Base.Dict.{contains-keys}
use tuned.Base.Names.{diff}
use tuned.Ppd.Config.{is_empty, profile_map, power_saver, balanced, performance}
use tuned.Base.{
  ap, ◌≤◌, String, ◌≡◌, refl, Bool, true, false, ◌&&◌, Option, none, some, List, [], ◌∷◌,
}
use tuned.Base.{arith, contains, string_eq, length, Bool-cases, Option-cases, inl, inr}
use tuned.Base.Dict.{
  Dict, NodupKeys, keys, values, lookup, lookup-update, lookup-nil, has, update, update-NodupKeys,
}
use tuned.Base.Names.{add, IsNodup}
use tuned.Ppd.Config.{
  ProfileMap, PpdConfig, Sections, get_profile, to_set, swapped, reverse_map, is_injective,
}
use tuned.Ppd.Config.{
  has_basic, default_in, are_valid, get_boolean, make_config, battery_map, load_config,
}

contains-to_set : (xs : List String) (y : String) → contains (to_set xs) y ≡ contains xs y
unfolding to_set add
contains-to_set [] y = refl
contains-to_set (x ∷ xs) y = ground (arith, contains-to_set xs y, contains-to_set xs x)

length-to_set : (xs : List String) → length (to_set xs) ≤ length xs
unfolding to_set add
length-to_set [] = omega arith
length-to_set (x ∷ xs) = ground (arith, length-to_set xs)

-- A list whose set has as many members has no member twice.
to_set-IsNodup : (xs : List String) → length (to_set xs) ≡ length xs → IsNodup xs
unfolding to_set add
to_set-IsNodup [] h = tt
to_set-IsNodup (x ∷ xs) h = elim (Bool-cases (contains xs x)) [
  | inl twice ↦ absurd (omega (arith, length-to_set xs, rw (contains-to_set xs x, twice) at h))
  | inr once ↦ (once, to_set-IsNodup xs (omega (arith, rw (contains-to_set xs x, once) at h)))
]

contains-values :
    (k v : String) (d : Dict String String) → lookup k d ≡ some v → contains (values d) v ≡ true
unfolding lookup
contains-values k v [] h = cc
contains-values k v ((j, w) ∷ d) h = ground (arith, contains-values k v d)

lookup-swapped :
    (k v : String) (d : Dict String String)
    → IsNodup (values d)
    → lookup k d ≡ some v
    → lookup v (swapped d) ≡ some k
unfolding lookup swapped
lookup-swapped k v [] u h = cc
lookup-swapped k v ((j, w) ∷ d) (fresh, u) h =
    ground (arith, lookup-swapped k v d u, contains-values k v d)

lookup-of-swapped :
    (k v : String) (d : Dict String String)
    → NodupKeys d
    → lookup v (swapped d) ≡ some k
    → lookup k d ≡ some v
unfolding lookup swapped
lookup-of-swapped k v [] u h = cc
lookup-of-swapped k v ((j, w) ∷ d) (fresh, u) h = ground (arith, lookup-of-swapped k v d u)

fresh-swapped :
    (v : String) (d : Dict String String)
    → contains (values d) v ≡ false
    → lookup v (swapped d) ≡ none
unfolding lookup swapped
fresh-swapped v [] h = refl
fresh-swapped v ((j, w) ∷ d) h = ground (arith, fresh-swapped v d)

swapped-NodupKeys : (d : Dict String String) → IsNodup (values d) → NodupKeys (swapped d)
unfolding swapped
swapped-NodupKeys [] u = tt
swapped-NodupKeys ((k, v) ∷ d) (fresh, u) = (fresh-swapped v d fresh, swapped-NodupKeys d u)

or_else-none {ℓ} : {A : Type ℓ} (o : Option A) → or_else o none ≡ o
unfolding or_else
or_else-none none = refl
or_else-none (some a) = refl

lookup-reverse_map :
    (v : String) (d : Dict String String)
    → IsNodup (values d)
    → lookup v (reverse_map d) ≡ lookup v (swapped d)
unfolding reverse_map
lookup-reverse_map v d u =
    rw (lookup-update v [] (swapped d) (swapped-NodupKeys d u), lookup-nil {V = String} v)
      (or_else-none (lookup v (swapped d)))

length-values : (d : Dict String String) → length (values d) ≡ length d
length-values [] = refl
length-values (_ ∷ d) = omega (arith, length-values d)

is_injective-IsNodup : (d : Dict String String) → is_injective d ≡ true → IsNodup (values d)
unfolding is_injective
is_injective-IsNodup d h = to_set-IsNodup (values d) (ground (arith, length-values d))

-- What a configuration that could be loaded was loaded from.
record Loads (known : List String) (cfg : Sections) (c : PpdConfig) : Type 0 where
  ac : Dict String String
  dc : Dict String String
  detection : Bool
  profiles : lookup "profiles" cfg ≡ some ac
  battery : battery_map cfg detection ac ≡ some dc
  basic : has_basic ac ≡ true
  default : has ac c.default_profile ≡ true
  valid : are_valid known ac dc ≡ true
  forth : c.ppd_to_tuned ≡ record { ac_map = ac; dc_map = dc }
  back : c.tuned_to_ppd ≡ record { ac_map = reverse_map ac; dc_map = reverse_map dc }

module _ (to_boolean : String → Option Bool) where
  Loads-load_config :
      (known : List String) (cfg : Sections) (c : PpdConfig)
      → load_config to_boolean known cfg ≡ some c
      → Loads known cfg c
  unfolding load_config make_config
  Loads-load_config known cfg c h = elim (Option-cases (lookup "profiles" cfg)) [
    | inl e ↦ absurd (ground (arith, h, e))
    | inr (ac, e) ↦ elim (Bool-cases (has_basic ac && has ac (default_in cfg))) [
      | inr b ↦ absurd (ground (arith, h, e, b))
      | inl b ↦
          elim (Option-cases
            (get_boolean to_boolean cfg "main" "battery_detection" (has cfg "battery"))) [
              | inl g ↦ absurd (ground (arith, h, e, b, g))
              | inr (detection, g) ↦ elim (Option-cases (battery_map cfg detection ac)) [
                | inl m ↦ absurd (ground (arith, h, e, b, g, m))
                | inr (dc, m) ↦ elim (Bool-cases (are_valid known ac dc)) [
                  | inr v ↦ absurd (ground (arith, h, e, b, g, m, v))
                  | inl v ↦
                      elim (Option-cases
                        (get_boolean to_boolean cfg "main" "sysfs_acpi_monitor" true)) [
                          | inl f ↦ absurd (ground (arith, h, e, b, g, m, v, f))
                          | inr (monitor, f) ↦ record {
                            ac = ac;
                            dc = dc;
                            detection = detection;
                            profiles = e;
                            battery = m;
                            basic = ground (arith, b);
                            default = ground (arith, h, e, b, g, m, v, f);
                            valid = v;
                            forth = ground (arith, h, e, b, g, m, v, f);
                            back = ground (arith, h, e, b, g, m, v, f);
                          }
                        ]
                ]
              ]
            ]
    ]
  ]

-- The parser gives each option of a section once.
abbrev pub SectionsNodup : Sections → Type 0
SectionsNodup cfg = (s : String) (d : Dict String String) → lookup s cfg ≡ some d → NodupKeys d

battery_map-NodupKeys :
    (cfg : Sections) (detection : Bool) (ac dc : Dict String String)
    → SectionsNodup cfg
    → NodupKeys ac
    → battery_map cfg detection ac ≡ some dc
    → NodupKeys dc
unfolding battery_map
battery_map-NodupKeys cfg false ac dc u ua h =
    let same : ac ≡ dc = ground (arith, h) in rw same at ua
battery_map-NodupKeys cfg true ac dc u ua h = elim (Option-cases (lookup "battery" cfg)) [
  | inl e ↦ absurd (ground (arith, h, e))
  | inr (d, e) ↦
      let same : update ac d ≡ dc = ground (arith, h, e) in rw same at (update-NodupKeys ac d ua)
]

has-battery_map :
    (k : String) (cfg : Sections) (detection : Bool) (ac dc : Dict String String)
    → SectionsNodup cfg
    → battery_map cfg detection ac ≡ some dc
    → has ac k ≡ true
    → has dc k ≡ true
unfolding battery_map or_else
has-battery_map k cfg false ac dc u h a = let same : ac ≡ dc = ground (arith, h) in rw same at a
has-battery_map k cfg true ac dc u h a = elim (Option-cases (lookup "battery" cfg)) [
  | inl e ↦ absurd (ground (arith, h, e))
  | inr (d, e) ↦
      let same : update ac d ≡ dc = ground (arith, h, e) in
      rw (← same) (ground (arith, lookup-update k ac d (u "battery" d e)))
]

-- A dict and its reversed one, of a mapping that was found to be injective.
reverse_map_lem :
    (d : Dict String String)
    → NodupKeys d
    → is_injective d ≡ true
    → (k v : String)
    → (lookup k d ≡ some v → lookup v (reverse_map d) ≡ some k)
      × (lookup v (reverse_map d) ≡ some k → lookup k d ≡ some v)
reverse_map_lem d u inj k v =
    let once = is_injective-IsNodup d inj in
    (
      λ h. rw (lookup-reverse_map v d once) (lookup-swapped k v d once h),
      λ h. lookup-of-swapped k v d u (rw (lookup-reverse_map v d once) at h),
    )

is_empty-diff :
    (xs ys : List String) (k : String)
    → is_empty (diff xs ys) ≡ true
    → contains xs k ≡ true
    → contains ys k ≡ true
unfolding diff is_empty
is_empty-diff [] ys k h a = cc
is_empty-diff (x ∷ xs) ys k h a = ground (arith, is_empty-diff xs ys k)

-- What the controller relies on.
pub record IsFaithful (c : PpdConfig) : Type 0 where
  pub forth :
      (profile t : String) (b : Bool)
      → get_profile c.ppd_to_tuned profile b ≡ some t
      → get_profile c.tuned_to_ppd t b ≡ some profile
  pub back :
      (profile t : String) (b : Bool)
      → get_profile c.tuned_to_ppd t b ≡ some profile
      → get_profile c.ppd_to_tuned profile b ≡ some t
  pub basic : (b : Bool) → has_basic (profile_map c.ppd_to_tuned b) ≡ true
  pub default : (b : Bool) → has (profile_map c.ppd_to_tuned b) c.default_profile ≡ true
  pub same_keys :
      (k : String) (b b' : Bool)
      → has (profile_map c.ppd_to_tuned b) k ≡ true
      → has (profile_map c.ppd_to_tuned b') k ≡ true

module _ (to_boolean : String → Option Bool) (known : List String) (cfg : Sections) (c : PpdConfig)
    (u : SectionsNodup cfg) (h : load_config to_boolean known cfg ≡ some c) where
  loads : Loads known cfg c
  loads = Loads-load_config to_boolean known cfg c h

  battery_keys : (k : String) → has loads.dc k ≡ true → has loads.ac k ≡ true
  unfolding are_valid is_empty
  battery_keys k a = ground (
    arith,
    loads.valid,
    is_empty-diff (keys loads.dc) (keys loads.ac) k,
    contains-keys loads.dc k,
    contains-keys loads.ac k,
  )

  both_maps :
      (b : Bool)
      → (d : Dict String String) × (profile_map c.ppd_to_tuned b ≡ d)
        × (profile_map c.tuned_to_ppd b ≡ reverse_map d)
        × NodupKeys d
        × (is_injective d ≡ true)
        × ((k : String) → has loads.ac k ≡ true → has d k ≡ true)
        × ((k : String) → has d k ≡ true → has loads.ac k ≡ true)
  unfolding are_valid
  both_maps true = (
    loads.dc,
    ap (λ (m : ProfileMap). m.dc_map) loads.forth,
    ap (λ (m : ProfileMap). m.dc_map) loads.back,
    battery_map-NodupKeys cfg loads.detection loads.ac loads.dc u
        (u "profiles" loads.ac loads.profiles) loads.battery,
    ground (arith, loads.valid),
    λ k a. has-battery_map k cfg loads.detection loads.ac loads.dc u loads.battery a,
    battery_keys,
  )
  both_maps false = (
    loads.ac,
    ap (λ (m : ProfileMap). m.ac_map) loads.forth,
    ap (λ (m : ProfileMap). m.ac_map) loads.back,
    u "profiles" loads.ac loads.profiles,
    ground (arith, loads.valid),
    λ k a. a,
    λ k a. a,
  )

  -- A configuration that can be loaded, from a file in which no section has an option twice, is
  -- faithful: on mains and on battery a TuneD profile stands for a PPD profile exactly if the PPD
  -- profile stands for it, the three basic PPD profiles and the default profile are there, and
  -- the PPD profiles on battery are those on mains.
  pub load_config-IsFaithful : IsFaithful c
  unfolding get_profile has_basic
  load_config-IsFaithful = record {
    forth = λ profile t b.
        let (d, e, f, ud, inj, more, less) = both_maps b in
        rw (e, f) (reverse_map_lem d ud inj profile t).0;
    back = λ profile t b.
        let (d, e, f, ud, inj, more, less) = both_maps b in
        rw (e, f) (reverse_map_lem d ud inj profile t).1;
    basic = λ b.
        let (d, e, f, ud, inj, more, less) = both_maps b in
        rw e (ground (arith, loads.basic, more power_saver, more balanced, more performance));
    default = λ b.
        let (d, e, f, ud, inj, more, less) = both_maps b in
        rw e (more c.default_profile loads.default);
    same_keys = λ k b b' h.
        let (d, e, f, ud, inj, more, less) = both_maps b in
        let (d', e', f', ud', inj', more', less') = both_maps b' in
        rw e' (more' k (less k (rw e at h)));
  }
