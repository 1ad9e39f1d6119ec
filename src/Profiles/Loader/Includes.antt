-- ===== src/Profiles/Loader/Includes.antt =====
-- The inclusions of tuned/profiles/loader.py end.
use tuned.Base.{
  ℕ, zero, suc, ◌+◌, ◌≤◌, ◌<◌, String, ◌≡◌, refl, Bool, true, false, Option, List, [], ◌∷◌, ◌++◌,
  reverse,
}
use tuned.Base.{contains, string_eq, if◌then◌else◌, arith, Option-cases, Bool-cases, inl, inr, ◌⊎◌}
use tuned.Base.Names.{contains-append}
use tuned.Base.Dict.{Dict, lookup}
use tuned.Profiles.Unit.{Value, Options, Profile, create_profile}
use tuned.Profiles.Loader.{
  Found, missing, skipped, found, Loading, loaded, invalid, exhausted, search_config, or_skipped,
  get_config, load_profile,
}

-- How many of the files have not been read.
abbrev pub unread : List String → List String → ℕ
unread [] read = 0
unread (f ∷ files) read = (if contains read f then 0 else 1) + unread files read

unread-more :
    (files read : List String) (g : String) → unread files (read ++ (g ∷ [])) ≤ unread files read
unread-more [] read g = omega arith
unread-more (f ∷ files) read g =
    ground (arith, unread-more files read g, contains-append read (g ∷ []) f)

unread-new :
    (files read : List String) (g : String)
    → contains files g ≡ true
    → contains read g ≡ false
    → unread files (read ++ (g ∷ [])) < unread files read
unread-new [] read g h k = cc
unread-new (f ∷ files) read g h k = elim (string_eq.dec g f) [
  | yes p ↦ ground (arith, unread-more files read g, contains-append read (g ∷ []) f, p)
  | no n ↦ ground (arith, unread-new files read g, contains-append read (g ∷ []) f)
]

-- What is found is a file that has not been read.
abbrev pub IsNew : (String → Bool) → List String → Found → Type 0
IsNew is_file read missing = Unit
IsNew is_file read skipped = Unit
IsNew is_file read (found f) = (is_file f ≡ true) × (contains read f ≡ false)

module _ (is_file : String → Bool) (config_filename : String → String → String) where
  search_config-IsNew :
      (dirs : List String) (name : String) (read : List String) (ret : Found)
      → IsNew is_file read ret
      → IsNew is_file read (search_config is_file config_filename dirs name read ret)
  unfolding search_config
  search_config-IsNew [] name read ret h = h
  search_config-IsNew (d ∷ dirs) name read ret h =
      elim (Bool-cases (contains read (config_filename d name))) [
        | inl e ↦ rw e (search_config-IsNew dirs name read skipped tt)
        | inr e ↦ elim (Bool-cases (is_file (config_filename d name))) [
          | inl f ↦ rw (e, f) (f, e)
          | inr f ↦ rw (e, f) (search_config-IsNew dirs name read ret h)
        ]
      ]

  or_skipped-IsNew :
      (conditional : Bool) (read : List String) (r : Found)
      → IsNew is_file read r
      → IsNew is_file read (or_skipped is_file config_filename conditional r)
  unfolding or_skipped
  or_skipped-IsNew true read missing h = tt
  or_skipped-IsNew false read missing h = tt
  or_skipped-IsNew conditional read skipped h = tt
  or_skipped-IsNew conditional read (found f) h = h

  get_config-IsNew :
      (dirs : List String) (name : String) (read : List String)
      → IsNew is_file read (get_config is_file config_filename dirs name read)
  unfolding get_config
  get_config-IsNew dirs name read =
      or_skipped-IsNew _ read _ (search_config-IsNew (reverse dirs) _ read missing tt)

-- It ends, and at most so many files are left unread.
abbrev pub Ends : List String → ℕ → Loading → Type 0
Ends files n (loaded profiles read) = unread files read ≤ n
Ends files n invalid = Unit
Ends files n exhausted = ⊥

Ends-le : (files : List String) (m n : ℕ) (o : Loading) → m ≤ n → Ends files m o → Ends files n o
Ends-le files m n (loaded ps read) h e = omega (arith, h, e)
Ends-le files m n invalid h e = tt
Ends-le files m n exhausted h e = elim e [ ]

found_new :
    (is_file : String → Bool) (read : List String) (r : Found) (f : String)
    → IsNew is_file read r
    → r ≡ found f
    → (is_file f ≡ true) × (contains read f ≡ false)
found_new is_file read missing f h e = cc
found_new is_file read skipped f h e = cc
found_new is_file read (found g) f h e = let same : g ≡ f = cc e in rw same at h

none_below : (n : ℕ) → n < 0 → ⊥
none_below n h = omega (arith, h)

-- The end of one round, after what the profile includes.
after_include :
    (files : List String) (n : ℕ) (o : Loading) (k : List Profile → List String → Loading)
    → Ends files n o
    → ((before : List Profile) (read : List String)
        → unread files read ≤ n
        → Ends files n (k before read))
    → Ends files n (elim o as (λ _. Loading) [
      | invalid ↦ invalid
      | exhausted ↦ exhausted
      | loaded before read ↦ k before read
    ])
after_include files n (loaded before read) k e h = h before read e
after_include files n invalid k e h = tt
after_include files n exhausted k e h = elim e [ ]

found-cases : (r : Found) → ((f : String) × (r ≡ found f)) ⊎ ((r ≡ missing) ⊎ (r ≡ skipped))
found-cases missing = inr (inl refl)
found-cases skipped = inr (inr refl)
found-cases (found f) = inl (f, refl)

module _ (is_file : String → Bool) (config_filename : String → String → String) (dirs : List String)
    (load_config_data : String → Option (Dict String Options)) (include_names : Value → List String)
    (split_drop : Value → List String) (files : List String)
    (complete : (f : String) → is_file f ≡ true → contains files f ≡ true) where
  abbrev loading : ℕ → List String → List Profile → List String → Loading
  loading =
      load_profile (get_config is_file config_filename dirs) load_config_data include_names
        split_drop

  -- If the files that there are stand in a list, then with more fuel than there are unread files
  -- in it, the loading of profiles with all that they include ends: it returns, or it raises the
  -- exception for an invalid profile. This holds even where profiles include each other.
  pub load_profile-Ends :
      (fuel : ℕ) (names : List String) (profiles : List Profile) (read : List String)
      → unread files read < fuel
      → Ends files (unread files read) (loading fuel names profiles read)
  unfolding load_profile
  load_profile-Ends fuel [] profiles read h = omega arith
  load_profile-Ends zero (name ∷ names) profiles read h = elim (none_below _ h) [ ]
  load_profile-Ends (suc fuel) (name ∷ names) profiles read h =
      elim (found-cases (get_config is_file config_filename dirs name read)) [
        | inr (inl e) ↦ rw (load_profile, e) tt
        | inr (inr e) ↦ rw (load_profile, e) (load_profile-Ends (suc fuel) names profiles read h)
        | inl (f, e) ↦
            let (there, new) =
              found_new is_file read _ f (get_config-IsNew is_file config_filename dirs name read)
                e in
            let fewer = unread-new files read f (complete f there) new in
            elim (Option-cases (load_config_data f)) [
              | inl c ↦ rw (load_profile, e, c) tt
              | inr (config, c) ↦
                  elim (Option-cases
                    (lookup "include" (create_profile split_drop name config).options)) [
                      | inl i ↦
                          rw (load_profile, e, c, i)
                            (Ends-le files (unread files (read ++ (f ∷ []))) (unread files read) _
                              (omega (arith, fewer))
                              (load_profile-Ends (suc fuel) names
                                (profiles ++ (create_profile split_drop name config ∷ []))
                                (read ++ (f ∷ [])) (omega (arith, fewer, h))))
                      | inr (v, i) ↦
                          rw (load_profile, e, c, i)
                            (after_include files (unread files read) _ _
                              (Ends-le files (unread files (read ++ (f ∷ []))) (unread files read) _
                                (omega (arith, fewer))
                                (load_profile-Ends fuel (include_names v) profiles
                                  (read ++ (f ∷ [])) (omega (arith, fewer, h))))
                              (λ before read' less.
                                Ends-le files (unread files read') (unread files read) _ less (
                                  load_profile-Ends (suc fuel) names _ read'
                                    (omega (arith, less, h)))))
                    ]
            ]
      ]
