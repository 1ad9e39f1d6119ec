-- ===== src/Daemon/Switch/Outcome.antt =====
-- What remains of the daemon's state when tuned/daemon/daemon.py cannot set a profile.
use tuned.Base.{String, ◌≡◌, refl, Bool, true, false, Option, none, some, List, [], ◌∷◌, arith, sym}
use tuned.Base.{if_intro, ◌==◌, string_eq, Option-cases, inl, inr, ltb, length}
use tuned.Base.{if◌then◌else◌, ◌||◌, ◌&&◌, not, ap, ◌∙◌, Bool-cases, subst}
use tuned.Base.Text.{words}
use tuned.Profiles.Unit.{Profile}
use tuned.Daemon.Switch.{
  Daemon, with_post_loaded, all_known, load_known, load_profiles, set_profile, set_all_profiles,
  set_post_loaded_profile,
}
use tuned.Daemon.Switch.{save_both}
use tuned.Base.{not}

-- Nothing but the signals differs.
abbrev pub OnlySignals : Daemon → Daemon → Type 0
OnlySignals d d' = d' ≡ record d { signals = d'.signals }

-- The post-loaded profile that a name stands for, and whether it has several words
abbrev pub wanted : Option String → Option String
wanted none = none
wanted (some p) = if p == "" then none else some p

abbrev pub is_many : Option String → Bool
is_many none = false
is_many (some p) = not (p == "") && ltb 1 (length (words p))

post_refused :
    (post : Option String) (d : Daemon)
    → is_many post ≡ true
    → set_post_loaded_profile post d ≡ (false, d)
unfolding set_post_loaded_profile
post_refused none d h = absurd (ground (arith, h))
post_refused (some p) d h =
    let given : (p == "") ≡ false = ground (arith, h) in
    let many : ltb 1 (length (words p)) ≡ true = ground (arith, h, given) in rw (given, many) refl

post_set :
    (post : Option String) (d : Daemon)
    → is_many post ≡ false
    → set_post_loaded_profile post d ≡ (true, record d { post_loaded = wanted post })
unfolding set_post_loaded_profile
post_set none d h = refl
post_set (some p) d h = elim (Bool-cases (p == "")) [
  | inl empty ↦ rw empty refl
  | inr given ↦
      let single : ltb 1 (length (words p)) ≡ false = ground (arith, h, given) in
      rw (given, single) refl
]

module _ (known : List String) (load : List String → Option Profile) where
  -- What the loader gives for a list of names; no names give no profile.
  abbrev pub loaded : List String → Option Profile
  loaded [] = none
  loaded (p ∷ ps) = load (p ∷ ps)

  -- The daemon has switched to these names: all are known, and the loader has loaded them.
  abbrev pub IsSwitched : String → Bool → Daemon → Daemon → Type 0
  IsSwitched names manual d d' =
      let chosen = with_post_loaded d.post_loaded (words names) in
      (all_known known chosen ≡ true)
      × (d'.profile ≡ loaded chosen)
      × (d'.active_profiles ≡ words names)
      × (d'.manual ≡ some manual)
      × (d'.post_loaded ≡ d.post_loaded)
      × (d'.signals ≡ d.signals)

  abbrev Settled : String → Bool → Daemon → Bool × Daemon → Type 0
  Settled names manual d r =
      (r.0 ≡ false → OnlySignals d r.1) × (r.0 ≡ true → IsSwitched names manual d r.1)

  load_known_lem :
      (names : String) (manual : Bool) (chosen : List String) (d : Daemon)
      → chosen ≡ with_post_loaded d.post_loaded (words names)
      → all_known known chosen ≡ true
      → Settled names manual d (load_known known load names manual chosen d)
  unfolding load_known
  load_known_lem names manual [] d e k =
      (λ h. cc h, λ _. rw (← e) (k, refl, refl, refl, refl, refl))
  load_known_lem names manual (p ∷ ps) d e k = elim (Option-cases (load (p ∷ ps))) [
    | inl failed ↦ rw (load_known, failed) (λ _. refl, λ h. cc h)
    | inr (profile, found) ↦
        rw (load_known, found) (λ h. cc h, λ _. rw (← e) (k, sym found, refl, refl, refl, refl))
  ]

  load_profiles_lem :
      (names : String) (manual : Bool) (d : Daemon)
      → Settled names manual d (load_profiles known load (some names) manual d)
  unfolding load_profiles
  load_profiles_lem names manual d =
      if_intro {A = Bool × Daemon} (Settled names manual d)
        (all_known known (with_post_loaded d.post_loaded (words names))) _ _
        (λ k. load_known_lem names manual _ d refl k) (λ _. (λ _. refl, λ h. cc h))

  -- Setting a profile either fails or succeeds as a whole. When it raises an exception, nothing
  -- but the signals has changed. When it returns, every name that it loads, the post-loaded one
  -- included, is known, the profile is what the loader gives for them, the active profiles are the
  -- given names, and the post-loaded profile is the one of before.
  pub set_profile_lem :
      (names : String) (manual : Bool) (d : Daemon)
      → Settled names manual d (set_profile known load (some names) manual d)
  unfolding set_profile load_profiles
  set_profile_lem names manual d =
      if_intro {A = Bool × Daemon} (Settled names manual d) d.running _ _
        (λ _. (λ _. refl, λ h. cc h)) (λ _. load_profiles_lem names manual d)

  -- What `set_all_profiles` leaves behind when it raises, and when it returns
  abbrev pub Replaced : String → Option String → Bool → Bool → Daemon → Bool × Daemon → Type 0
  Replaced names post manual save d (ok, d') =
      (ok ≡ false
        → (d' ≡ record d { post_loaded = d'.post_loaded; signals = d'.signals })
          × (d'.post_loaded ≡ (if d.running || is_many post then d.post_loaded else wanted post)))
      × (ok ≡ true
          → IsSwitched names manual (record d { post_loaded = wanted post }) d'
            × (save ≡ true
                → (d'.saved_active ≡ some (some names, manual))
                  × (d'.saved_post_loaded ≡ some post)))

  save_both-Replaced :
      (names : String) (post : Option String) (manual save : Bool) (d : Daemon) (r : Bool × Daemon)
      → d.running ≡ false
      → is_many post ≡ false
      → Settled names manual (record d { post_loaded = wanted post }) r
      → Replaced names post manual save d (save_both known load (some names) manual post save r)
  unfolding save_both
  save_both-Replaced names post manual save d (false, d') idle single (fails, switches) = (
    λ _.
        let e = fails refl in
        let new : d'.post_loaded ≡ wanted post = ap (λ (x : Daemon). x.post_loaded) e in
        (
          e ∙ ap (λ w. record d { post_loaded = w; signals = d'.signals }) (sym new),
          new ∙ rw (idle, single) refl,
        ),
    λ h. cc h,
  )
  save_both-Replaced names post manual true d (true, d') idle single (fails, switches) =
      (λ h. cc h, λ _. (switches refl, λ _. (refl, refl)))
  save_both-Replaced names post manual false d (true, d') idle single (fails, switches) =
      (λ h. cc h, λ _. (switches refl, λ h. cc h))

  -- When `set_all_profiles` raises an exception, only the signals and the post-loaded profile can
  -- differ from before: the post-loaded profile is already the new one, although no profile was
  -- loaded, unless the daemon is running or the new name has several words. When it returns, every
  -- name that it loads, the new post-loaded one included, is known, the profile is what the loader
  -- gives for them, the active profiles are the given names, and both are saved if this was asked
  -- for.
  pub set_all_profiles_lem :
      (names : String) (post : Option String) (manual save : Bool) (d : Daemon)
      → Replaced names post manual save d
          (set_all_profiles known load (some names) manual post save d)
  unfolding set_all_profiles set_post_loaded_profile
  set_all_profiles_lem names post manual save d =
      let rest : Bool × Daemon → Bool × Daemon = λ r.
        if r.0
        then save_both known load (some names) manual post save
            (load_profiles known load (some names) manual r.1)
        else (false, r.1) in
      if_intro {A = Bool × Daemon} (Replaced names post manual save d) d.running _ _
        (λ running. (λ _. (refl, rw running refl), λ h. cc h))
        (λ idle. elim (Bool-cases (is_many post)) [
          | inl many ↦
              subst (λ r. Replaced names post manual save d (rest r))
                (sym (post_refused post d many)) (λ _. (refl, rw (idle, many) refl), λ h. cc h)
          | inr single ↦
              subst (λ r. Replaced names post manual save d (rest r)) (sym (post_set post d single))
                (save_both-Replaced names post manual save d _ idle single
                  (load_profiles_lem names manual (record d { post_loaded = wanted post })))
        ])
