-- ===== src/Daemon/Switch/Running.antt =====
-- Which operations of tuned/daemon/daemon.py start or stop the thread, and which leave it.
use tuned.Base.{
  String, Bool, true, false, ◌≡◌, refl, ◌∙◌, Option, none, some, List, [], ◌∷◌, if_intro,
  Option-cases, inl, inr,
}
use tuned.Base.{◌==◌, string_eq, ltb, length}
use tuned.Profiles.Unit.{Profile}
use tuned.Daemon.Switch.{
  Daemon, set_profile, load_profiles, load_known, set_post_loaded_profile, set_all_profiles,
  save_both, start, stop, all_known, with_post_loaded, text_or_empty,
}
use tuned.Base.Text.{words}

abbrev pub has_profile : Option Profile → Bool
has_profile none = false
has_profile (some p) = true

pub stop_lem :
    (switch : Bool) (d : Daemon)
    → ((stop switch d).1.running ≡ false) × ((stop switch d).1.profile ≡ d.profile)
unfolding stop
stop_lem switch d =
    if_intro {A = Bool × Daemon} (λ r. (r.1.running ≡ false) × (r.1.profile ≡ d.profile)) d.running
      _ _ (λ _. (refl, refl)) (λ e. (e, refl))

pub start_lem :
    (d : Daemon)
    → d.running ≡ false
    → ((start d).1.running ≡ has_profile d.profile)
      × ((start d).1.profile ≡ d.profile)
      × ((start d).0 ≡ has_profile d.profile)
unfolding start
start_lem d e = elim (Option-cases d.profile) [
  | inl f ↦ rw (e, start, f) (e, f, refl)
  | inr (p, f) ↦ rw (e, start, f) (refl, f, refl)
]

set_post_loaded-running :
    (name : Option String) (d : Daemon) → (set_post_loaded_profile name d).1.running ≡ d.running
unfolding set_post_loaded_profile
set_post_loaded-running none d = refl
set_post_loaded-running (some name) d =
    if_intro {A = Bool × Daemon} (λ r. r.1.running ≡ d.running) (name == "") _ _ (λ _. refl)
      (λ _.
        if_intro {A = Bool × Daemon} (λ r. r.1.running ≡ d.running) (ltb 1 (length (words name))) _
          _ (λ _. refl) (λ _. refl))

module _ (known : List String) (load : List String → Option Profile) where
  load_known-running :
      (names : String) (manual : Bool) (l : List String) (d : Daemon)
      → (load_known known load names manual l d).1.running ≡ d.running
  unfolding load_known
  load_known-running names manual [] d = refl
  load_known-running names manual (p ∷ ps) d = elim (Option-cases (load (p ∷ ps))) [
    | inl e ↦ rw (load_known, e) refl
    | inr (q, e) ↦ rw (load_known, e) refl
  ]

  load_profiles-running :
      (names : Option String) (manual : Bool) (d : Daemon)
      → (load_profiles known load names manual d).1.running ≡ d.running
  unfolding load_profiles
  load_profiles-running names manual d =
      if_intro {A = Bool × Daemon} (λ r. r.1.running ≡ d.running)
        (all_known known (with_post_loaded d.post_loaded (words (text_or_empty names)))) _ _
        (λ _. load_known-running (text_or_empty names) manual _ d) (λ _. refl)

  pub set_profile-running :
      (names : Option String) (manual : Bool) (d : Daemon)
      → (set_profile known load names manual d).1.running ≡ d.running
  unfolding set_profile
  set_profile-running names manual d =
      if_intro {A = Bool × Daemon} (λ r. r.1.running ≡ d.running) d.running _ _ (λ _. refl)
        (λ _. load_profiles-running names manual d)

  save_both-running :
      (names : Option String) (manual : Bool) (post_loaded : Option String) (r : Bool × Daemon)
      → (save_both known load names manual post_loaded false r).1.running ≡ r.1.running
  unfolding save_both
  save_both-running names manual post_loaded (true, d) = refl
  save_both-running names manual post_loaded (false, d) = refl

  pub set_all_profiles-running :
      (names : Option String) (manual : Bool) (post_loaded : Option String) (d : Daemon)
      → d.running ≡ false
      → (set_all_profiles known load names manual post_loaded false d).1.running ≡ false
  unfolding set_all_profiles
  set_all_profiles-running names manual post_loaded d e =
      let r = set_post_loaded_profile post_loaded d in
      let kept : r.1.running ≡ false = set_post_loaded-running post_loaded d ∙ e in
      if_intro {A = Bool × Daemon} (λ r. r.1.running ≡ false) d.running _ _ (λ _. e)
        (λ _.
          if_intro {A = Bool × Daemon} (λ r. r.1.running ≡ false) r.0 _ _
            (λ _.
              save_both-running names manual post_loaded (load_profiles known load names manual r.1)
              ∙ load_profiles-running names manual r.1
              ∙ kept)
            (λ _. kept))
