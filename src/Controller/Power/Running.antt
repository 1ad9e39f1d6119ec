-- ===== src/Controller/Power/Running.antt =====
-- Whether tuned/daemon/controller.py leaves the daemon running.
use tuned.Base.{
  String, Bool, true, false, not, ◌&&◌, ◌≡◌, refl, sym, ap, ◌∙◌, Option, none, some, List, [],
  if◌then◌else◌, if_intro, Option-cases, inl, inr, arith,
}
use tuned.Profiles.Unit.{Profile}
use tuned.Daemon.Switch.{Daemon, set_profile, init_profile, start, stop}
use tuned.Daemon.Switch.Outcome.{set_profile_lem}
use tuned.Daemon.Switch.Running.{
  has_profile, stop_lem, start_lem, set_profile-running, set_all_profiles-running,
}
use tuned.Utils.Files.{ProfileFiles, get_active_profile, get_post_loaded_profile}
use tuned.Controller.Power.{
  Control, is_denied, is_enabled, start_call, stop_running, reload_profile_config, reload_call,
  switch_to,
}

module _ (known : List String) (load : List String → Option Profile) where
  -- A daemon d that runs exactly if b is switched.
  Switches : String → Bool → Daemon → Bool → Type 0
  Switches name manual d b =
      let stopped = if b then (stop true d).1 else d in
      let (ok, s) = set_profile known load (some name) manual stopped in
      let after = if b then (start s).1 else s in
      (after.running ≡ (b && is_enabled after))
      × (ok ≡ false → (after.profile ≡ d.profile) × (after.running ≡ b))

  switches :
      (name : String) (manual : Bool) (d : Daemon) (b : Bool)
      → d.running ≡ b
      → (b ≡ true → is_enabled d ≡ true)
      → Switches name manual d b
  unfolding Switches
  switches name manual d false e enabled =
      let same = set_profile-running known load (some name) manual d ∙ e in
      (
        same,
        λ failed. (
          ap (λ (x : Daemon). x.profile) ((set_profile_lem known load name manual d).0 failed),
          same,
        ),
      )
  switches name manual d true e enabled =
      let (halted, kept) = stop_lem true d in
      let s = (set_profile known load (some name) manual (stop true d).1).1 in
      let (runs, profile, _) =
        start_lem s (set_profile-running known load (some name) manual (stop true d).1 ∙ halted) in
      (
        runs ∙ ap has_profile (sym profile),
        λ failed.
            let before : s.profile ≡ d.profile =
              ap (λ (x : Daemon). x.profile)
                ((set_profile_lem known load name manual (stop true d).1).0 failed)
              ∙ kept in
            (profile ∙ before, runs ∙ ap has_profile before ∙ enabled refl),
      )

  -- After a switch of a daemon that has a profile if it is running: a daemon that was running runs
  -- again if it has a profile then, and one that was not running does not run. Where the switch
  -- fails, the daemon has the profile of before and runs exactly if it ran before.
  pub switch_to_lem :
      (name : String) (manual : Bool) (c : Control)
      → (c.daemon.running ≡ true → is_enabled c.daemon ≡ true)
      → let (ok, c') = switch_to known load name manual c in
        (c'.daemon.running ≡ (c.daemon.running && is_enabled c'.daemon))
        × (ok ≡ false
            → (c'.daemon.profile ≡ c.daemon.profile) × (c'.daemon.running ≡ c.daemon.running))
  unfolding switch_to Switches
  switch_to_lem name manual c enabled = switches name manual c.daemon c.daemon.running refl enabled

  reload-running :
      (files : ProfileFiles) (recommended : String) (d : Daemon)
      → d.running ≡ false
      → (reload_profile_config known load files recommended d).1.running ≡ false
  unfolding reload_profile_config init_profile
  reload-running files recommended d e = elim (Option-cases (get_post_loaded_profile files)) [
    | inl f ↦ rw (reload_profile_config, f) e
    | inr (p, f) ↦ elim (Option-cases (get_active_profile files)) [
      | inl g ↦ rw (reload_profile_config, f, g) e
      | inr (q, g) ↦
          rw (reload_profile_config, f, g)
            (set_all_profiles-running known load _ _ p
              (record d { profile = none; manual = none; active_profiles = []; post_loaded = none })
              e)
    ]
  ]

  start_call_lem :
      (c : Control)
      → c.daemon.running ≡ false
      → (start_call true none c).0 ≡ (start_call true none c).1.daemon.running
  unfolding start_call is_denied
  start_call_lem c e =
      if_intro {A = Bool × Control} (λ r. r.0 ≡ r.1.daemon.running) c.daemon.running _ _
        (λ h. absurd (ground (arith, h, e)))
        (λ _.
          if_intro {A = Bool × Control} (λ r. r.0 ≡ r.1.daemon.running) (not (is_enabled c.daemon))
            _ _ (λ _. sym e)
            (λ _. let (runs, _, started) = start_lem c.daemon e in started ∙ sym runs))

  stop_running_lem :
      (c : Control)
      → c.daemon.running ≡ true
      → ((stop_running true c).0 ≡ true) × ((stop_running true c).1.daemon.running ≡ false)
  unfolding stop_running stop
  stop_running_lem c e =
      if_intro {A = Bool × Control} (λ r. (r.0 ≡ true) × (r.1.daemon.running ≡ false))
        (not c.daemon.running) _ _ (λ h. absurd (ground (arith, h, e)))
        (λ _.
          if_intro {A = Bool × Daemon} (λ r. (r.0 ≡ true) × (r.1.running ≡ false)) c.daemon.running
            _ _ (λ _. (refl, refl)) (λ h. absurd (ground (arith, h, e))))

  after_stop :
      (files : ProfileFiles) (recommended : String) (q : Bool × Control)
      → (q.0 ≡ true) × (q.1.daemon.running ≡ false)
      → let r = reload_profile_config known load files recommended q.1.daemon in
        let c = record q.1 { daemon = r.1 } in
        let out =
          if q.0 then (if r.0 then start_call true none c else (false, c)) else (false, q.1) in
        out.0 ≡ out.1.daemon.running
  after_stop files recommended (false, c) (h, e) = absurd (ground (arith, h))
  after_stop files recommended (true, c) (h, e) =
      let r = reload_profile_config known load files recommended c.daemon in
      let halted = reload-running files recommended c.daemon e in
      if_intro {A = Bool × Control} (λ x. x.0 ≡ x.1.daemon.running) r.0 _ _
        (λ _. start_call_lem (record c { daemon = r.1 }) halted) (λ _. sym halted)

  -- Where TuneD runs as a daemon, the answer of a reload by an authorized caller tells whether the
  -- daemon runs afterwards.
  pub reload_call_lem :
      (files : ProfileFiles) (recommended : String) (caller : Option String) (c : Control)
      → is_denied caller ≡ false
      → let (ok, c') = reload_call known load true files recommended caller c in
        ok ≡ c'.daemon.running
  unfolding reload_call
  reload_call_lem files recommended caller c allowed =
      if_intro {A = Bool × Control} (λ r. r.0 ≡ r.1.daemon.running) (is_denied caller) _ _
        (λ h. absurd (ground (arith, h, allowed)))
        (λ _.
          after_stop files recommended (if c.daemon.running then stop_running true c else (true, c))
            (if_intro {A = Bool × Control} (λ r. (r.0 ≡ true) × (r.1.daemon.running ≡ false))
              c.daemon.running _ _ (λ e. stop_running_lem c e) (λ e. (refl, e))))
