-- ===== src/Plugins/Commands/Undo.antt =====
-- Static tuning is undone: `_instance_unapply_static` after `_instance_apply_static`.
use tuned.Base.{String, ◌≡◌, ◌≢◌, ◌∙◌, ap, true, false, Option, none, some, inl, inr, arith}
use tuned.Base.{List, [], ◌∷◌, All, string_eq, option_eq, if◌then◌else◌}
use tuned.Base.{Option-cases}
use tuned.Plugins.Instance.{Instance}
use tuned.Plugins.Driver.{Command, Driver}
use tuned.Plugins.Commands.{World, cleanup_command, execute_given, option_value, is_wanted}
use tuned.Plugins.Commands.Keys.{IsPlain}
use tuned.Plugins.Commands.Effects.{IsLawful, IsTarget, same}
use tuned.Plugins.Commands.Restore.{
  IsUntouched, IsHeld, IsHeld-execute_other, IsUntouched-execute_other, IsHeld-execute_self,
  IsUntouched-cleanup, IsHeld-cleanup, IsUntouched-cleanup_self,
}
use tuned.Base.{if_intro}
use tuned.Plugins.Commands.Runs.{Job, run, undo}

abbrev pub Differs : Job → Job → Type 0
Differs (c, d) (e, f) = same c d e f ≡ false

abbrev pub Apart : List Job → Type 0
Apart [] = Unit
Apart (j ∷ js) = All (Differs j) js × All (λ k. Differs k j) js × Apart js

module _ (D : Driver) (L : IsLawful D) (i : Instance) (plain : IsPlain i.name) where
  module _ (before : String → Option String → Option String) where
    abbrev pub Target : Job → Type 0
    Target (c, d) = IsTarget c d

    abbrev pub Untouched : Job → World D → Type 0
    Untouched (c, d) w = IsUntouched D L i plain before c d w

    -- A job's value can be read, and nothing has happened to it.
    abbrev pub Ready : Job → World D → Type 0
    Ready (c, d) w = IsTarget c d × IsUntouched D L i plain before c d w × (before c.name d ≢ none)

    -- After a job: the old value is held, and a job that cleanup passes over has done nothing.
    abbrev pub Done : Job → World D → Type 0
    Done (c, d) w =
        IsTarget c d
        × IsHeld D L i plain before c d w
        × (is_wanted D i c ≡ false → IsUntouched D L i plain before c d w)

    execute_keeps :
        (j : Job) (c : Command) (d : Option String) (w : World D)
        → Differs j (c, d)
        → Ready (c, d) w
        → Done j w
        → Done j (execute_given D i c d (option_value D i c) w)
    execute_keeps (b, e) c d w ne (tc, (stored, current), readable) (tb, held, idle) =
        elim (Option-cases (option_value D i c)) [
          | inl absent ↦ unfold execute_given in rw absent (tb, held, idle)
          | inr (v, given) ↦ elim (Option-cases (before c.name d)) [
            | inl unreadable ↦ absurd (readable unreadable)
            | inr (old, was) ↦
                unfold execute_given in
                rw given (
                  tb,
                  IsHeld-execute_other D L i plain before b c e d tb tc v old w (current ∙ was) ne
                      held,
                  λ h.
                      IsUntouched-execute_other D L i plain before b c e d tb tc v old w
                        (current ∙ was) ne (idle h),
                )
          ]
        ]

    execute-Ready :
        (j : Job) (c : Command) (d : Option String) (w : World D)
        → Differs j (c, d)
        → Ready (c, d) w
        → Ready j w
        → Ready j (execute_given D i c d (option_value D i c) w)
    execute-Ready (b, e) c d w ne (tc, (stored, current), readable) (tb, fresh, read_b) =
        elim (Option-cases (option_value D i c)) [
          | inl absent ↦ unfold execute_given in rw absent (tb, fresh, read_b)
          | inr (v, given) ↦ elim (Option-cases (before c.name d)) [
            | inl unreadable ↦ absurd (readable unreadable)
            | inr (old, was) ↦
                unfold execute_given in
                rw given (
                  tb,
                  IsUntouched-execute_other D L i plain before b c e d tb tc v old w (current ∙ was)
                      ne fresh,
                  read_b,
                )
          ]
        ]

    same_self : (c : Command) (d : Option String) → same c d c d ≡ true
    same_self c d = ground arith

    -- A command whose option is given is not passed over by cleanup.
    wanted_given : (c : Command) (v : String) → option_value D i c ≡ some v → is_wanted D i c ≡ true
    unfolding option_value is_wanted
    wanted_given c v h = ground arith

    execute-Done :
        (c : Command) (d : Option String) (w : World D)
        → Ready (c, d) w
        → Done (c, d) (execute_given D i c d (option_value D i c) w)
    execute-Done c d w (tc, fresh, readable) = elim (Option-cases (option_value D i c)) [
      | inl absent ↦ unfold execute_given in rw absent (tc, inl fresh, λ h. fresh)
      | inr (v, given) ↦ elim (Option-cases (before c.name d)) [
        | inl unreadable ↦ absurd (readable unreadable)
        | inr (old, was) ↦
            unfold execute_given in
            rw given (
              tc,
              IsHeld-execute_self D L i plain before c c d d tc tc v old w (fresh.1 ∙ was)
                  (same_self c d) fresh was,
              λ h. cc (h, wanted_given c v given),
            )
      ]
    ]

    Ready-after :
        (c : Command) (d : Option String) (jobs : List Job) (w : World D)
        → All (λ k. Differs k (c, d)) jobs
        → Ready (c, d) w
        → All (λ k. Ready k w) jobs
        → All (λ k. Ready k (execute_given D i c d (option_value D i c) w)) jobs
    Ready-after c d [] w apart r ready = tt
    Ready-after c d (k ∷ jobs) w (ne, apart) r (rk, ready) =
        (execute-Ready k c d w ne r rk, Ready-after c d jobs w apart r ready)

    run_keeps :
        (j : Job) (jobs : List Job) (w : World D)
        → All (Differs j) jobs
        → Apart jobs
        → All (λ k. Ready k w) jobs
        → Done j w
        → Done j (run D i jobs w)
    unfolding run
    run_keeps j [] w ne ap ready h = h
    run_keeps j ((c, d) ∷ jobs) w (ne, nes) (_, apart, aparts) (r, ready) h =
        run_keeps j jobs _ nes aparts (Ready-after c d jobs w apart r ready)
          (execute_keeps j c d w ne r h)

    pub run-Done :
        (jobs : List Job) (w : World D)
        → Apart jobs
        → All (λ k. Ready k w) jobs
        → All (λ k. Done k (run D i jobs w)) jobs
    unfolding run
    run-Done [] w ap ready = tt
    run-Done ((c, d) ∷ jobs) w (differs, apart, aparts) (r, ready) =
        let later = Ready-after c d jobs w apart r ready in
        (
          run_keeps (c, d) jobs _ differs aparts later (execute-Done c d w r),
          run-Done jobs _ aparts later,
        )

    -- Cleanup restores its own job, and leaves other jobs held or restored.
    undo_keeps :
        (j : Job) (jobs : List Job) (w : World D)
        → All Target jobs
        → Target j
        → Untouched j w
        → Untouched j (undo D i jobs w)
    unfolding undo
    undo_keeps j [] w ts t h = h
    undo_keeps (b, e) ((c, d) ∷ jobs) w (tc, ts) t h =
        undo_keeps (b, e) jobs _ ts t
          (if_intro (Untouched (b, e)) (is_wanted D i c) _ _
            (λ _. IsUntouched-cleanup D L i plain before b c e d t tc false w h) (λ _. h))

    cleanup-Done :
        (j : Job) (c : Command) (d : Option String) (w : World D)
        → IsTarget c d
        → Done j w
        → Done j (if is_wanted D i c then cleanup_command D i c d false w else w)
    cleanup-Done (b, e) c d w tc (tb, held, idle) =
        if_intro (Done (b, e)) (is_wanted D i c) _ _
          (λ _. (
            tb,
            IsHeld-cleanup D L i plain before b c e d tb tc false w held,
            λ h. IsUntouched-cleanup D L i plain before b c e d tb tc false w (idle h),
          ))
          (λ _. (tb, held, idle))

    Done-after :
        (c : Command) (d : Option String) (jobs : List Job) (w : World D)
        → IsTarget c d
        → All (λ k. Done k w) jobs
        → All (λ k. Done k (if is_wanted D i c then cleanup_command D i c d false w else w)) jobs
    Done-after c d [] w tc h = tt
    Done-after c d (k ∷ jobs) w tc (hk, h) =
        (cleanup-Done k c d w tc hk, Done-after c d jobs w tc h)

    targets : (jobs : List Job) (w : World D) → All (λ k. Done k w) jobs → All Target jobs
    targets [] w h = tt
    targets (j ∷ jobs) w (hj, h) = (hj.0, targets jobs w h)

    pub undo-Done :
        (jobs : List Job) (w : World D)
        → All (λ k. Done k w) jobs
        → All (λ k. Untouched k (undo D i jobs w)) jobs
    unfolding undo
    undo-Done [] w h = tt
    undo-Done ((c, d) ∷ jobs) w ((tc, held, idle), h) = (
      undo_keeps (c, d) jobs _ (targets jobs w h) tc
          (if_intro (Untouched (c, d)) (is_wanted D i c) _ _
            (λ _.
              IsUntouched-cleanup_self D L i plain before c c d d tc tc false w (same_self c d)
                held)
            idle),
      undo-Done jobs _ (Done-after c d jobs w tc h),
    )
