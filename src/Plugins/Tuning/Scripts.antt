-- ===== src/Plugins/Tuning/Scripts.antt =====
-- The scripts of an instance, which tuned/plugins/base.py runs for its devices.
use tuned.Base.{
  String, ◌<>◌, ◌≡◌, ◌≢◌, refl, sym, ap, ◌∙◌, true, ◌⊎◌, inl, inr, some, List, [], ◌∷◌, string_eq,
  arith,
}
use tuned.Base.{starts_with, contains, Bool-cases}
use Prim.Native.String.append
use text.Mathlib.TextEquality.{starts_with_iff}
use tuned.Plugins.Driver.{Driver}
use tuned.Plugins.Commands.{World}
use tuned.Plugins.Tuning.{
  Rollback, ends_with_slash, join_empty, starts_in_some, safe_script_path, call_device_script,
}

-- A directory whose name needs no slash behind it
abbrev pub IsSlashed : String → Type 0
IsSlashed dir = (dir ≡ "") ⊎ ((stem : String) × (dir ≡ stem <> "/"))

-- The path goes on behind the directory and a slash.
abbrev pub LiesIn : String → String → Type 0
LiesIn dir path =
    (rest : String) × ((path ≡ (dir <> "/") <> rest) ⊎ ((path ≡ dir <> rest) × IsSlashed dir))

ends_with_slash-IsSlashed : (dir : String) → ends_with_slash dir ≡ true → IsSlashed dir
unfolding ends_with_slash
ends_with_slash-IsSlashed String.[] h = inl refl
ends_with_slash-IsSlashed (String.◌∷◌ c String.[]) h =
    let e : String.◌∷◌ c String.[] ≡ "/" = ground (arith, h) in inr ("", e ∙ sym (append.nil "/"))
ends_with_slash-IsSlashed (String.◌∷◌ c (String.◌∷◌ d s)) h =
    elim (ends_with_slash-IsSlashed (String.◌∷◌ d s) h) [
      | inl e ↦ absurd (cc e)
      | inr (stem, e) ↦ inr (String.◌∷◌ c stem, ap (String.◌∷◌ c) e ∙ sym (append.cons c stem "/"))
    ]

starts-LiesIn : (dir path : String) → starts_with path (join_empty dir) ≡ true → LiesIn dir path
unfolding join_empty
starts-LiesIn dir path h =
    let (rest, e) = (starts_with_iff path (join_empty dir)).0 h in
    elim (Bool-cases (ends_with_slash dir)) [
      | inl slash ↦
          let same : join_empty dir ≡ dir = rw slash refl in
          (rest, inr (sym e ∙ ap (λ d. d <> rest) same, ends_with_slash-IsSlashed dir slash))
      | inr plain ↦
          let joined : join_empty dir ≡ dir <> "/" = rw plain refl in
          (rest, inl (sym e ∙ ap (λ d. d <> rest) joined))
    ]

starts_in_some-LiesIn :
    (path : String) (dirs : List String)
    → starts_in_some path dirs ≡ true
    → (dir : String) × (contains dirs dir ≡ true) × LiesIn dir path
unfolding starts_in_some
starts_in_some-LiesIn path [] h = absurd (ground (arith, h))
starts_in_some-LiesIn path (p ∷ ps) h = elim (Bool-cases (starts_with path (join_empty p))) [
  | inl here ↦ (p, ground arith, starts-LiesIn p path here)
  | inr other ↦
      let (dir, there, lies) = starts_in_some-LiesIn path ps (ground (arith, h, other)) in
      (dir, ground (arith, there), lies)
]

module _ (D : Driver) where
  -- A script takes effect only if its path begins with a slash and its real path begins with one
  -- of the profile directories and a slash, where an empty directory, or one that ends in a slash,
  -- gets no further one: otherwise nothing is run, and the call does not report success.
  pub call_device_script-safe :
      (script op : String) (devices : List String) (rollback : Rollback) (w : World D)
      → (((rest : String) × (script ≡ "/" <> rest))
          × ((dir : String) × (contains D.profile_dirs dir ≡ true)
              × LiesIn dir (D.realpath script)))
        ⊎ (((call_device_script D (some script) op devices rollback w).1 ≡ w)
            × ((call_device_script D (some script) op devices rollback w).0 ≢ some true))
  unfolding call_device_script safe_script_path
  call_device_script-safe script op [] rollback w = inr (refl, λ e. cc e)
  call_device_script-safe script op (d ∷ ds) rollback w =
      elim (Bool-cases (starts_with script "/")) [
        | inr relative ↦ inr (rw relative (refl, λ e. cc e))
        | inl absolute ↦ elim (Bool-cases (safe_script_path D script)) [
          | inl safe ↦
              let (rest, e) = (starts_with_iff script "/").0 absolute in
              inl ((rest, sym e), starts_in_some-LiesIn (D.realpath script) D.profile_dirs safe)
          | inr unsafe ↦ inr (rw (absolute, unsafe) (refl, λ e. cc e))
        ]
      ]
