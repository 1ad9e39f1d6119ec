-- ===== src/Plugins/Commands/Jobs.antt =====
-- The jobs of the static tuning in tuned/plugins/base.py, a command and a device each: what holds
-- of all of them in one order holds in the other, and any two of them differ.
use mathlib.Core.List.{reverse-reverse}
use tuned.Base.{String, ◌≡◌, false, Option, none, some, arith, ◌==◌}
use tuned.Base.{List, [], ◌∷◌, ◌++◌, map, reverse, All, All-append, All-split, All-reverse, All-map}
use tuned.Base.{contains, string_eq, option_eq}
use tuned.Base.Names.{IsNodup}
use tuned.Plugins.Driver.{Command}
use tuned.Plugins.Commands.{}
use tuned.Plugins.Commands.Effects.{same}
use tuned.Plugins.Commands.Runs.{Job, on_devices, pairs, plain_jobs}
use tuned.Plugins.Commands.Undo.{Differs, Apart}

abbrev pub command_name : Command → String
command_name c = c.name

module _ {ℓ} (P : Job → Type ℓ) where
  abbrev pub OnAll : List Command → List String → Type ℓ
  OnAll cs ds = All (λ c. All (λ d. P (c, some d)) ds) cs

  abbrev pub OnNone : List Command → Type ℓ
  OnNone cs = All (λ c. P (c, none)) cs

  on_devices_in :
      (c : Command) (ds : List String) → All (λ d. P (c, some d)) ds → All P (on_devices c ds)
  unfolding on_devices
  on_devices_in c [] h = tt
  on_devices_in c (d ∷ ds) (hd, h) = (hd, on_devices_in c ds h)

  on_devices_out :
      (c : Command) (ds : List String) → All P (on_devices c ds) → All (λ d. P (c, some d)) ds
  unfolding on_devices
  on_devices_out c [] h = tt
  on_devices_out c (d ∷ ds) (hd, h) = (hd, on_devices_out c ds h)

  pub pairs_in : (cs : List Command) (ds : List String) → OnAll cs ds → All P (pairs cs ds)
  unfolding pairs
  pairs_in [] ds h = tt
  pairs_in (c ∷ cs) ds (hc, h) =
      All-append P (on_devices c ds) (pairs cs ds) (on_devices_in c ds hc) (pairs_in cs ds h)

  pairs_out : (cs : List Command) (ds : List String) → All P (pairs cs ds) → OnAll cs ds
  unfolding pairs
  pairs_out [] ds h = tt
  pairs_out (c ∷ cs) ds h =
      let (h1, h2) = All-split P (on_devices c ds) (pairs cs ds) h in
      (on_devices_out c ds h1, pairs_out cs ds h2)

  pub plain_in : (cs : List Command) → OnNone cs → All P (plain_jobs cs)
  unfolding plain_jobs
  plain_in [] h = tt
  plain_in (c ∷ cs) (hc, h) = (hc, plain_in cs h)

  plain_out : (cs : List Command) → All P (plain_jobs cs) → OnNone cs
  unfolding plain_jobs
  plain_out [] h = tt
  plain_out (c ∷ cs) (hc, h) = (hc, plain_out cs h)

  -- What holds of all jobs of the apply loops holds of all jobs of the cleanup loops.
  pub cleanup_order :
      (ns cs : List Command) (ds : List String)
      → All P (plain_jobs ns ++ pairs cs ds)
      → All P (pairs (reverse cs) ds ++ plain_jobs (reverse ns))
  cleanup_order ns cs ds h =
      let (h1, h2) = All-split P (plain_jobs ns) (pairs cs ds) h in
      All-append P _ _ (pairs_in (reverse cs) ds (All-reverse _ cs (pairs_out cs ds h2)))
        (plain_in (reverse ns) (All-reverse _ ns (plain_out ns h1)))

  pub apply_order :
      (ns cs : List Command) (ds : List String)
      → All P (pairs (reverse cs) ds ++ plain_jobs (reverse ns))
      → OnNone ns × OnAll cs ds
  apply_order ns cs ds h =
      let (h1, h2) = All-split P (pairs (reverse cs) ds) (plain_jobs (reverse ns)) h in
      (
        rw reverse-reverse at (All-reverse _ (reverse ns) (plain_out (reverse ns) h2)),
        rw reverse-reverse at (All-reverse _ (reverse cs) (pairs_out (reverse cs) ds h1)),
      )

All-commands : {P : Command → Type 0} (cs : List Command) → ((c : Command) → P c) → All P cs
All-commands [] f = tt
All-commands (c ∷ cs) f = (f c, All-commands cs f)

-- The jobs differ where the commands have different names and the devices are different.
absent_names :
    (c : Command) (cs : List Command)
    → contains (map command_name cs) c.name ≡ false
    → All (λ e. (c.name == e.name) ≡ false) cs
absent_names c [] h = tt
absent_names c (e ∷ cs) h = (ground arith, absent_names c cs (ground arith))

absent_devices :
    (d : String) (ds : List String) → contains ds d ≡ false → All (λ e. (d == e) ≡ false) ds
absent_devices d [] h = tt
absent_devices d (e ∷ ds) h = (ground arith, absent_devices d ds (ground arith))

Apart-append :
    (js ks : List Job)
    → Apart js
    → Apart ks
    → All (λ j. All (λ k. Differs j k × Differs k j) ks) js
    → Apart (js ++ ks)
Apart-append [] ks hj hk h = hk
Apart-append (j ∷ js) ks (d1, d2, hj) hk (hx, h) = (
  All-append (Differs j) js ks d1 (All-map _ _ ks (λ k p. p.0) hx),
  All-append (λ k. Differs k j) js ks d2 (All-map _ _ ks (λ k p. p.1) hx),
  Apart-append js ks hj hk h,
)

other_device :
    (c e : Command) (d f : String) → (d == f) ≡ false → same c (some d) e (some f) ≡ false
unfolding option_eq
other_device c e d f h = ground arith

other_name :
    (c e : Command) (d f : Option String) → (c.name == e.name) ≡ false → same c d e f ≡ false
other_name c e d f h = ground arith

swapped : (d e : String) → (d == e) ≡ false → (e == d) ≡ false
swapped d e h = ground arith

devices-Apart : (c : Command) (ds : List String) → IsNodup ds → Apart (on_devices c ds)
unfolding on_devices
devices-Apart c [] u = tt
devices-Apart c (d ∷ ds) (fresh, u) =
    let others = absent_devices d ds fresh in
    (
      on_devices_in (Differs (c, some d)) c ds
          (All-map _ _ ds (λ e h. other_device c c d e h) others),
      on_devices_in (λ k. Differs k (c, some d)) c ds
          (All-map _ _ ds (λ e h. other_device c c e d (swapped d e h)) others),
      devices-Apart c ds u,
    )

All-devices : (P : String → Type 0) (ds : List String) → ((d : String) → P d) → All P ds
All-devices P [] f = tt
All-devices P (d ∷ ds) f = (f d, All-devices P ds f)

pairs-Apart :
    (cs : List Command) (ds : List String)
    → IsNodup (map command_name cs)
    → IsNodup ds
    → Apart (pairs cs ds)
unfolding pairs
pairs-Apart [] ds u v = tt
pairs-Apart (c ∷ cs) ds (fresh, u) v =
    Apart-append (on_devices c ds) (pairs cs ds) (devices-Apart c ds v) (pairs-Apart cs ds u v) (
      on_devices_in _ c ds (
        All-devices _ ds (λ d. pairs_in _ cs ds (
          All-map _ _ cs
            (λ e h. All-devices _ ds (λ f. (
              other_name c e (some d) (some f) h,
              other_name e c (some f) (some d) (swapped c.name e.name h),
            )))
            (absent_names c cs fresh)))))

plain-Apart : (cs : List Command) → IsNodup (map command_name cs) → Apart (plain_jobs cs)
unfolding plain_jobs
plain-Apart [] u = tt
plain-Apart (c ∷ cs) (fresh, u) =
    let others = absent_names c cs fresh in
    (
      plain_in _ cs (All-map _ _ cs (λ e h. other_name c e none none h) others),
      plain_in _ cs
          (All-map _ _ cs (λ e h. other_name e c none none (swapped c.name e.name h)) others),
      plain-Apart cs u,
    )

no_device :
    (c e : Command) (f : String)
    → (same c none e (some f) ≡ false) × (same e (some f) c none ≡ false)
unfolding option_eq
no_device c e f = (ground arith, ground arith)

pub jobs-Apart :
    (ns cs : List Command) (ds : List String)
    → IsNodup (map command_name ns)
    → IsNodup (map command_name cs)
    → IsNodup ds
    → Apart (plain_jobs ns ++ pairs cs ds)
jobs-Apart ns cs ds un uc ud =
    Apart-append (plain_jobs ns) (pairs cs ds) (plain-Apart ns un) (pairs-Apart cs ds uc ud)
      (plain_in _ ns (every ns))
  where
    every :
        (l : List Command)
        → All (λ c. All (λ k. Differs (c, none) k × Differs k (c, none)) (pairs cs ds)) l
    every [] = tt
    every (c ∷ l) =
        (pairs_in _ cs ds (All-commands cs (λ e. All-devices _ ds (λ f. no_device c e f))), every l)
