-- ===== src/Plugins/Bootloader/Kargs.antt =====
-- Kernel arguments that tuned/plugins/plugin_bootloader.py appends, and takes back.
use tuned.Base.{
  ℕ, suc, String, ◌≡◌, refl, sym, ap, ◌∙◌, Bool, true, false, not, Option, none, some, List, [],
  ◌∷◌, ◌++◌, contains, string_eq, select, All, All-select, arith, inl, inr, Bool-cases,
}
use mathlib.Core.List.{append-nil}
use tuned.Base.Text.{words}
use tuned.Base.Text.Words.{join_words, IsWord, words-join_words, words-IsWord}
use tuned.Plugins.Bootloader.{
  Ostree, Boot, remove_first, remove_each, same_list, status_word, is_idle, wait_rounds,
  get_rpm_ostree_kargs, modify_rpm_ostree_kargs, get_appended_kargs, rpm_ostree_update,
  remove_rpm_ostree_tuning,
}

-- An rpm-ostree that is idle and does what it is told: an argument is deleted where it stands
-- first, and new ones come last.
pub record IsLawful (O : Ostree) : Type 0 where
  pub current : O.Sys → List String
  pub idle :
      (sys : O.Sys)
      → (out : String) × (rest : List String) × (O.status sys ≡ (some out, sys))
        × (words out ≡ "State:" ∷ "idle" ∷ rest)
  pub read :
      (sys : O.Sys) → (out : String) × (O.kargs sys ≡ (some out, sys)) × (words out ≡ current sys)
  pub modified :
      (deleted appended left : List String) (sys : O.Sys)
      → All IsWord appended
      → remove_each deleted (current sys) ≡ some left
      → (sys' : O.Sys) × (O.modify deleted appended sys ≡ (true, sys'))
        × (current sys' ≡ left ++ appended)

-- None of the arguments is in the list.
abbrev pub Apart : List String → List String → Type 0
Apart l ks = All (λ k. contains l k ≡ false) ks

remove_first-append :
    (a : String) (l k : List String)
    → contains l a ≡ false
    → remove_first a (l ++ (a ∷ k)) ≡ some (l ++ k)
unfolding remove_first
remove_first-append a [] k h = ground arith
remove_first-append a (x ∷ l) k h = ground (arith, remove_first-append a l k)

remove_each-append : (l ks : List String) → Apart l ks → remove_each ks (l ++ ks) ≡ some l
unfolding remove_each
remove_each-append l [] h = ap some (append-nil l)
remove_each-append l (k ∷ ks) (hk, h) =
    rw (remove_each, remove_first-append k l ks hk) (remove_each-append l ks h)

same_list-eq : (l k : List String) → same_list l k ≡ true → l ≡ k
unfolding same_list
same_list-eq [] [] h = refl
same_list-eq [] (y ∷ k) h = absurd (ground arith)
same_list-eq (x ∷ l) [] h = absurd (ground arith)
same_list-eq (x ∷ l) (y ∷ k) h = ground (arith, same_list-eq l k)

select-Apart : (l ks : List String) → Apart l (select (λ k. not (contains l k)) ks)
unfolding select
select-Apart l [] = tt
select-Apart l (k ∷ ks) = elim (Bool-cases (contains l k)) [
  | inl e ↦ rw e (select-Apart l ks)
  | inr e ↦ rw e (e, select-Apart l ks)
]

module _ {O : Ostree} (law : IsLawful O) where
  wait_lem : (n : ℕ) (sys : O.Sys) → wait_rounds O (suc n) sys ≡ (true, sys)
  unfolding wait_rounds status_word is_idle string_eq
  wait_lem n sys = let (out, rest, e, w) = law.idle sys in rw (wait_rounds, e, w) refl

  kargs_lem :
      (sys : O.Sys)
      → (out : String) × (get_rpm_ostree_kargs O sys ≡ (some out, sys))
        × (words out ≡ law.current sys)
  unfolding get_rpm_ostree_kargs
  kargs_lem sys =
      let (out, e, w) = law.read sys in (out, rw (get_rpm_ostree_kargs, wait_lem 9 sys) e, w)

  modify_lem :
      (deleted appended left : List String) (sys : O.Sys)
      → All IsWord appended
      → remove_each deleted (law.current sys) ≡ some left
      → (sys' : O.Sys) × (modify_rpm_ostree_kargs O deleted appended sys ≡ (true, sys'))
        × (law.current sys' ≡ left ++ appended)
  unfolding modify_rpm_ostree_kargs
  modify_lem deleted appended left sys solid h =
      let (sys', e, c) = law.modified deleted appended left sys solid h in
      (sys', rw (modify_rpm_ostree_kargs, wait_lem 9 sys) e, c)

  -- The arguments are those of the system, followed by the appended ones, which are not among them.
  pub record Clean (others : List String) (b : Boot O) : Type 0 where
    pub split : law.current b.sys ≡ others ++ get_appended_kargs O b.tuned_var
    pub apart : Apart others (get_appended_kargs O b.tuned_var)

  pub update-Clean :
      (others : List String) (b : Boot O)
      → Clean others b
      → (b' : Boot O) × (rpm_ostree_update O b ≡ some b') × Clean others b'
  unfolding rpm_ostree_update get_appended_kargs
  update-Clean others b c =
      let appended = get_appended_kargs O b.tuned_var in
      let (text, e, w) = kargs_lem b.sys in
      let found : remove_each appended (words text) ≡ some others =
        ap (remove_each appended) (w ∙ c.split) ∙ remove_each-append others appended c.apart in
      let to_append = select (λ k. not (contains others k)) (words b.cmdline_val) in
      elim (Bool-cases (same_list appended to_append)) [
        | inl same ↦ (b, rw (rpm_ostree_update, e, found, same, e) refl, c)
        | inr differ ↦
            let solid : All IsWord to_append =
              All-select IsWord (λ k. not (contains others k)) (words b.cmdline_val)
                (words-IsWord b.cmdline_val) in
            let (sys', m, now) =
              modify_lem appended to_append others b.sys solid
                (ap (remove_each appended) (sym w) ∙ found) in
            let back : words (join_words to_append) ≡ to_append =
              words-join_words to_append solid in
            (
              record b { tuned_var = some (join_words to_append); sys = sys' },
              rw (rpm_ostree_update, e, found, differ, e, m) refl,
              record {
                split = rw back now;
                apart = rw back (select-Apart others (words b.cmdline_val));
              },
            )
      ]

  pub remove_tuning_lem :
      (others : List String) (b : Boot O)
      → Clean others b
      → law.current (remove_rpm_ostree_tuning O b).sys ≡ others
  unfolding remove_rpm_ostree_tuning get_appended_kargs
  remove_tuning_lem others b c =
      let appended = get_appended_kargs O b.tuned_var in
      let left : remove_each appended (law.current b.sys) ≡ some others =
        ap (remove_each appended) c.split ∙ remove_each-append others appended c.apart in
      let (sys', m, now) = modify_lem appended [] others b.sys tt left in
      ap (λ (o : Bool × O.Sys). law.current o.1) m ∙ now ∙ append-nil others

module _ (O : Ostree) where
  -- Profiles with these command lines, one after the other
  unfoldable pub updates : List String → Boot O → Option (Boot O)
  unfolding rpm_ostree_update
  updates [] b = some b
  updates (value ∷ l) b = elim (rpm_ostree_update O (record b { cmdline_val = value })) [
    | none ↦ none
    | some b' ↦ updates l b'
  ]

-- On an rpm-ostree that is idle and does what it is told, and where no argument was appended
-- before: any profiles with their command lines can be applied one after the other, no update
-- raises a `ValueError`, and when the tuning is removed in the end, the kernel arguments are those
-- from before, in their order.
pub remove-updates :
    {O : Ostree} (law : IsLawful O) (cmdlines : List String) (b : Boot O)
    → b.tuned_var ≡ none
    → (b' : Boot O) × (updates O cmdlines b ≡ some b')
      × (law.current (remove_rpm_ostree_tuning O b').sys ≡ law.current b.sys)
unfolding get_appended_kargs updates
remove-updates {O} law cmdlines b fresh =
    let (b', e, c) =
      all_updates cmdlines b
        (record { split = rw fresh (sym (append-nil (law.current b.sys))); apart = rw fresh tt }) in
    (b', e, remove_tuning_lem law (law.current b.sys) b' c)
  where
    all_updates :
        (l : List String) (x : Boot O)
        → Clean law (law.current b.sys) x
        → (b' : Boot O) × (updates O l x ≡ some b') × Clean law (law.current b.sys) b'
    all_updates [] x c = (x, refl, c)
    all_updates (value ∷ l) x c =
        let (y, e, d) =
          update-Clean law (law.current b.sys) (record x { cmdline_val = value })
            (record { split = c.split; apart = c.apart }) in
        let (z, f, g) = all_updates l y d in (z, rw (updates, e) f, g)
