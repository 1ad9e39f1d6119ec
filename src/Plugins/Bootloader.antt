-- ===== src/Plugins/Bootloader.antt =====
-- The kernel arguments of tuned/plugins/plugin_bootloader.py on a system with rpm-ostree.
pub mod Kargs
use tuned.Base.{
  ℕ, zero, suc, String, Bool, true, false, not, ◌&&◌, Option, none, some, List, [], ◌∷◌, string_eq,
  if◌then◌else◌, ◌==◌, contains, select,
}
use tuned.Base.Text.{words}
use tuned.Base.Text.Words.{join_words}

-- The commands of rpm-ostree; `none` is the output of a command that fails.
pub record Ostree : Type 1 where
  pub Sys : Type 0
  pub status : Sys → Option String × Sys
  pub kargs : Sys → Option String × Sys
  -- deleted and appended arguments, and whether the command succeeds
  pub modify : List String → List String → Sys → Bool × Sys
  pub sleep : Sys → Sys

status_word : List String → Option String
status_word [] = none
status_word (a ∷ []) = none
status_word (a ∷ b ∷ l) = if a == "State:" then some b else none

-- `list.remove`; `none` is the `ValueError`.
unfoldable pub remove_first : String → List String → Option (List String)
remove_first a [] = none
remove_first a (x ∷ xs) =
    let rest = remove_first a xs in
    if a == x then some xs else elim rest [ none ↦ none | some l ↦ some (x ∷ l) ]

unfoldable pub remove_each : List String → List String → Option (List String)
unfolding remove_first
remove_each [] l = some l
remove_each (a ∷ as') l = elim (remove_first a l) [ none ↦ none | some l' ↦ remove_each as' l' ]

-- `l == k`
unfoldable pub same_list : List String → List String → Bool
same_list [] [] = true
same_list [] (y ∷ k) = false
same_list (x ∷ l) [] = false
same_list (x ∷ l) (y ∷ k) = x == y && same_list l k

module _ (O : Ostree) where
  open O use {Sys, status, kargs, modify, sleep}

  -- `_rpm_ostree_status`
  unfoldable pub rpm_ostree_status : Sys → Option String × Sys
  unfolding status_word
  rpm_ostree_status sys =
      let (out, sys') = status sys in
      (elim out [ none ↦ none | some text ↦ status_word (words text) ], sys')

  is_idle : Option String → Bool
  is_idle none = false
  is_idle (some s) = s == "idle"

  -- `_wait_till_rpm_ostree_idle` with the rounds that are left
  unfoldable pub wait_rounds : ℕ → Sys → Bool × Sys
  unfolding rpm_ostree_status is_idle
  wait_rounds zero sys = let (word, sys') = rpm_ostree_status sys in (is_idle word, sys')
  wait_rounds (suc n) sys =
      let (word, sys') = rpm_ostree_status sys in
      let rest = wait_rounds n (sleep sys') in if is_idle word then (true, sys') else rest

  abbrev sleep_cycles : ℕ
  sleep_cycles = 10

  -- `_get_rpm_ostree_kargs`
  unfoldable pub get_rpm_ostree_kargs : Sys → Option String × Sys
  unfolding wait_rounds
  get_rpm_ostree_kargs sys =
      let (idle, sys') = wait_rounds sleep_cycles sys in if idle then kargs sys' else (none, sys')

  -- `_modify_rpm_ostree_kargs`
  unfoldable pub modify_rpm_ostree_kargs : List String → List String → Sys → Bool × Sys
  unfolding wait_rounds
  modify_rpm_ostree_kargs delete_kargs append_kargs sys =
      let (idle, sys') = wait_rounds sleep_cycles sys in
      if idle then modify delete_kargs append_kargs sys' else (false, sys')

  -- The plugin's value of the command line, and the value of the variable in the file
  -- `bootcmdline`, if it stands there.
  pub record Boot : Type 0 where
    pub cmdline_val : String
    pub tuned_var : Option String
    pub sys : Sys

  -- `_get_appended_rpm_ostree_kargs`
  unfoldable pub get_appended_kargs : Option String → List String
  get_appended_kargs none = []
  get_appended_kargs (some value) = words value

  -- `_rpm_ostree_update`; `none` is the `ValueError` of an argument that was appended and is gone.
  unfoldable pub rpm_ostree_update : Boot → Option Boot
  unfolding get_appended_kargs get_rpm_ostree_kargs modify_rpm_ostree_kargs
  rpm_ostree_update b =
      let appended = get_appended_kargs b.tuned_var in
      let (active, sys) = get_rpm_ostree_kargs b.sys in
      elim active [
        | none ↦ some (record b { sys = sys })
        | some text ↦ elim (remove_each appended (words text)) [
          | none ↦ none
          | some others ↦
              let to_append = select (λ k. not (contains others k)) (words b.cmdline_val) in
              if same_list appended to_append
              then some (record b { sys = sys })
              else (let (done, sys') = modify_rpm_ostree_kargs appended to_append sys in
                  some (
                    if done
                    then record b { tuned_var = some (join_words to_append); sys = sys' }
                    else record b { sys = sys' }))
        ]
      ]

  -- `_remove_rpm_ostree_tuning`
  unfoldable pub remove_rpm_ostree_tuning : Boot → Boot
  unfolding get_appended_kargs modify_rpm_ostree_kargs
  remove_rpm_ostree_tuning b = record b {
    tuned_var = some "";
    sys = (modify_rpm_ostree_kargs (get_appended_kargs b.tuned_var) [] b.sys).1;
  }
