-- ===== src/Plugins/Verify/Laws.antt =====
-- A command that has just been executed passes its own verification.
use tuned.Base.{String, ◌≡◌, ◌≢◌, refl, Bool, true, false, Option, none, some, ◌⊎◌, inl, inr, arith}
use tuned.Base.{string_eq, option_eq, Option-cases}
use tuned.Base.Text.{ℤ, pos, negsuc, ltz, eqz, int}
use tuned.Plugins.Instance.{Instance}
use tuned.Plugins.Driver.{Command, Driver}
use tuned.Plugins.Commands.{
  World, execute_command, process_assignment_modifiers, modified, compared,
}
use tuned.Plugins.Commands.Effects.{IsLawful}
use tuned.Plugins.Verify.{same_value, same_text, verify_value, verify_command, both}
use tuned.Base.Text.{int_operator}
use tuned.Plugins.Commands.{set_value}
use tuned.Plugins.Commands.{storage_set}
use tuned.Base.{◌∙◌}

ltz_irrefl : (a : ℤ) → ltz a a ≡ false
ltz_irrefl (pos n) = ground arith
ltz_irrefl (negsuc n) = ground arith

eqz_refl : (a : ℤ) → eqz a a ≡ true
eqz_refl (pos n) = ground arith
eqz_refl (negsuc n) = ground arith

both_self : (o : Option ℤ) → (both o o ≡ none) ⊎ (both o o ≡ some true)
unfolding both
both_self none = inl refl
both_self (some a) = inr (rw eqz_refl)

same_value_refl : (v : String) → same_value v v ≡ true
unfolding same_value same_text
same_value_refl v = ground (arith, both_self (int 10 v), both_self (int 16 v))

-- Comparing again with the value that a comparison chose gives nothing, or the same value.
compared_again :
    (test : ℤ → ℤ → Bool) (new val current chosen : String)
    → ((a : ℤ) → test a a ≡ false)
    → int 10 new ≡ none
    → compared test new val current ≡ some chosen
    → (compared test new val chosen ≡ none) ⊎ (compared test new val chosen ≡ some chosen)
unfolding compared
compared_again test new val current chosen irrefl word h = elim (Option-cases (int 10 val)) [
  | inl e ↦ ground arith
  | inr (v, e) ↦ elim (Option-cases (int 10 current)) [
    | inl f ↦ ground arith
    | inr (c, f) ↦ ground (arith, irrefl v)
  ]
]

-- The same for the modifiers of an assignment.
process_again :
    (value current chosen : String)
    → process_assignment_modifiers (some value) (some current) ≡ some chosen
    → (process_assignment_modifiers (some value) (some chosen) ≡ none)
      ⊎ (process_assignment_modifiers (some value) (some chosen) ≡ some chosen)
unfolding process_assignment_modifiers modified
process_again String.[] current chosen h = inr h
process_again (String.◌∷◌ c String.[]) current chosen h = inr h
process_again (String.◌∷◌ c (String.◌∷◌ d s)) current chosen h = ground (
  arith,
  compared_again (λ v c. ltz c v) new val current chosen ltz_irrefl,
  compared_again ltz new val current chosen ltz_irrefl,
  int_operator c val,
)
  where
    new : String
    new = String.◌∷◌ c (String.◌∷◌ d s)

    val : String
    val = String.◌∷◌ d s

module _ (unquote : String → String) (has_zeros : String → Bool)
    (strip_zeros : String → String) where
  verify_value_self :
      (v : String) (ignore_missing : Bool)
      → verify_value unquote has_zeros strip_zeros (some v) (some v) ignore_missing ≡ some true
  unfolding verify_value
  verify_value_self v ignore_missing = rw same_value_refl

  -- What the driver is asked for: a dry run of the setter says what it is given, beside the law
  -- of reading and writing.
  module _ (D : Driver) (L : IsLawful D) (i : Instance) (c : Command) (d : Option String) where
    abbrev verified : String → Bool → World D → Option Bool
    verified value ignore_missing w =
        (verify_command unquote has_zeros strip_zeros D i c d value ignore_missing w).0

    verified_kept :
        (value cur : String) (ignore_missing : Bool) (w : World D)
        → c.custom ≡ false
        → ((ignore : Bool) → D.read c.name i d ignore w.sys ≡ some cur)
        → process_assignment_modifiers (some value) (some cur) ≡ none
        → verified value ignore_missing w ≡ none
    unfolding verify_command
    verified_kept value cur ignore_missing w plain h k = rw (plain, h, k) refl

    verified_changed :
        (value cur new : String) (ignore_missing : Bool) (w : World D)
        → ((v : String) (s : D.Sys) → (D.write c.name i v d true false s).0 ≡ some v)
        → c.custom ≡ false
        → ((ignore : Bool) → D.read c.name i d ignore w.sys ≡ some cur)
        → process_assignment_modifiers (some value) (some cur) ≡ some new
        → verified value ignore_missing w
          ≡ verify_value unquote has_zeros strip_zeros (some new) (some cur) ignore_missing
    unfolding verify_command
    verified_changed value cur new ignore_missing w sim plain h k = rw (plain, h, k, sim) refl

    read_after :
        (new old : String) (ignore : Bool) (w : World D)
        → D.read c.name i d ignore
            (set_value D i c d false (some new) (storage_set D i c old d w)).sys
          ≡ some new
    unfolding set_value
    read_after new old ignore w = L.read-write c.name c.name i new d d false ignore _ ∙ ground arith

    execute_kept :
        (value old : String) (w : World D)
        → c.custom ≡ false
        → D.read c.name i d false w.sys ≡ some old
        → process_assignment_modifiers (some value) (some old) ≡ none
        → execute_command D i c d value w ≡ w
    unfolding execute_command
    execute_kept value old w plain h k = rw (plain, h, k) refl

    execute_changed :
        (value old new : String) (w : World D)
        → c.custom ≡ false
        → D.read c.name i d false w.sys ≡ some old
        → process_assignment_modifiers (some value) (some old) ≡ some new
        → execute_command D i c d value w
          ≡ set_value D i c d false (some new) (storage_set D i c old d w)
    unfolding execute_command
    execute_changed value old new w plain h k = rw (plain, h, k) refl

    -- For a plugin whose commands read back what they write, and whose setter returns the value
    -- that it is given when it only simulates: right after a command without a custom handler is
    -- executed for a value that could be read before, its verification for the same value of the
    -- profile does not fail, whatever the modifier of the value, and whether or not the value was
    -- written.
    pub verify-execute :
        ((v : String) (s : D.Sys) → (D.write c.name i v d true false s).0 ≡ some v)
        → c.custom ≡ false
        → (value old : String) (ignore_missing : Bool) (w : World D)
        → ((ignore : Bool) → D.read c.name i d ignore w.sys ≡ some old)
        → verified value ignore_missing (execute_command D i c d value w) ≢ some false
    verify-execute sim plain value old ignore_missing w h =
        elim (Option-cases (process_assignment_modifiers (some value) (some old))) [
          | inl kept ↦
              rw
                (
                  execute_kept value old w plain (h false) kept,
                  verified_kept value old ignore_missing w plain h kept,
                )
                (λ e. cc e)
          | inr (new, changed) ↦
              let w' = set_value D i c d false (some new) (storage_set D i c old d w) in
              let now = λ (ignore : Bool). read_after new old ignore w in
              rw (execute_changed value old new w plain (h false) changed)
                (elim (process_again value old new changed) [
                  | inl stays ↦
                      rw (verified_kept value new ignore_missing w' plain now stays) (λ e. cc e)
                  | inr again ↦
                      rw
                        (
                          verified_changed value new new ignore_missing w' sim plain now again,
                          verify_value_self,
                        )
                        (λ e. cc e)
                ])
        ]
