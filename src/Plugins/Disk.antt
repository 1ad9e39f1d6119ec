-- ===== src/Plugins/Disk.antt =====
-- The disks of tuned/plugins/plugin_disk.py: the loads and idle times of a device, and the calls of
-- hdparm with their errors.
pub mod Dynamic
pub mod Levels
pub mod Loads
pub mod Rest
pub mod Updates
use tuned.Base.{
  ℕ, zero, suc, ◌+◌, ◌-◌, String, Bool, true, false, not, ◌&&◌, ◌||◌, Option, none, some, List, [],
  ◌∷◌, string_eq, nat_eq, if◌then◌else◌, leb, ltb, eqb,
}
use tuned.Base.Dict.{Dict, lookup, insert}
use tuned.Base.Text.{ℤ, pos, negsuc, ltz, eqz}
use tuned.Base.Text.Search.{occurs}

abbrev pub error_threshold : ℕ
error_threshold = 3

abbrev pub power_levels : List ℕ
power_levels = 254 ∷ 225 ∷ 195 ∷ 165 ∷ 145 ∷ 125 ∷ 105 ∷ 85 ∷ 70 ∷ 55 ∷ 30 ∷ 20 ∷ []

abbrev pub spindown_levels : List ℕ
spindown_levels = 0 ∷ 250 ∷ 230 ∷ 210 ∷ 190 ∷ 170 ∷ 150 ∷ 130 ∷ 110 ∷ 90 ∷ 70 ∷ 60 ∷ []

abbrev pub levels : ℕ
levels = 12

abbrev pub level_steps : ℕ
level_steps = 6

-- `l[i]`; `none` is the `IndexError`.
abbrev pub get_elem? {ℓ} : {A : Type ℓ} → List A → ℕ → Option A
get_elem? [] i = none
get_elem? (x ∷ xs) zero = some x
get_elem? (x ∷ xs) (suc i) = get_elem? xs i

-- A call of `hdparm` for a device: `-C`, `-S` and `-B`.
pub data Hdparm : Type 0 where
  check : String → Hdparm
  set_spindown : String → ℕ → Hdparm
  set_apm : String → ℕ → Hdparm

-- The exit code: 0, the negative `ENOENT`, or another one.
pub data ExitCode : Type 0 where
  succeeded : ExitCode
  not_found : ExitCode
  failed : ExitCode

pub record Disks : Type 1 where
  pub Sys : Type 0
  -- the exit code and the output
  pub execute : Hdparm → Sys → (ExitCode × String) × Sys
  -- is the quotient of the two, as floats, less than the smallest load? the second one is not 0
  pub is_small : ℤ → ℤ → Bool

-- `_stats`, `_idle` and `_spindown_change_delayed` of a device; they are made together.
pub record Stats : Type 0 where
  pub new : List ℤ
  pub max : List ℤ
  pub read : ℤ × ℤ
  pub write : ℤ × ℤ

pub record Idle : Type 0 where
  pub level : ℕ
  pub read : ℕ
  pub write : ℕ

pub record DeviceState : Type 0 where
  pub stats : Stats
  pub idle : Idle
  pub delayed : Bool

-- a - b, as an integer.
sub_ℕ : ℕ → ℕ → ℤ
sub_ℕ a b = if leb b a then pos (a - b) else negsuc (b - a - 1)

minus : ℤ → ℤ → ℤ
unfolding sub_ℕ
minus (pos a) (pos b) = sub_ℕ a b
minus (pos a) (negsuc b) = pos (a + b + 1)
minus (negsuc a) (pos b) = negsuc (a + b)
minus (negsuc a) (negsuc b) = sub_ℕ b a

-- `[f(p) for p in zip(l, k)]`
zip_with : (ℤ → ℤ → ℤ) → List ℤ → List ℤ → List ℤ
zip_with f [] k = []
zip_with f (x ∷ l) [] = []
zip_with f (x ∷ l) (y ∷ k) = f x y ∷ zip_with f l k

larger : ℤ → ℤ → ℤ
larger a b = if ltz a b then b else a

replicate : ℕ → ℤ → List ℤ
replicate zero v = []
replicate (suc n) v = v ∷ replicate n v

-- `_init_stats_and_idle`
unfoldable pub new_state : DeviceState
unfolding replicate
new_state = record {
  stats = record {
    new = replicate 11 (pos 0);
    max = replicate 11 (pos 1);
    read = (pos 0, pos 1);
    write = (pos 0, pos 1);
  };
  idle = record { level = 0; read = 0; write = 0 };
  delayed = false;
}

-- `_update_stats`. A quotient of floats is kept as the pair of its operands; `none` is an
-- `IndexError`, or the `ZeroDivisionError` of a maximum that is 0.
unfoldable pub update_stats : Stats → List ℤ → Option Stats
unfolding zip_with minus larger
update_stats s new_load =
    let diff = zip_with minus new_load s.new in
    let max_load = zip_with larger s.max diff in
    elim (get_elem? diff 1) [
      | none ↦ none
      | some dr ↦ elim (get_elem? max_load 1) [
        | none ↦ none
        | some mr ↦ elim (get_elem? diff 5) [
          | none ↦ none
          | some dw ↦ elim (get_elem? max_load 5) [
            | none ↦ none
            | some mw ↦
                if eqz mr (pos 0) || eqz mw (pos 0)
                then none
                else some
                    (record { new = new_load; max = max_load; read = (dr, mr); write = (dw, mw) })
          ]
        ]
      ]
    ]

module _ (D : Disks) where
  open D use {Sys, execute, is_small}

  -- `_update_idle`
  unfoldable pub update_idle : Stats → Idle → Idle
  update_idle s i = record i {
    read = if is_small s.read.0 s.read.1 then i.read + 1 else 0;
    write = if is_small s.write.0 s.write.1 then i.write + 1 else 0;
  }

  -- The plugin, and one instance with its devices.
  pub record DiskState : Type 0 where
    pub use_hdparm : Bool
    pub apm_support : Dict String Bool
    pub apm_errcnt : ℕ
    pub spindown_errcnt : ℕ
    pub devices : Dict String DeviceState
    pub sys : Sys

  -- The answer of `hdparm -C`
  unfoldable pub checked : String → ExitCode → String → DiskState → Bool × DiskState
  unfolding occurs
  checked device not_found out s = (false, record s { use_hdparm = false })
  checked device failed out s =
      (false, record s { apm_support = insert device false s.apm_support })
  checked device succeeded out s =
      let supported = not (occurs "unknown" out) in
      (supported, record s { apm_support = insert device supported s.apm_support })

  -- `_is_hdparm_apm_supported`
  unfoldable pub is_hdparm_apm_supported : String → DiskState → Bool × DiskState
  unfolding checked
  is_hdparm_apm_supported device s =
      if not s.use_hdparm then (false, s) else elim (lookup device s.apm_support) [
        | some answer ↦ (answer, s)
        | none ↦
            let ((rc, out), sys) = execute (check device) s.sys in
            checked device rc out (record s { sys = sys })
      ]

  -- `_update_errcnt`; the flag is `spindown`.
  unfoldable pub update_errcnt : ExitCode → Bool → DiskState → DiskState
  update_errcnt rc spindown s =
      let cnt = if spindown then s.spindown_errcnt else s.apm_errcnt in
      if leb error_threshold cnt then s else elim rc [
        | succeeded ↦
            if spindown then record s { spindown_errcnt = 0 } else record s { apm_errcnt = 0 }
        | not_found ↦ record s {
          spindown_errcnt = error_threshold + 1;
          apm_errcnt = error_threshold + 1;
        }
        | failed ↦
            if spindown
            then record s { spindown_errcnt = cnt + 1 }
            else record s { apm_errcnt = cnt + 1 }
      ]

  unfoldable pub set_device : String → DeviceState → DiskState → DiskState
  set_device device d s = record s { devices = insert device d s.devices }

  -- `_change_spindown`
  unfoldable pub change_spindown : String → ℕ → DeviceState → DiskState → DiskState
  unfolding update_errcnt set_device
  change_spindown device level d s =
      let ((rc, _), sys) = execute (set_spindown device level) s.sys in
      set_device device (record d { delayed = false })
        (update_errcnt rc true (record s { sys = sys }))

  -- `_drive_spinning`
  unfoldable pub drive_spinning : String → DiskState → Bool × DiskState
  unfolding occurs
  drive_spinning device s =
      let ((_, out), sys) = execute (check device) s.sys in
      (not (occurs "standby" out) && not (occurs "sleeping" out), record s { sys = sys })

  -- The spindown part of a change of the level; `up` says that the level rises.
  unfoldable pub spindown_change : String → Bool → ℕ → DeviceState → DiskState → DiskState
  unfolding drive_spinning change_spindown
  spindown_change device up level d s =
      if ltb s.spindown_errcnt error_threshold
      then (let (spinning, s') = drive_spinning device s in
          if not spinning && up
          then set_device device (record d { delayed = true }) s'
          else change_spindown device level d s')
      else set_device device d s

  unfoldable pub apm_change : String → ℕ → DiskState → DiskState
  unfolding update_errcnt
  apm_change device level s =
      if ltb s.apm_errcnt error_threshold
      then (let ((rc, _), sys) = execute (set_apm device level) s.sys in
          update_errcnt rc false (record s { sys = sys }))
      else s
