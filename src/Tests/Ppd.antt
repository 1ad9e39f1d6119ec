-- ===== src/Tests/Ppd.antt =====
-- A configuration with a mapping on battery, and a TuneD that does what it is told.
use tuned.Base.{
  String, ◌≡◌, refl, Bool, true, false, Option, none, some, List, [], ◌∷◌, ◌⊎◌, inl, inr, ◌==◌,
  string_eq, option_eq, if◌then◌else◌, arith, map,
}
use tuned.Base.Dict.{Dict, lookup}
use tuned.Ppd.Config.{PpdConfig, Sections, load_config}
use tuned.Ppd.Config.Inverse.{IsFaithful, SectionsNodup, load_config-IsFaithful}
use tuned.Ppd.Platform.{
  PlatformProfileEventHandler, handle, handle_all, opened, modified, closed_after_write,
  closed_unwritten, close_modify_buffer, handle-modified,
}
use tuned.Ppd.Controller.{
  Tuned, Ppd, Hold, key_error, unknown, initialize, first_base, hold_profile, release_profile,
  not_degraded,
}
use tuned.Ppd.Controller.Holds.{Accepts, IsKnown}
use tuned.Ppd.Controller.Invariant.{Inv, Ready, wanted}
use tuned.Ppd.Controller.Runs.{
  Call, hold, disappear, power_supply, tuned_changed, step, Steps, run, step-Steps,
  run-initialize-Inv,
}
use tuned.Ppd.Controller.Restore.{release_profile-hold_profile, run-disappear}
use tuned.Base.{leb}
use tuned.Base.{◌+◌}

abbrev to_boolean : String → Option Bool
to_boolean s = if s == "true" then some true else if s == "false" then some false else none

abbrev tuned_profiles : List String
tuned_profiles = "powersave" ∷ "balanced" ∷ "balanced-battery" ∷ "throughput-performance" ∷ []

abbrev mains : Dict String String
mains =
    ("power-saver", "powersave")
    ∷ ("balanced", "balanced")
    ∷ ("performance", "throughput-performance")
    ∷ []

abbrev battery : Dict String String
battery =
    ("power-saver", "powersave")
    ∷ ("balanced", "balanced-battery")
    ∷ ("performance", "throughput-performance")
    ∷ []

abbrev sections : Sections
sections = ("profiles", mains) ∷ ("battery", ("balanced", "balanced-battery") ∷ []) ∷ []

abbrev swap : Dict String String → Dict String String
swap [] = []
swap ((k, v) ∷ d) = (v, k) ∷ swap d

abbrev config : PpdConfig
config = record {
  default_profile = "balanced";
  battery_detection = true;
  ppd_to_tuned = record { ac_map = mains; dc_map = battery };
  tuned_to_ppd = record { ac_map = swap mains; dc_map = swap battery };
  sysfs_acpi_monitor = true;
}

config_loads : load_config to_boolean tuned_profiles sections ≡ some config
unfolding load_config string_eq
config_loads = refl

one_of_two :
    (k l s : String) (a b d : Dict String String)
    → lookup s ((k, a) ∷ (l, b) ∷ []) ≡ some d
    → (d ≡ a) ⊎ (d ≡ b)
unfolding lookup
one_of_two k l s a b d h = ground arith

sections-Nodup : SectionsNodup sections
unfolding lookup string_eq
sections-Nodup s d h = elim (one_of_two "profiles" "battery" s _ _ d h) [
  | inl e ↦ rw e (refl, (refl, (refl, tt)))
  | inr e ↦ rw e (refl, tt)
]

load_config-IsFaithful_example : IsFaithful config
load_config-IsFaithful_example =
    load_config-IsFaithful to_boolean tuned_profiles sections config sections-Nodup config_loads

abbrev machine : Tuned
machine = record {
  Sys = String;
  active_profile = λ s. s;
  recommend_profile = λ s. "balanced";
  switch = λ t s. (true, t);
}

machine-Accepts : Accepts machine
machine-Accepts t s = refl

base-IsKnown : IsKnown config "balanced"
unfolding lookup string_eq
base-IsKnown true = refl
base-IsKnown false = refl

abbrev game : Hold
game = record { profile = "performance"; reason = "playing"; app_id = "game"; caller = ":1.7" }

abbrev started : Ppd machine
started = record {
  config = config;
  active = some "balanced";
  base = "balanced";
  holds = [];
  on_battery = true;
  degraded = not_degraded;
  saved_base = some "balanced\n";
  signals = [];
  sys = "balanced-battery";
}

started-Ready : Ready started
started-Ready = record {
  faithful = load_config-IsFaithful_example;
  distinct = tt;
  known_base = base-IsKnown;
}

abbrev calls : List Call
calls = hold game (0 ∷ 5 ∷ []) ∷ power_supply false ∷ tuned_changed "other" true ∷ disappear 5 ∷ []

run-initialize-Inv_example :
    Inv (run machine calls (initialize machine config none true none none "").1)
unfolding first_base lookup string_eq
run-initialize-Inv_example =
    run-initialize-Inv {T = machine} calls config none none none true "" machine-Accepts
      load_config-IsFaithful_example base-IsKnown

-- A start and a hold: the profile that is held is active.
held_profile :
    (run machine
      (hold game (0 ∷ 5 ∷ []) ∷ [])
      (initialize machine config none true none none "").1).active
    ≡ some "performance"
unfolding run initialize string_eq option_eq
held_profile = refl

-- With the active profile "unknown", a change of the power supply raises a `KeyError`.
abbrev lost : Ppd machine
lost = record started { active = some unknown; sys = "other" }

lost-Inv : Inv lost
lost-Inv = record {
  ready = record {
    faithful = load_config-IsFaithful_example;
    distinct = tt;
    known_base = base-IsKnown;
  };
  shown = inr (refl, refl);
}

lost_raises : (step machine (power_supply false) lost).0 ≡ true
unfolding step lookup string_eq
lost_raises = refl

step-Steps_example : Steps lost (step machine (power_supply false) lost)
step-Steps_example = step-Steps (power_supply false) lost machine-Accepts lost-Inv

-- The saved base profile is no profile of the configuration: the start raises a `KeyError`.
stale_base : (initialize machine config (some "cooler\n") true none none "").0 ≡ key_error
unfolding initialize lookup string_eq
stale_base = refl

release_profile-hold_profile_example :
    let q = (release_profile machine 5 ":1.7" (hold_profile machine game 5 started).1).1 in
    (q.holds ≡ []) × (q.base ≡ "balanced") × (q.active ≡ some (wanted "balanced" []))
unfolding lookup
release_profile-hold_profile_example =
    release_profile-hold_profile game 5 started machine-Accepts started-Ready (inr refl) refl

abbrev playing : Ppd machine
playing = record started {
  active = some "performance";
  holds = (5, game) ∷ [];
  sys = "throughput-performance";
}

playing-Ready : Ready playing
unfolding lookup
playing-Ready = record {
  faithful = load_config-IsFaithful_example;
  distinct = (refl, tt);
  known_base = base-IsKnown;
}

run-disappear_example : (run machine (map disappear (5 ∷ [])) playing).active ≡ some "balanced"
unfolding wanted string_eq
run-disappear_example = run-disappear (5 ∷ []) playing machine-Accepts playing-Ready refl (λ k h. h)

abbrev untouched : PlatformProfileEventHandler
untouched = record { file_open = false; last_close = 0 }

handle-modified_example :
    let h1 = handle_all ((closed_unwritten, 5) ∷ []) untouched in
    let after_open = handle_all ((modified, 20) ∷ []) (handle opened 10 h1).0 in
    let after_close = handle_all ((modified, 40) ∷ []) (handle closed_after_write 30 h1).0 in
    ((handle modified 200000 after_open).1 ≡ false)
    × ((handle modified 200000 after_close).1 ≡ leb (30 + close_modify_buffer) 200000)
handle-modified_example =
    handle-modified ((closed_unwritten, 5) ∷ []) ((modified, 20) ∷ []) ((modified, 40) ∷ [])
      untouched 10 30 200000 (tt, tt) (tt, tt)
