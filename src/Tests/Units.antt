-- ===== src/Tests/Units.antt =====
-- A manager of two instances that write into a log.
use tuned.Base.{ℕ, ◌+◌, ◌≡◌, refl, true, none, some, List, [], ◌∷◌}
use tuned.Plugins.Tuning.{full}
use tuned.Units.Manager.{Parts, Manager, returned, raised, start_tuning, stop_tuning}
use tuned.Base.{◌+◌}

-- An instance is a number, which it logs when it is tuned, and 20 more when it is not any more.
abbrev logging : Parts
logging = record {
  W = List ℕ;
  PluginObject = ℕ;
  InstanceObject = ℕ;
  create_plugin = λ name w. (some 0, w);
  make_instance = λ p i w. (some 1, w);
  prepare = λ i w. w;
  apply_tuning = λ i w. (returned none, i ∷ w);
  verify_tuning = λ i ignore w. (returned (some true), w);
  update_tuning = λ i w. (returned none, w);
  unapply_tuning = λ i rollback w. (returned none, (i + 20) ∷ w);
  remove_instance = λ i w. (returned none, w);
  cleanup = λ p w. (raised, w);
}

abbrev two_instances : Manager logging
two_instances = record {
  instances = 1 ∷ 2 ∷ [];
  plugins = 0 ∷ [];
  processing = true;
  world = 7 ∷ [];
}

-- The instances are started in their order, and stopped in the reverse one.
in_order : (start_tuning logging two_instances).world ≡ 2 ∷ 1 ∷ 7 ∷ []
unfolding start_tuning
in_order = refl

in_reverse : (stop_tuning logging full two_instances).world ≡ 21 ∷ 22 ∷ 7 ∷ []
unfolding stop_tuning
in_reverse = refl
