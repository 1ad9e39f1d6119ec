-- ===== src/Units/Manager.antt =====
-- tuned/units/manager.py: the instances of a profile and the loops over them. The plugins and
-- what their instances do are a parameter; an exception is a value of the model.
pub mod Tuning
pub mod Selection
use tuned.Base.{
  String, Bool, true, false, not, ◌&&◌, Option, none, some, List, [], ◌∷◌, ◌++◌, reverse, contains,
}
use tuned.Base.{if◌then◌else◌, ◌==◌, string_eq}
use tuned.Base.Dict.{Dict, lookup, insert, values}
use tuned.Base.Text.{ℤ, pos, ltz}
use tuned.Profiles.Unit.{Value, text, paths, bool, int, ProfileUnit}
use tuned.Plugins.Tuning.{Rollback, full}

-- What a call of an instance or a plugin gives: it raises, or it returns `None`, `False` or `True`.
pub data Outcome : Type 0 where
  raised : Outcome
  returned : Option Bool → Outcome

-- A unit with its priority as a number.
abbrev pub Info : Type 0
Info = ℤ × ProfileUnit

-- What the manager calls, on a world `W`.
pub record Parts : Type 1 where
  pub W : Type 0
  pub PluginObject : Type 0
  pub InstanceObject : Type 0
  -- `plugins_repository.create`: none where it raises
  pub create_plugin : String → W → Option PluginObject × W
  -- `plugin.create_instance`: none where it raises
  pub make_instance : PluginObject → Info → W → Option InstanceObject × W
  -- `init_devices`, `assign_free_devices` and `initialize_instance` of an instance's plugin
  pub prepare : InstanceObject → W → W
  pub apply_tuning : InstanceObject → W → Outcome × W
  pub verify_tuning : InstanceObject → Bool → W → Outcome × W
  pub update_tuning : InstanceObject → W → Outcome × W
  pub unapply_tuning : InstanceObject → Rollback → W → Outcome × W
  pub remove_instance : InstanceObject → W → Outcome × W
  pub cleanup : PluginObject → W → Outcome × W

-- `_try_call`, with what it returns after an exception
unfoldable pub try_call : Outcome → Outcome → Outcome
try_call exc_ret raised = exc_ret
try_call exc_ret (returned r) = returned r

abbrev pub is_failure : Outcome → Bool
is_failure raised = false
is_failure (returned none) = false
is_failure (returned (some b)) = not b

-- The tests and the reading of a priority in `create`: the regular expressions of a unit against
-- the system, the default priority, and `int` of a priority, `none` where it raises.
module _ (matches_cpuinfo matches_uname : ProfileUnit → Bool) (default_priority : ℤ)
    (to_int : Value → Option ℤ) where
  unfoldable pub is_selected : ProfileUnit → Bool
  is_selected unit = unit.enabled && (matches_cpuinfo unit && matches_uname unit)

  unfoldable pub priority_of : ProfileUnit → Option ℤ
  priority_of unit = elim unit.priority [ none ↦ some default_priority | some v ↦ to_int v ]

  -- The first loop of `create`.
  unfoldable pub instance_infos : Dict String ProfileUnit → Option (List Info)
  unfolding is_selected priority_of
  instance_infos [] = some []
  instance_infos ((name, unit) ∷ rest) =
      let later = instance_infos rest in
      if is_selected unit
      then (elim (priority_of unit) [
        | none ↦ none
        | some p ↦ elim later [ none ↦ none | some infos ↦ some ((p, unit) ∷ infos) ]
      ])
      else later

-- `instance_info_list.sort(key=lambda x: x.priority)`, which is stable
unfoldable pub insert_info : Info → List Info → List Info
insert_info (p, u) [] = (p, u) ∷ []
insert_info (p, u) ((q, v) ∷ infos) =
    if ltz q p then (q, v) ∷ insert_info (p, u) infos else (p, u) ∷ (q, v) ∷ infos

unfoldable pub sort_infos : List Info → List Info
unfolding insert_info
sort_infos [] = []
sort_infos (i ∷ infos) = insert_info i (sort_infos infos)

abbrev pub type_name : ProfileUnit → String
type_name u = elim u.type [ text s ↦ s | paths l ↦ "" | bool b ↦ "" | int n ↦ "" ]

-- The names of the plugins that are needed, in the order of the infos, each once.
unfoldable pub plugin_names : List String → List Info → List String
plugin_names seen [] = seen
plugin_names seen ((p, u) ∷ infos) =
    plugin_names (if contains seen (type_name u) then seen else seen ++ (type_name u ∷ [])) infos

module _ (M : Parts) where
  open M use {W, PluginObject, InstanceObject, create_plugin, make_instance, prepare}
  open M use {apply_tuning, verify_tuning, update_tuning, unapply_tuning, remove_instance, cleanup}

  pub record Manager : Type 0 where
    pub instances : List InstanceObject
    pub plugins : List PluginObject
    -- whether the hardware inventory processes events
    pub processing : Bool
    pub world : W

  -- A plugin that cannot be made is skipped.
  unfoldable pub create_plugins :
      List String → Dict String PluginObject → W → Dict String PluginObject × W
  unfolding insert
  create_plugins [] made w = (made, w)
  create_plugins (name ∷ names) made w =
      let (plugin, w') = create_plugin name w in
      create_plugins names (elim plugin [ none ↦ made | some p ↦ insert name p made ]) w'

  -- The infos of plugins that are not there are skipped; `none` is an exception.
  unfoldable pub create_instances :
      Dict String PluginObject → List Info → W → Option (List InstanceObject) × W
  unfolding lookup
  create_instances made [] w = (some [], w)
  create_instances made ((p, u) ∷ infos) w = elim (lookup (type_name u) made) [
    | none ↦ create_instances made infos w
    | some plugin ↦
        let (instance, w') = make_instance plugin (p, u) w in
        let (others, w'') = create_instances made infos w' in
        elim instance [
          | none ↦ (none, w')
          | some i ↦ elim others [ none ↦ (none, w'') | some is ↦ (some (i ∷ is), w'') ]
        ]
  ]

  prepare_all : List InstanceObject → W → W
  prepare_all [] w = w
  prepare_all (i ∷ is) w = prepare_all is (prepare i w)

  -- `create` for the infos of its first loop; `none` is an exception.
  unfoldable pub create : List Info → Manager → Option Manager
  unfolding sort_infos plugin_names create_plugins create_instances prepare_all
  create infos m =
      let sorted = sort_infos infos in
      let (made, w) = create_plugins (plugin_names [] sorted) [] m.world in
      let (instances, w') = create_instances made sorted w in
      elim instances [
        | none ↦ none
        | some is ↦ some (record {
          instances = m.instances ++ is;
          plugins = m.plugins ++ values made;
          processing = true;
          world = prepare_all is w';
        })
      ]

  -- A call for every instance, each in a `_try_call`, so that an exception ends none of the loops.
  unfoldable pub for_all : (InstanceObject → W → Outcome × W) → List InstanceObject → W → W
  for_all call [] w = w
  for_all call (i ∷ is) w = for_all call is (call i w).1

  unfoldable pub clean_all : List PluginObject → W → W
  clean_all [] w = w
  clean_all (p ∷ ps) w = clean_all ps (cleanup p w).1

  unfoldable pub start_tuning : Manager → Manager
  unfolding for_all
  start_tuning m = record m { world = for_all apply_tuning m.instances m.world }

  unfoldable pub update_all : Manager → Manager
  unfolding for_all
  update_all m = record m { world = for_all update_tuning m.instances m.world }

  -- The loop of `verify_tuning`, which goes on after a failure.
  unfoldable pub verify_all : Bool → List InstanceObject → Bool → W → Bool × W
  unfolding try_call
  verify_all ignore_missing [] ret w = (ret, w)
  verify_all ignore_missing (i ∷ is) ret w =
      let (res, w') = verify_tuning i ignore_missing w in
      verify_all ignore_missing is
        (if is_failure (try_call (returned (some false)) res) then false else ret) w'

  -- `stop_tuning`, in the reverse order
  unfoldable pub stop_tuning : Rollback → Manager → Manager
  unfolding for_all
  stop_tuning rollback m = record m {
    processing = false;
    world = for_all (λ i. unapply_tuning i rollback) (reverse m.instances) m.world;
  }

  unfoldable pub destroy_all : Manager → Manager
  unfolding for_all clean_all
  destroy_all m = record m {
    instances = [];
    plugins = [];
    world = clean_all m.plugins (for_all remove_instance m.instances m.world);
  }
