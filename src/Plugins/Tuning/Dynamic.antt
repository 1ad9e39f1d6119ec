-- ===== src/Plugins/Tuning/Dynamic.antt =====
-- The stored values under the dynamic tuning of tuned/plugins/base.py.
use tuned.Base.{String, ◌≡◌, refl, ◌∙◌, Option, List, [], ◌∷◌}
use tuned.Storage.Laws.{entry, get-entry}
use tuned.Plugins.Instance.{Instance}
use tuned.Plugins.Driver.{Command, Driver}
use tuned.Plugins.Commands.{World, storage_get, check_and_save_value, store_key}
use tuned.Plugins.Tuning.{save_dynamic, unsaved, dynamic_commands, instance_apply_dynamic}

module _ (D : Driver) (i : Instance) where
  save_dynamic_lem :
      (cs : List Command) (device : Option String) (w : World D) → save_dynamic D i cs device w ≡ w
  unfolding save_dynamic check_and_save_value
  save_dynamic_lem [] device w = refl
  save_dynamic_lem (c ∷ cs) device w = save_dynamic_lem cs device w

  entry-unsaved :
      (n k : String) (cs : List Command) (device : Option String) (w : World D)
      → entry n k (unsaved D i cs device w).1.stored ≡ entry n k w.stored
  unfolding unsaved storage_get
  entry-unsaved n k [] device w = refl
  entry-unsaved n k (c ∷ cs) device w =
      entry-unsaved n k cs device (storage_get D i c device w).1
      ∙ (get-entry D.class_name (store_key D i c device) w.stored).1 n k

  -- Applying dynamic tuning to a device saves no value of any option: every entry of the storage
  -- is the one from before, although `_check_and_save_value` is called for each option of the
  -- plugin's dynamic tuning for which nothing is stored.
  pub entry-instance_apply_dynamic :
      (n k : String) (device : Option String) (w : World D)
      → entry n k (instance_apply_dynamic D i device w).stored ≡ entry n k w.stored
  unfolding instance_apply_dynamic
  entry-instance_apply_dynamic n k device w =
      let (cs, w') = unsaved D i (dynamic_commands D D.options_used_by_dynamic) device w in
      rw (save_dynamic_lem cs device w')
        (entry-unsaved n k (dynamic_commands D D.options_used_by_dynamic) device w)
