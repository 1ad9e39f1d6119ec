-- ===== src/Plugins/Commands/Effects.antt =====
-- What one command, executed or cleaned up, does to the stored and to the current values.
use mathlib.Core.Option.{or_else}
use tuned.Base.{String, ◌≡◌, ◌≢◌, refl, Bool, true, false, Option, none, some, ◌⊎◌, inl, inr}
use tuned.Base.{arith, ◌==◌, ◌&&◌, string_eq, option_eq, if◌then◌else◌}
use tuned.Storage.Laws.{entry, entry-set, entry-unset, get-entry}
use tuned.Plugins.Instance.{Instance}
use tuned.Plugins.Driver.{Command, Driver}
use tuned.Plugins.Commands.{World, execute_command, cleanup_command, storage_get, storage_set}
use tuned.Plugins.Commands.{storage_unset, set_value, store_key}
use tuned.Plugins.Commands.Keys.{IsPlain, storage_key-injective}
use tuned.Base.{Option-cases}
use tuned.Plugins.Commands.{process_assignment_modifiers}

-- A command's `set` writes the value that its `get` reads back for the device, and no other value
-- that the plugin reads; the reader does not heed `ignore_missing`.
pub record IsLawful (D : Driver) : Type 0 where
  pub read-write :
      (c e : String) (i : Instance) (v : String) (d f : Option String) (remove ignore : Bool)
      (s : D.Sys)
      → D.read c i d ignore (D.write e i v f false remove s).1
        ≡ (if c == e && d == f then some v else D.read c i d ignore s)

module _ (D : Driver) (i : Instance) where
  -- The value stored for a command on a device, and the value that it has now.
  unfoldable pub stored_value : Command → Option String → World D → Option String
  stored_value c d w = entry D.class_name (store_key D i c d) w.stored

  unfoldable pub current_value : Command → Option String → World D → Option String
  current_value c d w = D.read c.name i d false w.sys

-- A command whose values have keys of their own, and which has no custom handler.
abbrev pub IsTarget : Command → Option String → Type 0
IsTarget c d = IsPlain c.name × (d ≢ some "") × (c.custom ≡ false)

abbrev pub same : Command → Option String → Command → Option String → Bool
same c d e f = c.name == e.name && d == f

module _ (D : Driver) (L : IsLawful D) (i : Instance) (plain : IsPlain i.name) where
  same_key :
      (c e : Command) (d f : Option String)
      → IsTarget c d
      → IsTarget e f
      → (store_key D i c d == store_key D i e f) ≡ same c d e f
  unfolding store_key
  same_key c e d f hc he = ground (
    arith,
    storage_key-injective D.class_name i.name i.name c.name e.name d f plain plain hc.0 he.0 hc.1
        he.1,
  )

  module _ (c e : Command) (d f : Option String) (hc : IsTarget c d) (he : IsTarget e f) where
    pub stored-storage_set :
        (v : String) (w : World D)
        → stored_value D i c d (storage_set D i e v f w)
          ≡ (if same c d e f then some v else stored_value D i c d w)
    unfolding stored_value storage_set
    stored-storage_set v w = ground (
      arith,
      same_key c e d f hc he,
      entry-set D.class_name (store_key D i c d) D.class_name (store_key D i e f) v w.stored,
    )

    stored-storage_unset :
        (w : World D)
        → stored_value D i c d (storage_unset D i e f w)
          ≡ (if same c d e f then none else stored_value D i c d w)
    unfolding stored_value storage_unset
    stored-storage_unset w = ground (
      arith,
      same_key c e d f hc he,
      entry-unset D.class_name (store_key D i c d) D.class_name (store_key D i e f) w.stored,
    )

    pub current-set_value :
        (v : String) (remove : Bool) (w : World D)
        → current_value D i c d (set_value D i e f remove (some v) w)
          ≡ (if same c d e f then some v else current_value D i c d w)
    unfolding current_value set_value
    current-set_value v remove w = L.read-write c.name e.name i v d f remove false w.sys

    pub stored-set_value :
        (o : Option String) (remove : Bool) (w : World D)
        → stored_value D i c d (set_value D i e f remove o w) ≡ stored_value D i c d w
    unfolding stored_value set_value
    stored-set_value none remove w = refl
    stored-set_value (some v) remove w = refl

    pub current-storage_set :
        (v : String) (w : World D)
        → current_value D i c d (storage_set D i e v f w) ≡ current_value D i c d w
    unfolding current_value storage_set
    current-storage_set v w = refl

    current-storage_unset :
        (w : World D) → current_value D i c d (storage_unset D i e f w) ≡ current_value D i c d w
    unfolding current_value storage_unset
    current-storage_unset w = refl

    storage_get_effect :
        (w : World D)
        → (stored_value D i c d (storage_get D i e f w).1 ≡ stored_value D i c d w)
          × (current_value D i c d (storage_get D i e f w).1 ≡ current_value D i c d w)
    unfolding stored_value current_value storage_get
    storage_get_effect w = (
      (get-entry D.class_name (store_key D i e f) w.stored).1 D.class_name (store_key D i c d),
      refl,
    )

  module _ (e : Command) (f : Option String) (he : IsTarget e f) where
    -- A command changes nothing, or it saves the current value and writes a new one.
    pub execute_cases :
        (v old : String) (w : World D)
        → current_value D i e f w ≡ some old
        → (execute_command D i e f v w ≡ w)
          ⊎ ((new : String) × (execute_command D i e f v w
                ≡ set_value D i e f false (some new) (storage_set D i e old f w)))
    unfolding execute_command current_value
    execute_cases v old w h =
        elim (Option-cases (process_assignment_modifiers (some v) (some old))) [
          | inl kept ↦ inl (rw (he.2, h, kept) refl)
          | inr (new, changed) ↦ inr (new, rw (he.2, h, changed) refl)
        ]

    storage_get-value : (w : World D) → (storage_get D i e f w).0 ≡ stored_value D i e f w
    unfolding storage_get stored_value
    storage_get-value w = (get-entry D.class_name (store_key D i e f) w.stored).0

    -- Cleanup writes back what is stored, and forgets it.
    cleanup_eq :
        (remove : Bool) (w : World D)
        → cleanup_command D i e f remove w
          ≡ storage_unset D i e f
              (set_value D i e f remove (stored_value D i e f w) (storage_get D i e f w).1)
    unfolding cleanup_command stored_value
    cleanup_eq remove w = rw (he.2, ← storage_get-value w) refl

  module _ (c e : Command) (d f : Option String) (hc : IsTarget c d) (he : IsTarget e f) where
    pub same-stored_value :
        (w : World D) → same c d e f ≡ true → stored_value D i c d w ≡ stored_value D i e f w
    unfolding stored_value store_key
    same-stored_value w h = ground arith

    pub stored-cleanup :
        (remove : Bool) (w : World D)
        → stored_value D i c d (cleanup_command D i e f remove w)
          ≡ (if same c d e f then none else stored_value D i c d w)
    stored-cleanup remove w =
        let read = (storage_get D i e f w).1 in
        rw
          (
            cleanup_eq e f he,
            stored-storage_unset c e d f hc he,
            stored-set_value c e d f hc he,
            (storage_get_effect c e d f hc he w).0,
          )
          refl

    current-set_value? :
        (o : Option String) (remove : Bool) (w : World D)
        → current_value D i c d (set_value D i e f remove o w)
          ≡ (if same c d e f then or_else o (current_value D i c d w) else current_value D i c d w)
    unfolding or_else
    current-set_value? none remove w = unfold set_value in ground arith
    current-set_value? (some v) remove w = current-set_value c e d f hc he v remove w

    pub current-cleanup :
        (remove : Bool) (w : World D)
        → current_value D i c d (cleanup_command D i e f remove w) ≡ (
            if same c d e f
            then or_else (stored_value D i c d w) (current_value D i c d w)
            else current_value D i c d w)
    current-cleanup remove w =
        rw
          (
            cleanup_eq e f he,
            current-storage_unset c e d f hc he,
            current-set_value?,
            (storage_get_effect c e d f hc he w).1,
          )
          (ground (arith, same-stored_value w))
