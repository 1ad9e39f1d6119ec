-- ===== src/Tests/Hardware.antt =====
-- Handlers of two plugins, one of which has subscribed twice, and some disks.
use tuned.Base.{ℕ, String, ◌≡◌, refl, true, List, [], ◌∷◌, string_eq}
use tuned.Hardware.Inventory.{Handler, Inventory, unsubscribe_subsystem}
use tuned.Hardware.Inventory.Laws.{of_others, others-unsubscribe_subsystem}

abbrev handler_of : String → ℕ → Handler
handler_of plugin callback = record { plugin = plugin; callback = callback }

abbrev three_handlers : List Handler
three_handlers = handler_of "disk" 1 ∷ handler_of "disk" 2 ∷ handler_of "scheduler" 3 ∷ []

abbrev inventory : Inventory
inventory = record {
  subscriptions = ("block", three_handlers) ∷ [];
  filtered = "block" ∷ [];
  processing = true;
}

-- The second of two adjacent handlers of a plugin is skipped, and stays.
skipped_handler :
    unsubscribe_subsystem "disk" three_handlers
    ≡ (handler_of "disk" 2 ∷ handler_of "scheduler" 3 ∷ [])
unfolding unsubscribe_subsystem string_eq
skipped_handler = refl

others-unsubscribe_subsystem_example :
    of_others "disk" (unsubscribe_subsystem "disk" three_handlers) ≡ of_others "disk" three_handlers
others-unsubscribe_subsystem_example = others-unsubscribe_subsystem "disk" three_handlers
