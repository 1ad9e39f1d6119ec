-- ===== src/Hardware/Inventory/Laws.antt =====
-- Subscribing and unsubscribing in tuned/hardware/inventory.py.
use tuned.Base.{ℕ, zero, suc, String, ◌≡◌, refl, ◌∙◌, true, not, List, [], ◌∷◌, ◌++◌, arith}
use tuned.Base.{◌==◌, string_eq, if◌then◌else◌, length, select, Bool-cases, Option-cases, inl, inr}
use tuned.Base.Dict.{lookup, lookup-insert}
use tuned.Hardware.Inventory.{
  Handler, Inventory, same_handler, remove_first, element, remove_running, unsubscribe_subsystem,
  subscribe, handle_udev_event,
}

abbrev pub of_others : String → List Handler → List Handler
of_others plugin = select (λ h. not (plugin == h.plugin))

others-remove_first :
    (plugin : String) (h : Handler) (hs : List Handler)
    → (plugin == h.plugin) ≡ true
    → of_others plugin (remove_first h hs) ≡ of_others plugin hs
unfolding remove_first same_handler select
others-remove_first plugin h [] e = refl
others-remove_first plugin h (k ∷ hs) e = ground (arith, others-remove_first plugin h hs e)

others-remove_running :
    (fuel index : ℕ) (plugin : String) (hs : List Handler)
    → of_others plugin (remove_running fuel index plugin hs) ≡ of_others plugin hs
unfolding remove_running
others-remove_running zero index plugin hs = refl
others-remove_running (suc fuel) index plugin hs = elim (Option-cases (element index hs)) [
  | inl e ↦ rw (remove_running, e) refl
  | inr (h, e) ↦ elim (Bool-cases (plugin == h.plugin)) [
    | inl p ↦
        rw (remove_running, e, p)
          (others-remove_running fuel (suc index) plugin (remove_first h hs)
            ∙ others-remove_first plugin h hs p)
    | inr p ↦ rw (remove_running, e, p) (others-remove_running fuel (suc index) plugin hs)
  ]
]

-- Unsubscribing a plugin from a subsystem, although the loop changes the list that it runs over,
-- keeps the handlers of all other plugins, each as often as it was there and in the same order.
pub others-unsubscribe_subsystem :
    (plugin : String) (hs : List Handler)
    → of_others plugin (unsubscribe_subsystem plugin hs) ≡ of_others plugin hs
unfolding unsubscribe_subsystem
others-unsubscribe_subsystem plugin hs = others-remove_running (length hs) 0 plugin hs

-- After a plugin subscribes to a subsystem, an event of the subsystem calls the handlers that it
-- called before and then the new one; an event of another subsystem calls those of before.
pub handle_udev_event-subscribe :
    (plugin s t : String) (callback : ℕ) (v : Inventory)
    → handle_udev_event t (subscribe plugin s callback v) ≡ (
        if t == s
        then handle_udev_event s v ++ (record { plugin = plugin; callback = callback } ∷ [])
        else handle_udev_event t v)
unfolding handle_udev_event subscribe
handle_udev_event-subscribe plugin s t callback v =
    let handler : Handler = record { plugin = plugin; callback = callback } in
    elim (Option-cases (lookup s v.subscriptions)) [
      | inl e ↦ ground (arith, e, lookup-insert t s (handler ∷ []) v.subscriptions)
      | inr (hs, e) ↦ ground (arith, e, lookup-insert t s (hs ++ (handler ∷ [])) v.subscriptions)
    ]
