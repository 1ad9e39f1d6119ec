-- ===== src/Hardware/Inventory.antt =====
-- tuned/hardware/inventory.py: the handlers that plugins register for the events of a subsystem.
-- The udev monitor is the library's; what the inventory asks of it is recorded.
pub mod Laws
use tuned.Base.{
  ℕ, zero, suc, ◌+◌, String, Bool, true, false, not, ◌&&◌, Option, none, some, List, [], ◌∷◌, ◌++◌,
}
use tuned.Base.{◌==◌, string_eq, nat_eq, eqb, if◌then◌else◌, length, select}
use tuned.Base.Text.{ℤ, pos, negsuc, ltz}
use tuned.Base.Dict.{Dict, lookup, insert, has}

-- A plugin and its callback. A callback is known by a number, equal ones by the same number.
pub record Handler : Type 0 where
  pub plugin : String
  pub callback : ℕ

unfoldable pub same_handler : Handler → Handler → Bool
same_handler h k = h.plugin == k.plugin && eqb h.callback k.callback

pub record Inventory : Type 0 where
  pub subscriptions : Dict String (List Handler)
  -- the subsystems that the udev monitor has been told of, and whether events are processed
  pub filtered : List String
  pub processing : Bool

-- `subscribe`
unfoldable pub subscribe : String → String → ℕ → Inventory → Inventory
unfolding lookup insert
subscribe plugin subsystem callback v =
    let handler : Handler = record { plugin = plugin; callback = callback } in
    elim (lookup subsystem v.subscriptions) [
      | none ↦ record v {
        subscriptions = insert subsystem (handler ∷ []) v.subscriptions;
        filtered = v.filtered ++ (subsystem ∷ []);
      }
      | some handlers ↦ record v {
        subscriptions = insert subsystem (handlers ++ (handler ∷ [])) v.subscriptions;
      }
    ]

-- `start_processing_events` and `stop_processing_events`
abbrev pub start_processing_events : Inventory → Inventory
start_processing_events v = record v { processing = true }

abbrev pub stop_processing_events : Inventory → Inventory
stop_processing_events v = record v { processing = false }

-- `list.remove`: the first element that is equal.
unfoldable pub remove_first : Handler → List Handler → List Handler
unfolding same_handler
remove_first h [] = []
remove_first h (k ∷ ks) = let rest = remove_first h ks in if same_handler k h then ks else k ∷ rest

unfoldable pub element : ℕ → List Handler → Option Handler
element n [] = none
element zero (h ∷ hs) = some h
element (suc n) (h ∷ hs) = element n hs

-- The loop of `_unsubscribe_subsystem`, which removes elements of the list that it runs over: it
-- goes on at the next index, whether or not the list has become shorter.
unfoldable pub remove_running : ℕ → ℕ → String → List Handler → List Handler
unfolding element remove_first
remove_running zero index plugin hs = hs
remove_running (suc fuel) index plugin hs = elim (element index hs) [
  | none ↦ hs
  | some h ↦
      remove_running fuel (suc index) plugin (if plugin == h.plugin then remove_first h hs else hs)
]

-- `_unsubscribe_subsystem`. The index grows in each round, so that the list's length is enough.
unfoldable pub unsubscribe_subsystem : String → List Handler → List Handler
unfolding remove_running
unsubscribe_subsystem plugin hs = remove_running (length hs) 0 plugin hs

abbrev is_chosen : Option String → String → Bool
is_chosen none subsystem = true
is_chosen (some s) subsystem = subsystem == s

-- The handlers of one subsystem after `unsubscribe`; a chosen subsystem without any is deleted.
abbrev left_over : String → Option String → String → List Handler → List Handler
left_over plugin subsystem s hs =
    if is_chosen subsystem s then unsubscribe_subsystem plugin hs else hs

unsubscribe_all : String → Option String → Dict String (List Handler) → Dict String (List Handler)
unfolding unsubscribe_subsystem
unsubscribe_all plugin subsystem [] = []
unsubscribe_all plugin subsystem ((s, hs) ∷ rest) =
    let others = unsubscribe_all plugin subsystem rest in
    if is_chosen subsystem s && eqb (length (left_over plugin subsystem s hs)) 0
    then others
    else (s, left_over plugin subsystem s hs) ∷ others

-- `unsubscribe`
unfoldable pub unsubscribe : String → Option String → Inventory → Inventory
unfolding unsubscribe_all
unsubscribe plugin subsystem v = record v {
  subscriptions = unsubscribe_all plugin subsystem v.subscriptions;
}

-- `HOTPLUG_WAIT_FOR_DEV_INIT_RETRIES`
abbrev pub init_retries : ℤ
init_retries = pos 100

-- The wait of `_handle_udev_event`: how often it sleeps when `device.is_initialized` gives these
-- answers, one for each test. `retry =- 1` assigns -1.
unfoldable pub wait_rounds : ℕ → ℕ → ℤ → (ℕ → Bool) → ℕ
wait_rounds zero round retry initialized = 0
wait_rounds (suc fuel) round retry initialized =
    let later = wait_rounds fuel (suc round) (negsuc 0) initialized in
    if not (initialized round) && ltz (pos 0) retry then suc later else 0

unfoldable pub wait_initialized : ℕ → (ℕ → Bool) → ℕ
unfolding wait_rounds
wait_initialized fuel initialized = wait_rounds fuel 0 init_retries initialized

-- `_handle_udev_event`: the handlers that are called, in order; an exception in one is logged.
unfoldable pub handle_udev_event : String → Inventory → List Handler
unfolding lookup
handle_udev_event subsystem v = elim (lookup subsystem v.subscriptions) [
  | none ↦ []
  | some handlers ↦ handlers
]
