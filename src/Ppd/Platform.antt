-- ===== src/Ppd/Platform.antt =====
-- The handler of tuned/ppd/controller.py for the file of the ACPI platform profile. Times are
-- counted in microseconds.
use tuned.Base.{
  ℕ, ◌+◌, ◌≡◌, refl, ap, Bool, true, false, ◌||◌, if◌then◌else◌, ltb, leb, arith, List, [], ◌∷◌,
  All,
}

pub record PlatformProfileEventHandler : Type 0 where
  pub file_open : Bool
  pub last_close : ℕ

-- The inotify events of the file.
pub data FileEvent : Type 0 where
  opened closed_after_write closed_unwritten modified : FileEvent

-- `CLOSE_MODIFY_BUFFER`
abbrev pub close_modify_buffer : ℕ
close_modify_buffer = 100000

-- The methods `process_IN_…` at a time: the new state, and whether the profile is checked.
unfoldable pub handle :
    FileEvent → ℕ → PlatformProfileEventHandler → PlatformProfileEventHandler × Bool
handle opened now h = (record { file_open = true; last_close = 0 }, false)
handle closed_after_write now h = (record { file_open = false; last_close = now }, false)
handle closed_unwritten now h = (record h { file_open = false }, false)
handle modified now h =
    (h, if h.file_open || ltb now (h.last_close + close_modify_buffer) then false else true)

-- The state after a sequence of events with their times
unfoldable pub handle_all :
    List (FileEvent × ℕ) → PlatformProfileEventHandler → PlatformProfileEventHandler
unfolding handle
handle_all [] h = h
handle_all ((event, now) ∷ events) h = handle_all events (handle event now h).0

-- The events that leave an opened file open, and those that leave the time of the last closing
abbrev pub KeepsOpen : FileEvent × ℕ → Type 0
KeepsOpen (opened, _) = Unit
KeepsOpen (closed_after_write, _) = ⊥
KeepsOpen (closed_unwritten, _) = ⊥
KeepsOpen (modified, _) = Unit

abbrev pub KeepsClosed : FileEvent × ℕ → Type 0
KeepsClosed (opened, _) = ⊥
KeepsClosed (closed_after_write, _) = ⊥
KeepsClosed (closed_unwritten, _) = Unit
KeepsClosed (modified, _) = Unit

stays_open :
    (events : List (FileEvent × ℕ)) (h : PlatformProfileEventHandler)
    → All KeepsOpen events
    → h.file_open ≡ true
    → (handle_all events h).file_open ≡ true
unfolding handle_all
stays_open [] h keeps e = e
stays_open ((opened, t) ∷ events) h (_, keeps) e = stays_open events _ keeps refl
stays_open ((closed_after_write, t) ∷ events) h (keep, keeps) e = absurd keep
stays_open ((closed_unwritten, t) ∷ events) h (keep, keeps) e = absurd keep
stays_open ((modified, t) ∷ events) h (_, keeps) e = stays_open events h keeps e

stays_closed :
    (events : List (FileEvent × ℕ)) (u : ℕ) (h : PlatformProfileEventHandler)
    → All KeepsClosed events
    → h ≡ record { file_open = false; last_close = u }
    → handle_all events h ≡ record { file_open = false; last_close = u }
unfolding handle_all
stays_closed [] u h keeps e = e
stays_closed ((opened, t) ∷ events) u h (keep, keeps) e = absurd keep
stays_closed ((closed_after_write, t) ∷ events) u h (keep, keeps) e = absurd keep
stays_closed ((closed_unwritten, t) ∷ events) u h (_, keeps) e =
    stays_closed events u _ keeps
      (ap (λ (x : PlatformProfileEventHandler). record x { file_open = false }) e)
stays_closed ((modified, t) ∷ events) u h (_, keeps) e = stays_closed events u h keeps e

-- Whatever happened before: once the file was opened, and as long as it is not closed, no
-- modification makes the profile checked, and none does that comes less than the buffer after the
-- file was closed behind a write; every later one does, until the file is opened again or closed
-- behind a write.
pub handle-modified :
    (before while_open while_closed : List (FileEvent × ℕ)) (h : PlatformProfileEventHandler)
    (t u v : ℕ)
    → All KeepsOpen while_open
    → All KeepsClosed while_closed
    → let h1 = handle_all before h in
      let after_open = handle_all while_open (handle opened t h1).0 in
      let after_close = handle_all while_closed (handle closed_after_write u h1).0 in
      ((handle modified v after_open).1 ≡ false)
      × ((handle modified v after_close).1 ≡ leb (u + close_modify_buffer) v)
unfolding handle
handle-modified before while_open while_closed h t u v open_kept closed_kept =
    let h1 = handle_all before h in
    let is_open = stays_open while_open (handle opened t h1).0 open_kept refl in
    let is_closed =
      stays_closed while_closed u (handle closed_after_write u h1).0 closed_kept refl in
    (rw is_open refl, rw is_closed (ground arith))
