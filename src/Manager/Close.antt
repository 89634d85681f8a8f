-- ===== src/Manager/Close.antt =====
-- Closing a session, crates/relayterm-terminal/src/manager.rs.
use relay_term.Prelude.{
  ℕ, ◌≡◌, refl, ap, ◌∙◌, true, false, Option, none, some, List, [], ◌∷◌, ◌==◌, arith, ℕ_discrete,
}
use relay_term.Prelude.Assoc.{get, remove, retain, any_if, get-remove_self}
use relay_term.Sessions.{TerminalSession, find, mark, is_closed}
use relay_term.Sessions
use relay_term.Sessions.Rows.{with_status, find-with_status, owner-mark, status-mark}
use relay_term.Recording.{RecordingWriterConfig, Accepts}
use relay_term.Recording.Producer.{Recorder}
use relay_term.Manager.{
  Manager, Result, ok, closed, client_requested, after, RuntimeEntry, LiveRuntime,
  AttachmentRuntime,
}
use relay_term.Manager.Lifecycle.{
  close_session, close_open, close_closed, remove_runtime, drop_runtime, drop_attachments,
  shutdown_runtime, shutdown_live, end_recording, not_of_session,
}
use relay_term.Manager.Quiet.{quiet, update_status-quiet, create_event-quiet, owned_session-quiet}

-- A call that only adds to the ended recordings.
abbrev Appends : (Manager → Result (Unit {0}) × Manager) → Manager → Type 0
Appends c m = (r : List (ℕ × Recorder)) × (c m ≡ (ok tt, record m { ended_recordings = r }))

end_recording-Appends :
    (settings : Option (RecordingWriterConfig × Accepts)) (id last_seq : ℕ) (o : Option Recorder)
    (m : Manager)
    → Appends (end_recording settings id last_seq o) m
unfolding end_recording
end_recording-Appends settings id last_seq none m = (_, refl)
end_recording-Appends none id last_seq (some r) m = (_, refl)
end_recording-Appends (some (c, accepts)) id last_seq (some r) m = (_, refl)

shutdown_live-Appends :
    (id : ℕ) (o : Option LiveRuntime) (m : Manager) → Appends (shutdown_live id o) m
unfolding shutdown_live
shutdown_live-Appends id none m = (_, refl)
shutdown_live-Appends id (some l) m = end_recording-Appends _ id l.last_seq l.recording m

shutdown_runtime-Appends :
    (id : ℕ) (o : Option RuntimeEntry) (m : Manager) → Appends (shutdown_runtime id o) m
unfolding shutdown_runtime
shutdown_runtime-Appends id none m = (_, refl)
shutdown_runtime-Appends id (some e) m = shutdown_live-Appends id e.live m

-- The entry is gone; nothing else but the ended recordings has changed.
remove_runtime-lem :
    (id : ℕ) (m : Manager)
    → (r : List (ℕ × Recorder)) × (remove_runtime id m
        ≡ (ok tt, record m { runtimes = remove ℕ_discrete id m.runtimes; ended_recordings = r }))
unfolding remove_runtime drop_runtime after
remove_runtime-lem id m =
    shutdown_runtime-Appends id (get ℕ_discrete id m.runtimes)
      (record m { runtimes = remove ℕ_discrete id m.runtimes })

-- The manager after the close of an open session, with its ended recordings.
abbrev pub closed_manager : ℕ → ℕ → List (ℕ × Recorder) → Manager → Manager
closed_manager id now r m = record m {
  store = with_status id Sessions.closed (some now) now m.store;
  events = record { session_id = id; kind = closed; payload = client_requested } ∷ m.events;
  runtimes = remove ℕ_discrete id m.runtimes;
  attachments = retain (not_of_session id) m.attachments;
  ended_recordings = r;
}

-- What the owner of an open session gets from `close_session`, and what it leaves.
pub close_open-quiet :
    (id owner_id now : ℕ) (m : Manager) (s : TerminalSession)
    → find id m.store ≡ some s
    → s.owner_id ≡ owner_id
    → is_closed s.status ≡ false
    → (r : List (ℕ × Recorder)) × (close_session id owner_id now (quiet m) ≡ (
      ok (record { session = mark Sessions.closed (some now) now s; already_closed = false }),
      closed_manager id now r (quiet m),
    ))
unfolding after drop_attachments close_session close_open
close_open-quiet id owner_id now m s e mine still =
    let row = find-with_status id Sessions.closed (some now) now m.store s e in
    let marked = record (quiet m) {
      store = with_status id Sessions.closed (some now) now m.store;
      events = record { session_id = id; kind = closed; payload = client_requested } ∷ m.events;
    } in
    let (r, gone) = remove_runtime-lem id marked in
    (
      r,
      rw
          (
            owned_session-quiet owner_id id m s e mine,
            close_session,
            still,
            close_open,
            update_status-quiet id Sessions.closed (some now) now m s e,
            create_event-quiet id closed client_requested (record m { store = marked.store }),
            owned_session-quiet owner_id id marked _ row
                (owner-mark Sessions.closed (some now) now s ∙ mine),
            gone,
          )
          refl,
    )

close_closed-quiet :
    (id owner_id later : ℕ) (m : Manager) (s : TerminalSession)
    → find id m.store ≡ some s
    → s.owner_id ≡ owner_id
    → is_closed s.status ≡ true
    → (r : List (ℕ × Recorder)) × (close_session id owner_id later (quiet m) ≡ (
      ok (record { session = s; already_closed = true }),
      record (quiet m) { runtimes = remove ℕ_discrete id m.runtimes; ended_recordings = r },
    ))
unfolding after close_session close_closed
close_closed-quiet id owner_id later m s e mine shut =
    let (r, gone) = remove_runtime-lem id (quiet m) in
    (
      r,
      rw (owned_session-quiet owner_id id m s e mine, close_session, shut, close_closed, gone) refl,
    )

closed_is : is_closed Sessions.closed ≡ true
unfolding is_closed
closed_is = refl

none_left :
    (id : ℕ) (rest : List (ℕ × AttachmentRuntime))
    → any_if (λ a. a.session_id == id) (retain (not_of_session id) rest) ≡ false
unfolding any_if retain not_of_session
none_left id [] = refl
none_left id ((k, a) ∷ rest) = ground (arith, none_left id rest)

-- The manager after the close.
abbrev pub after_close : ℕ → ℕ → ℕ → Manager → Manager
after_close id owner_id now m = (close_session id owner_id now (quiet m)).1

-- The owner of an open session closes it, and no call of the repositories fails: the row is closed
-- at that time, one event tells of it, the registry has no entry of the session any more, live or
-- not, and no registered attachment is to it.
pub close_ends :
    (id owner_id now : ℕ) (m : Manager) (s : TerminalSession)
    → find id m.store ≡ some s
    → s.owner_id ≡ owner_id
    → is_closed s.status ≡ false
    → (find id (after_close id owner_id now m).store ≡ some (mark Sessions.closed (some now) now s))
      × ((after_close id owner_id now m).events
          ≡ record { session_id = id; kind = closed; payload = client_requested } ∷ m.events)
      × (get ℕ_discrete id (after_close id owner_id now m).runtimes ≡ none)
      × (any_if (λ a. a.session_id == id) (after_close id owner_id now m).attachments ≡ false)
close_ends id owner_id now m s e mine still =
    let (r, done) = close_open-quiet id owner_id now m s e mine still in
    rw (done, after_close)
      (
        find-with_status id Sessions.closed (some now) now m.store s e,
        refl,
        get-remove_self ℕ_discrete id m.runtimes,
        none_left id m.attachments,
      )

-- After the owner has closed an open session, and when no call of the repositories fails, a second
-- close answers that the session was closed already, with the row of the first close, and changes
-- neither the rows, nor the events, nor the registered attachments.
pub close_twice :
    (id owner_id now later : ℕ) (m : Manager) (s : TerminalSession)
    → find id m.store ≡ some s
    → s.owner_id ≡ owner_id
    → is_closed s.status ≡ false
    → ((close_session id owner_id later (after_close id owner_id now m)).0
        ≡ ok (record { session = mark Sessions.closed (some now) now s; already_closed = true }))
      × ((close_session id owner_id later (after_close id owner_id now m)).1.store
          ≡ (after_close id owner_id now m).store)
      × ((close_session id owner_id later (after_close id owner_id now m)).1.events
          ≡ (after_close id owner_id now m).events)
      × ((close_session id owner_id later (after_close id owner_id now m)).1.attachments
          ≡ (after_close id owner_id now m).attachments)
close_twice id owner_id now later m s e mine still =
    let (r, done) = close_open-quiet id owner_id now m s e mine still in
    let (q, again) =
      close_closed-quiet id owner_id later (closed_manager id now r m)
        (mark Sessions.closed (some now) now s)
        (find-with_status id Sessions.closed (some now) now m.store s e)
        (owner-mark Sessions.closed (some now) now s ∙ mine)
        (ap is_closed (status-mark Sessions.closed (some now) now s) ∙ closed_is) in
    let left : after_close id owner_id now m ≡ closed_manager id now r (quiet m) =
      ap (λ x. x.1) done in
    rw left (rw again (refl, refl, refl, refl))
