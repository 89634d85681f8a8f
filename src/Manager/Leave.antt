-- ===== src/Manager/Leave.antt =====
-- What the last client leaves behind, crates/relayterm-terminal/src/manager.rs.
use relay_term.Prelude.{
  ℕ, ◌+◌, ◌≡◌, refl, ap, ◌∙◌, true, false, Option, none, some, [], ◌∷◌, ◌==◌, arith,
}
use relay_term.Sessions.{
  TerminalSession, TerminalSessionAttachment, find, find_attachment, mark, is_closed,
}
use relay_term.Sessions
use relay_term.Sessions.Rows.{
  with_status, find-with_status, owner-mark, id-mark, find-with_detached,
}
use relay_term.Manager.{
  Manager, closed, pty_teardown, after, ClosedReason, LiveRuntime, runtime_view,
}
use relay_term.Manager.Attach.{detach_state, pending_at, close_of}
use relay_term.Manager.Pty.{tear_down, end_row, reason_or_local}
use relay_term.Manager.Quiet.{quiet, update_status-quiet, create_event-quiet, read_session-quiet}
use relay_term.Manager.Reattach.{
  AttachedTo, LastOne, after_leave, detach_attachment-last, view-change, set-close,
}

-- The last client, which has not left before, leaves a live session of its owner, no close of which
-- is pending, and no call of the repositories fails: the row is marked detached, and the close is
-- due after the time to live.
pub last_detach_pending :
    (owner_id session_id attachment_id now : ℕ) (seen : Option ℕ) (m : Manager)
    (s : TerminalSession) (a : TerminalSessionAttachment) (l : LiveRuntime)
    → find session_id m.store ≡ some s
    → s.id ≡ session_id
    → s.owner_id ≡ owner_id
    → AttachedTo attachment_id s a m
    → LastOne session_id attachment_id l m
    → l.detach_close ≡ none
    → (find session_id (after_leave owner_id session_id attachment_id seen now m).store
        ≡ some (mark Sessions.detached none now s))
      × (detach_state session_id (after_leave owner_id session_id attachment_id seen now m)
          ≡ some (record { detached_at = now; expires_at = now + m.settings.detach_ttl }))
unfolding detach_state pending_at
last_detach_pending owner_id session_id attachment_id now seen m s a l e is_id mine att last fresh =
    rw
      (
        detach_attachment-last owner_id session_id attachment_id now seen m s a l e is_id mine att
            last,
        after_leave,
      )
      (
        find-with_status session_id Sessions.detached none now _ s
            (find-with_detached session_id attachment_id now seen m.store s e),
        ap close_of (view-change session_id _ m _ refl) ∙ set-close _ l _ last.1 fresh,
      )

-- The manager after the forwarder's end.
abbrev pub after_teardown : ℕ → ℕ → Option ClosedReason → ℕ → Manager → Manager
after_teardown owner_id id reason now m = (tear_down id owner_id reason now (quiet m)).1

abbrev pub torn_manager : ℕ → Option ClosedReason → ℕ → Manager → Manager
torn_manager id reason now m = record m {
  store = with_status id Sessions.closed (some now) now m.store;
  events =
      record { session_id = id; kind = closed; payload = pty_teardown (reason_or_local reason) }
      ∷ m.events;
  faults = [];
}

still_attached :
    (attachment_id id now : ℕ) (reason : Option ClosedReason) (m : Manager) (s : TerminalSession)
    (a : TerminalSessionAttachment)
    → AttachedTo attachment_id s a m
    → AttachedTo attachment_id
        (mark Sessions.closed (some now) now s)
        a
        (torn_manager id reason now m)
unfolding mark find_attachment
still_attached attachment_id id now reason m s a h = h

still_last :
    (id attachment_id now : ℕ) (reason : Option ClosedReason) (l : LiveRuntime) (m : Manager)
    → LastOne id attachment_id l m
    → LastOne id attachment_id l (torn_manager id reason now m)
unfolding runtime_view
still_last id attachment_id now reason l m h = h

same_owner :
    (owner_id : ℕ) (s : TerminalSession) → s.owner_id ≡ owner_id → (s.owner_id == owner_id) ≡ true
same_owner owner_id s e = ground arith

torn_down :
    (owner_id id now : ℕ) (reason : Option ClosedReason) (m : Manager) (s : TerminalSession)
    → find id m.store ≡ some s
    → s.owner_id ≡ owner_id
    → is_closed s.status ≡ false
    → (tear_down id owner_id reason now (quiet m)).1 ≡ record (quiet m) {
      store = with_status id Sessions.closed (some now) now m.store;
      events =
          record { session_id = id; kind = closed; payload = pty_teardown (reason_or_local reason) }
          ∷ m.events;
    }
unfolding tear_down end_row after
torn_down owner_id id now reason m s e mine still =
    rw
      (
        read_session-quiet id m,
        tear_down,
        e,
        end_row,
        still,
        same_owner owner_id s mine,
        update_status-quiet id Sessions.closed (some now) now m s e,
      )
      (ap (λ x. x.1)
        (create_event-quiet id closed (pty_teardown (reason_or_local reason))
          (record m { store = with_status id Sessions.closed (some now) now m.store })))

-- The live PTY of an open session ends, which closes the row, and then its last client leaves, and
-- no call of the repositories fails: the row is marked detached again, with no time of closing,
-- although the PTY is gone. A closed session does not stay closed.
pub teardown_then_leave_reopens :
    (owner_id session_id attachment_id t now : ℕ) (reason : Option ClosedReason) (seen : Option ℕ)
    (m : Manager) (s : TerminalSession) (a : TerminalSessionAttachment) (l : LiveRuntime)
    → find session_id m.store ≡ some s
    → s.id ≡ session_id
    → s.owner_id ≡ owner_id
    → is_closed s.status ≡ false
    → AttachedTo attachment_id s a m
    → LastOne session_id attachment_id l m
    → (find session_id (after_teardown owner_id session_id reason t m).store
        ≡ some (mark Sessions.closed (some t) t s))
      × (find session_id
            (after_leave owner_id session_id attachment_id seen now
              (after_teardown owner_id session_id reason t m)).store
          ≡ some (mark Sessions.detached none now (mark Sessions.closed (some t) t s)))
teardown_then_leave_reopens owner_id session_id attachment_id t now reason seen m s a l e is_id mine
      still att last =
    let row = find-with_status session_id Sessions.closed (some t) t m.store s e in
    rw (torn_down owner_id session_id t reason m s e mine still, after_teardown)
      (
        row,
        rw
            (
              detach_attachment-last owner_id session_id attachment_id now seen
                  (torn_manager session_id reason t m) (mark Sessions.closed (some t) t s) a l row
                  (id-mark Sessions.closed (some t) t s ∙ is_id)
                  (owner-mark Sessions.closed (some t) t s ∙ mine)
                  (still_attached attachment_id session_id t reason m s a att)
                  (still_last session_id attachment_id t reason l m last),
              after_leave,
            )
            (find-with_status session_id Sessions.detached none now _ _
              (find-with_detached session_id attachment_id now seen _ _ row)),
      )
