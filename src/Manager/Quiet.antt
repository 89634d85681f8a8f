-- ===== src/Manager/Quiet.antt =====
-- The calls of the repositories in crates/relayterm-terminal/src/manager.rs when none of them fails.
use relay_term.Prelude.{ℕ, ◌≡◌, refl, Option, some, [], ◌∷◌, arith}
use relay_term.Sessions.{
  TerminalSessionAttachment, find_attachment, TerminalSession, find, mark, is_closed,
}
use relay_term.Sessions
use relay_term.Sessions.Rows.{
  with_detached, mark_attachment_detached-some, with_status, set_status-some,
}
use relay_term.Manager.{
  read, attachment_of, if_of_session, update_detached, Manager, ManagerError, Result, ok, err,
  closed, client_requested, after, ◌>>=◌, ◌>>◌, call, next_fault, later_faults, if_owned,
  owned_session, put_store, update_status, create_event, RuntimeEntry, LiveRuntime,
  AttachmentRuntime, runtime_view, live_of,
}
use relay_term.Manager
use relay_term.Manager.Access.{if_owned-mine}

-- No call of a repository fails any more.
abbrev pub quiet : Manager → Manager
quiet m = record m { faults = [] }

pub update_status-quiet :
    (id : ℕ) (status : Sessions.TerminalSessionStatus) (closed_at : Option ℕ) (now : ℕ)
    (m : Manager) (s : TerminalSession)
    → find id m.store ≡ some s
    → update_status id status closed_at now (quiet m)
      ≡ (ok tt, record (quiet m) { store = with_status id status closed_at now m.store })
unfolding update_status call put_store next_fault later_faults
update_status-quiet id status closed_at now m s e =
    rw (set_status-some id status closed_at now m.store s e) refl

pub create_event-quiet :
    (id : ℕ) (kind : Manager.SessionEventKind) (payload : Manager.EventPayload) (m : Manager)
    → create_event id kind payload (quiet m) ≡ (
      ok tt,
      record (quiet m) {
        events = record { session_id = id; kind = kind; payload = payload } ∷ m.events;
      },
    )
unfolding create_event call next_fault later_faults
create_event-quiet id kind payload m = refl

pub owned_session-quiet :
    (owner_id id : ℕ) (m : Manager) (s : TerminalSession)
    → find id m.store ≡ some s
    → s.owner_id ≡ owner_id
    → owned_session owner_id id (quiet m) ≡ (ok s, quiet m)
unfolding owned_session call next_fault later_faults after
owned_session-quiet owner_id id m s e mine = rw (e, if_owned-mine owner_id s (quiet m) mine) refl

pub update_detached-quiet :
    (id now : ℕ) (seen : Option ℕ) (m : Manager) (a : TerminalSessionAttachment)
    → find_attachment id m.store ≡ some a
    → update_detached id now seen (quiet m)
      ≡ (ok tt, record (quiet m) { store = with_detached id now seen m.store })
unfolding update_detached call put_store next_fault later_faults
update_detached-quiet id now seen m a e =
    rw (mark_attachment_detached-some id now seen m.store a e) refl

pub attachment_of-quiet :
    (session_id id : ℕ) (m : Manager) (a : TerminalSessionAttachment)
    → find_attachment id m.store ≡ some a
    → a.session_id ≡ session_id
    → attachment_of session_id id (quiet m) ≡ (ok a, quiet m)
unfolding attachment_of call next_fault later_faults after if_of_session
attachment_of-quiet session_id id m a e mine = rw e (ground arith)

pub read_session-quiet :
    (id : ℕ) (m : Manager)
    → call (read (λ n. find id n.store)) (quiet m) ≡ (ok (find id m.store), quiet m)
unfolding call next_fault later_faults
read_session-quiet id m = refl
