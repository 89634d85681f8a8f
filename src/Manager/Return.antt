-- ===== src/Manager/Return.antt =====
-- A client comes back before the close of its session is due, crates/relayterm-terminal/src/manager.rs.
use relay_term.Prelude.{
  ℕ, ◌≡◌, refl, ap, ◌∙◌, true, false, Option, none, some, List, [], ◌∷◌, is_some, ℕ_discrete,
}
use relay_term.Prelude.Assoc.{modify}
use relay_term.Sessions.{TerminalSession, find, mark, is_closed, create_attachment}
use relay_term.Sessions
use relay_term.Sessions.Rows.{with_status, find-with_status}
use relay_term.Manager.{
  Manager, ok, after, call, next_fault, later_faults, LiveRuntime, DetachInfo, runtime_view,
  attached, reattached, attached_by, reattached_by,
}
use relay_term.Manager.Lifecycle.{if_open}
use relay_term.Manager.Attach.{
  AttachRequest, attach_session, cancel_pending_close, insert_attachment, attachment_row,
  note_return, register_attachment, change_live, map_live, no_close, close_of, detach_state,
  expire_detach_close,
}
use relay_term.Manager.Access.{request}
use relay_term.Manager.Quiet.{quiet, owned_session-quiet, create_event-quiet, update_status-quiet}
use relay_term.Manager.Reattach.{view-change}

-- The manager after the return, less its events and its registered attachments.
abbrev pub Returned : ℕ → ℕ → ℕ → AttachRequest → Manager → Manager → Type 0
Returned id attachment_id now req m m' =
    (m'.store
      ≡ with_status id Sessions.active none now
          (create_attachment attachment_id now id req.client_info req.remote_addr m.store))
    × (m'.runtimes ≡ modify ℕ_discrete id (change_live no_close) m.runtimes)
    × (m'.faults ≡ [])

if_open-open :
    (s : TerminalSession) (m : Manager) → is_closed s.status ≡ false → if_open s m ≡ (ok tt, m)
unfolding if_open
if_open-open s m e = rw e refl

cancel-pending :
    (id : ℕ) (info : DetachInfo) (m : Manager)
    → detach_state id m ≡ some info
    → cancel_pending_close id m
      ≡ (ok true, record m { runtimes = modify ℕ_discrete id (change_live no_close) m.runtimes })
unfolding cancel_pending_close after
cancel-pending id info m e = rw (e, cancel_pending_close) refl

insert_attachment-quiet :
    (id now : ℕ) (req : AttachRequest) (m : Manager)
    → insert_attachment id now req (quiet m) ≡ (
      ok (attachment_row id now req),
      record (quiet m) {
        store = create_attachment id now req.session_id req.client_info req.remote_addr m.store;
      },
    )
unfolding insert_attachment call next_fault later_faults
insert_attachment-quiet id now req m = refl

-- An attachment does not touch the rows of the sessions.
find-create_attachment :
    (id attachment_id now : ℕ) (req : AttachRequest) (m : Manager) (s : TerminalSession)
    → find id m.store ≡ some s
    → find id
        (create_attachment attachment_id now req.session_id req.client_info req.remote_addr m.store)
      ≡ some s
unfolding find create_attachment
find-create_attachment id attachment_id now req m s e = e

-- The manager after the client of `req` is attached again.
abbrev pub after_return : ℕ → ℕ → AttachRequest → Manager → Manager
after_return attachment_id now req m = (attach_session attachment_id now req (quiet m)).1

pub attach_session-Returned :
    (owner_id id attachment_id now : ℕ) (client_info remote_addr : Option (List ℕ))
    (info : DetachInfo) (m : Manager) (s : TerminalSession)
    → find id m.store ≡ some s
    → s.id ≡ id
    → s.owner_id ≡ owner_id
    → is_closed s.status ≡ false
    → detach_state id (quiet m) ≡ some info
    → Returned id attachment_id now
        (request owner_id id client_info remote_addr)
        m
        (after_return attachment_id now (request owner_id id client_info remote_addr) m)
unfolding attach_session note_return register_attachment after
attach_session-Returned owner_id id attachment_id now client_info remote_addr info m s e is_id mine
      still due =
    let req = request owner_id id client_info remote_addr in
    let cancelled = record m {
      runtimes = modify ℕ_discrete id (change_live no_close) m.runtimes;
    } in
    let written = record cancelled {
      store = create_attachment attachment_id now id client_info remote_addr m.store;
    } in
    let note =
      attached_by attachment_id client_info remote_addr
        (is_some (runtime_view id (quiet written))) in
    let told = record written {
      events = record { session_id = id; kind = attached; payload = note } ∷ m.events;
    } in
    rw
      (
        after_return,
        owned_session-quiet owner_id id m s e mine,
        attach_session,
        if_open-open s (quiet m) still,
        is_id,
        cancel-pending id info (quiet m) due,
        insert_attachment-quiet attachment_id now req cancelled,
        create_event-quiet id attached note written,
        note_return,
        is_id,
        update_status-quiet id Sessions.active none now told s
            (find-create_attachment id attachment_id now req m s e),
        create_event-quiet id reattached (reattached_by attachment_id)
            (record told { store = with_status id Sessions.active none now told.store }),
      )
      (refl, refl, refl)

expire-free :
    (id owner_id later : ℕ) (m : Manager)
    → detach_state id m ≡ none
    → expire_detach_close id owner_id later m ≡ (ok tt, m)
unfolding expire_detach_close after
expire-free id owner_id later m e = rw (e, expire_detach_close) refl

no_close-close_of : (o : Option LiveRuntime) → close_of (map_live no_close o) ≡ none
unfolding close_of map_live no_close
no_close-close_of none = refl
no_close-close_of (some l) = refl

-- The owner attaches to an open session whose close is pending, and no call of the repositories
-- fails: no close is pending any more, the row is active again, and the timer, should it still
-- fire, changes nothing.
pub return_cancels :
    (owner_id id attachment_id now later : ℕ) (client_info remote_addr : Option (List ℕ))
    (info : DetachInfo) (m : Manager) (s : TerminalSession)
    → find id m.store ≡ some s
    → s.id ≡ id
    → s.owner_id ≡ owner_id
    → is_closed s.status ≡ false
    → detach_state id (quiet m) ≡ some info
    → (detach_state id
          (after_return attachment_id now (request owner_id id client_info remote_addr) m)
        ≡ none)
      × (find id
            (after_return attachment_id now (request owner_id id client_info remote_addr) m).store
          ≡ some (mark Sessions.active none now s))
      × (expire_detach_close id owner_id later
            (after_return attachment_id now (request owner_id id client_info remote_addr) m)
          ≡ (ok tt, after_return attachment_id now (request owner_id id client_info remote_addr) m))
unfolding detach_state
return_cancels owner_id id attachment_id now later client_info remote_addr info m s e is_id mine
      still due =
    let req = request owner_id id client_info remote_addr in
    let (store, runtimes, faults) =
      attach_session-Returned owner_id id attachment_id now client_info remote_addr info m s e is_id
        mine still due in
    let free =
      ap close_of (view-change id no_close m (after_return attachment_id now req m) runtimes)
      ∙ no_close-close_of (runtime_view id m) in
    (
      free,
      ap (find id) store
          ∙ find-with_status id Sessions.active none now _ s
              (find-create_attachment id attachment_id now req m s e),
      expire-free id owner_id later (after_return attachment_id now req m) free,
    )
