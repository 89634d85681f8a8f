-- ===== src/Manager/Access.antt =====
-- Who may do what: the handlers of crates/relayterm-terminal/src/manager.rs on a session that is not
-- there, belongs to another user, or is closed.
use relay_term.Prelude.{
  ℕ, ◌≤◌, ◌≡◌, ◌≢◌, refl, inl, inr, Bool-cases, true, false, Option, none, some, List, arith,
  if◌then◌else◌,
}
use relay_term.Sessions.{TerminalSession, find, is_closed}
use relay_term.Manager.{
  Manager, ManagerError, Result, ok, err, not_found, session_closed, repository, after, call,
  next_fault, later_faults, if_owned, owned_session, validate_dim, min_dim, max_dim,
}
use relay_term.Manager.Lifecycle.{start_live_pty, close_session, if_open}
use relay_term.Manager.Attach.{
  AttachRequest, attach_session, detach_session, detach_attachment, resize_session,
}

-- One call of a repository was made, and it changed nothing.
abbrev pub spend : Manager → Manager
spend m = record m { faults = later_faults m.faults }

-- The error, or the repository's if that call failed. Nothing else has changed.
abbrev pub denied : {A : Type 0} → ManagerError → Manager → Result A × Manager
denied e m = (err (if next_fault m.faults then repository else e), spend m)

-- No session of this owner has the id.
abbrev pub NotOwned : ℕ → ℕ → Manager → Type 0
NotOwned owner_id id m = (s : TerminalSession) → find id m.store ≡ some s → s.owner_id ≢ owner_id

-- The owner's session has the id, and is closed.
abbrev pub ClosedRow : ℕ → ℕ → Manager → Type 0
ClosedRow owner_id id m =
    (s : TerminalSession) × (find id m.store ≡ some s)
    × (s.owner_id ≡ owner_id)
    × (is_closed s.status ≡ true)

if_owned-foreign :
    (owner_id id : ℕ) (m m' : Manager) (o : Option TerminalSession)
    → NotOwned owner_id id m
    → find id m.store ≡ o
    → if_owned owner_id o m' ≡ (err not_found, m')
unfolding if_owned
if_owned-foreign owner_id id m m' none h e = refl
if_owned-foreign owner_id id m m' (some s) h e =
    let p : s.owner_id ≢ owner_id = h s e in ground arith

owned_session-foreign :
    (owner_id id : ℕ) (m : Manager)
    → NotOwned owner_id id m
    → owned_session owner_id id m ≡ denied not_found m
unfolding owned_session call after
owned_session-foreign owner_id id m h = elim (Bool-cases (next_fault m.faults)) [
  | inl e ↦ rw e refl
  | inr e ↦ rw e (if_owned-foreign owner_id id m _ (find id m.store) h refl)
]

validate_dim-ok :
    (e : ManagerError) (n : ℕ) (m : Manager)
    → min_dim ≤ n
    → n ≤ max_dim
    → validate_dim e n m ≡ (ok tt, m)
unfolding validate_dim
validate_dim-ok e n m p q = ground arith

abbrev pub request : ℕ → ℕ → Option (List ℕ) → Option (List ℕ) → AttachRequest
request owner_id id client_info remote_addr = record {
  owner_id = owner_id;
  session_id = id;
  client_info = client_info;
  remote_addr = remote_addr;
}

-- Whoever does not own a session, or names one that is not there, gets the error `NotFound` from
-- start, close, attach, detach, and resize to a size in range, or the repository's error if its
-- call fails, and the handler changes nothing.
pub foreign_denied :
    (owner_id id now : ℕ) (m : Manager)
    → NotOwned owner_id id m
    → ((handle : ℕ) → start_live_pty owner_id id handle now m ≡ denied not_found m)
      × (close_session id owner_id now m ≡ denied not_found m)
      × ((attachment_id : ℕ) (client_info remote_addr : Option (List ℕ))
          → attach_session attachment_id now (request owner_id id client_info remote_addr) m
            ≡ denied not_found m)
      × ((attachment_id : ℕ) (seen : Option ℕ)
          → detach_attachment owner_id id attachment_id seen now m ≡ denied not_found m)
      × ((cols rows : ℕ) (json : List ℕ)
          → min_dim ≤ cols
          → cols ≤ max_dim
          → min_dim ≤ rows
          → rows ≤ max_dim
          → resize_session owner_id id cols rows json m ≡ denied not_found m)
unfolding start_live_pty close_session attach_session detach_attachment detach_session
    resize_session after
foreign_denied owner_id id now m h =
    let no = owned_session-foreign owner_id id m h in
    (
      (λ handle. rw (no, start_live_pty) refl),
      rw (no, close_session) refl,
      (λ attachment_id client_info remote_addr. rw (no, attach_session) refl),
      (λ attachment_id seen. rw (no, detach_attachment, detach_session) refl),
      (λ cols rows json a b x y.
          rw (resize_session, validate_dim-ok _ cols m a b, validate_dim-ok _ rows m x y, no) refl),
    )

pub if_owned-mine :
    (owner_id : ℕ) (s : TerminalSession) (m : Manager)
    → s.owner_id ≡ owner_id
    → if_owned owner_id (some s) m ≡ (ok s, m)
unfolding if_owned
if_owned-mine owner_id s m e = ground arith

-- The row is read unless the repository fails.
pub owned_session-mine :
    (owner_id id : ℕ) (s : TerminalSession) (m : Manager)
    → find id m.store ≡ some s
    → s.owner_id ≡ owner_id
    → next_fault m.faults ≡ false
    → owned_session owner_id id m ≡ (ok s, spend m)
unfolding owned_session call after
owned_session-mine owner_id id s m f e q = rw (q, f) (if_owned-mine owner_id s (spend m) e)

owned_session-fault :
    (owner_id id : ℕ) (m : Manager)
    → next_fault m.faults ≡ true
    → owned_session owner_id id m ≡ (err repository, spend m)
unfolding owned_session call after
owned_session-fault owner_id id m q = rw q refl

if_open-closed :
    (s : TerminalSession) (m : Manager)
    → is_closed s.status ≡ true
    → if_open s m ≡ (err session_closed, m)
unfolding if_open
if_open-closed s m e = rw e refl

-- A closed session can be neither started, nor attached to, nor resized to a size in range: its
-- owner gets the error `SessionClosed`, or the repository's if its call fails, and the handler
-- changes nothing.
pub closed_refused :
    (owner_id id now : ℕ) (m : Manager)
    → ClosedRow owner_id id m
    → ((handle : ℕ) → start_live_pty owner_id id handle now m ≡ denied session_closed m)
      × ((attachment_id : ℕ) (client_info remote_addr : Option (List ℕ))
          → attach_session attachment_id now (request owner_id id client_info remote_addr) m
            ≡ denied session_closed m)
      × ((cols rows : ℕ) (json : List ℕ)
          → min_dim ≤ cols
          → cols ≤ max_dim
          → min_dim ≤ rows
          → rows ≤ max_dim
          → resize_session owner_id id cols rows json m ≡ denied session_closed m)
unfolding start_live_pty attach_session resize_session after
closed_refused owner_id id now m (s, found, mine, closed) =
    elim (Bool-cases (next_fault m.faults)) [
      | inl q ↦
          let no = owned_session-fault owner_id id m q in
          rw q (
            (λ handle. rw (no, start_live_pty) refl),
            (λ attachment_id client_info remote_addr. rw (no, attach_session) refl),
            (λ cols rows json a b x y.
                rw (resize_session, validate_dim-ok _ cols m a b, validate_dim-ok _ rows m x y, no)
                  refl),
          )
      | inr q ↦
          let mine' = owned_session-mine owner_id id s m found mine q in
          let shut = if_open-closed s (spend m) closed in
          rw q (
            (λ handle. rw (mine', shut, start_live_pty) refl),
            (λ attachment_id client_info remote_addr. rw (mine', shut, attach_session) refl),
            (λ cols rows json a b x y.
                rw
                  (
                    resize_session,
                    validate_dim-ok _ cols m a b,
                    validate_dim-ok _ rows m x y,
                    mine',
                    shut,
                  )
                  refl),
          )
    ]
