-- ===== src/Manager.antt =====
-- The terminal session manager, crates/relayterm-terminal/src/manager.rs: its state, the errors, and
-- the calls of the repositories.
-- A call of a repository can fail: `faults` says of each call to come whether it does, and an empty
-- list stands for no more failures. A handler is a function of the state, so it runs with no other
-- handler in between; the background tasks are steps of their own (`forward`, `expire_detach_close`).
pub mod Lifecycle
pub mod Attach
pub mod Pty
pub mod Access
pub mod Quiet
pub mod Reattach
pub mod Leave
pub mod Return
pub mod Close
pub mod Replayed
pub mod Registry
pub mod Counts
pub mod Lowered
pub mod Started
mod Tests
use relay_term.Prelude.{
  ℕ, Bool, true, false, not, ◌&&◌, Option, none, some, List, [], ◌∷◌, if◌then◌else◌, ltb, leb, ◌==◌,
  is_some, ℕ_discrete,
}
use relay_term.Prelude.Assoc.{get, modify, count_if}
use relay_term.Sessions.{
  TerminalSession, TerminalSessionAttachment, TerminalSessionStatus, Store, is_closed, find,
  find_attachment, set_status, mark_attachment_detached,
}
use relay_term.Replay.{ReplayBuffer}
use relay_term.Recording.{RecordingWriterConfig, Accepts}
use relay_term.Recording.Producer.{Recorder}

pub data RuntimeSessionStatus : Type 0 where
  starting live ended : RuntimeSessionStatus

pub record TerminalSessionRuntime : Type 0 where
  pub id : ℕ
  pub owner_id : ℕ
  pub server_profile_id : ℕ
  pub status : RuntimeSessionStatus
  pub created_at : ℕ
  pub cols : ℕ
  pub rows : ℕ

pub record DetachInfo : Type 0 where
  pub detached_at : ℕ
  pub expires_at : ℕ

-- The handle of the PTY is a name; `recording` is `none` for the disabled writer.
pub record LiveRuntime : Type 0 where
  pub handle : ℕ
  pub replay : ReplayBuffer
  pub detach_close : Option DetachInfo
  pub recording : Option Recorder
  pub last_seq : ℕ

pub record RuntimeEntry : Type 0 where
  pub snapshot : TerminalSessionRuntime
  pub live : Option LiveRuntime
  pub next_seq : ℕ

pub record AttachmentRuntime : Type 0 where
  pub id : ℕ
  pub session_id : ℕ
  pub owner_id : ℕ
  pub attached_at : ℕ
  pub client_info : Option (List ℕ)
  pub remote_addr : Option (List ℕ)

pub data ClosedReason : Type 0 where
  remote_eof local_close transport_error : ClosedReason

-- The JSON of a session event.
pub data EventPayload : Type 0 where
  created_stub : ℕ → ℕ → EventPayload
  attached_by : ℕ → Option (List ℕ) → Option (List ℕ) → Bool → EventPayload
  reattached_by : ℕ → EventPayload
  detached_by : ℕ → Option ℕ → EventPayload
  resized_to : ℕ → ℕ → EventPayload
  client_requested : EventPayload
  ssh_start_failed : List ℕ → EventPayload
  pty_teardown : ClosedReason → EventPayload

pub data SessionEventKind : Type 0 where
  created attached detached reattached resized replay_started replay_completed closed :
      SessionEventKind

pub record SessionEvent : Type 0 where
  pub session_id : ℕ
  pub kind : SessionEventKind
  pub payload : EventPayload

-- What the manager is built with. `recording` holds the writer's settings and the repository's answers.
pub record Settings : Type 0 where
  pub detach_ttl : ℕ
  pub max_live_pty_per_user : ℕ
  pub max_starting_per_user : ℕ
  pub max_live_pty_per_deployment : ℕ
  pub recording : Option (RecordingWriterConfig × Accepts)

-- The database, the two registries, the ended recordings and the events, newest first.
pub record Manager : Type 0 where
  pub settings : Settings
  pub store : Store
  pub events : List SessionEvent
  pub runtimes : List (ℕ × RuntimeEntry)
  pub attachments : List (ℕ × AttachmentRuntime)
  pub ended_recordings : List (ℕ × Recorder)
  pub faults : List Bool

pub data ManagerError : Type 0 where
  invalid_cols invalid_rows not_found session_closed pty_not_live pty_start repository :
      ManagerError

pub data Result (A : Type 0) : Type 0 where
  ok : A → Result A
  err : ManagerError → Result A

abbrev pub M : Type 0 → Type 0
M A = Manager → Result A × Manager

unfoldable pub after : {A B : Type 0} → Result A → (A → M B) → M B
after (ok a) f m = f a m
after (err e) f m = (err e, m)

infixl 5 ◌>>=◌ ◌>>◌
abbrev pub ◌>>=◌ : {A B : Type 0} → M A → (A → M B) → M B
◌>>=◌ c f m = after (c m).0 f (c m).1

abbrev pub ◌>>◌ : {B : Type 0} → M (Unit {0}) → M B → M B
◌>>◌ c d = c >>= λ _. d

abbrev pub pure : {A : Type 0} → A → M A
pure a m = (ok a, m)

abbrev pub fail : {A : Type 0} → ManagerError → M A
fail e m = (err e, m)

-- A change of the registries, which cannot fail.
abbrev pub update : (Manager → Manager) → M (Unit {0})
update f m = (ok tt, f m)

abbrev pub read : {A : Type 0} → (Manager → A) → M A
read f m = (ok (f m), m)

-- A call whose error is logged and dropped.
abbrev pub ignore_error : {A : Type 0} → M A → M (Unit {0})
ignore_error c m = (ok tt, (c m).1)

unfoldable pub next_fault : List Bool → Bool
next_fault [] = false
next_fault (f ∷ rest) = f

unfoldable pub later_faults : List Bool → List Bool
later_faults [] = []
later_faults (f ∷ rest) = rest

-- A call of a repository, which may fail before it has an effect.
unfoldable pub call : {A : Type 0} → M A → M A
call c m =
    let rest = record m { faults = later_faults m.faults } in
    if next_fault m.faults then (err repository, rest) else c rest

-- `filter(|s| s.owner_id == owner_id).ok_or(NotFound)`.
unfoldable pub if_owned : ℕ → Option TerminalSession → M TerminalSession
if_owned owner_id none = fail not_found
if_owned owner_id (some s) = if s.owner_id == owner_id then pure s else fail not_found

unfoldable pub owned_session : ℕ → ℕ → M TerminalSession
owned_session owner_id id = do found ← call (read (λ m. find id m.store)); if_owned owner_id found

unfoldable pub if_of_session : ℕ → Option TerminalSessionAttachment → M TerminalSessionAttachment
if_of_session session_id none = fail not_found
if_of_session session_id (some a) = if a.session_id == session_id then pure a else fail not_found

unfoldable pub attachment_of : ℕ → ℕ → M TerminalSessionAttachment
attachment_of session_id id = do
  found ← call (read (λ m. find_attachment id m.store))
  if_of_session session_id found

-- A statement that finds no row is the repository's error.
unfoldable pub put_store : Option Store → M (Unit {0})
put_store none = fail repository
put_store (some s) = update (λ m. record m { store = s })

unfoldable pub update_status : ℕ → TerminalSessionStatus → Option ℕ → ℕ → M (Unit {0})
update_status id status closed_at now =
    call (λ m. put_store (set_status id status closed_at now m.store) m)

unfoldable pub update_detached : ℕ → ℕ → Option ℕ → M (Unit {0})
update_detached id now last_seen_seq =
    call (λ m. put_store (mark_attachment_detached id now last_seen_seq m.store) m)

unfoldable pub create_event : ℕ → SessionEventKind → EventPayload → M (Unit {0})
create_event session_id kind payload = call (
    update (λ m. record m {
      events = record { session_id = session_id; kind = kind; payload = payload } ∷ m.events;
    }))

-- `runtimes.get(&id).and_then(|e| e.live.as_ref())`.
unfoldable pub live_of : Option RuntimeEntry → Option LiveRuntime
live_of none = none
live_of (some e) = e.live

unfoldable pub runtime_view : ℕ → Manager → Option LiveRuntime
runtime_view id m = live_of (get ℕ_discrete id m.runtimes)

abbrev pub min_dim : ℕ
min_dim = 1

abbrev pub max_dim : ℕ
max_dim = 4096

unfoldable pub validate_dim : ManagerError → ℕ → M (Unit {0})
validate_dim error value = if leb min_dim value && leb value max_dim then pure tt else fail error
