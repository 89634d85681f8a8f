-- ===== src/Sessions.antt =====
-- The tables of terminal sessions and their attachments: the types of
-- crates/relayterm-core/src/terminal_session.rs and the statements of
-- crates/relayterm-db/src/repositories/terminal_session.rs, a table being an association list.
-- Ids are numbers (UUIDs in the source, drawn at random, and here an argument); times are numbers.
pub mod Rows
pub mod Reconcile
pub mod Last
pub mod Orphans
pub mod Swept
pub mod Startup
mod Tests
use relay_term.Prelude.{
  ℕ, Bool, true, false, not, Option, none, some, List, [], ◌∷◌, ◌++◌, map, if◌then◌else◌, ◌==◌,
  keep_if, ℕ_discrete,
}
use relay_term.Prelude.Assoc.{get, insert, modify}

pub data TerminalSessionStatus : Type 0 where
  starting active detached closed : TerminalSessionStatus

unfoldable pub is_closed : TerminalSessionStatus → Bool
is_closed starting = false
is_closed active = false
is_closed detached = false
is_closed closed = true

pub record TerminalSession : Type 0 where
  pub id : ℕ
  pub owner_id : ℕ
  pub server_profile_id : ℕ
  pub status : TerminalSessionStatus
  pub cols : ℕ
  pub rows : ℕ
  pub created_at : ℕ
  pub last_seen_at : ℕ
  pub closed_at : Option ℕ

pub record TerminalSessionAttachment : Type 0 where
  pub id : ℕ
  pub session_id : ℕ
  pub attached_at : ℕ
  pub detached_at : Option ℕ
  pub client_info : Option (List ℕ)
  pub remote_addr : Option (List ℕ)
  pub last_seen_seq : Option ℕ

pub record Store : Type 0 where
  pub sessions : List (ℕ × TerminalSession)
  pub attachments : List (ℕ × TerminalSessionAttachment)

abbrev pub empty_store : Store
empty_store = record { sessions = []; attachments = [] }

pub record CreateTerminalSession : Type 0 where
  pub owner_id : ℕ
  pub server_profile_id : ℕ
  pub status : TerminalSessionStatus
  pub cols : ℕ
  pub rows : ℕ

abbrev pub session_row : ℕ → ℕ → CreateTerminalSession → TerminalSession
session_row id now input = record {
  id = id;
  owner_id = input.owner_id;
  server_profile_id = input.server_profile_id;
  status = input.status;
  cols = input.cols;
  rows = input.rows;
  created_at = now;
  last_seen_at = now;
  closed_at = none;
}

unfoldable pub create : ℕ → ℕ → CreateTerminalSession → Store → Store
create id now input s = record s {
  sessions = insert ℕ_discrete id (session_row id now input) s.sessions;
}

unfoldable pub find : ℕ → Store → Option TerminalSession
find id s = get ℕ_discrete id s.sessions

-- `UPDATE … SET status, closed_at, last_seen_at`; it does not look at the old status.
unfoldable pub mark : TerminalSessionStatus → Option ℕ → ℕ → TerminalSession → TerminalSession
mark status closed_at now row = record row {
  status = status;
  closed_at = closed_at;
  last_seen_at = now;
}

-- No row is the repository's `NotFound`.
unfoldable pub set_status : ℕ → TerminalSessionStatus → Option ℕ → ℕ → Store → Option Store
set_status id status closed_at now s = elim (get ℕ_discrete id s.sessions) [
  | none ↦ none
  | some row ↦
      some (record s { sessions = modify ℕ_discrete id (mark status closed_at now) s.sessions })
]

unfoldable pub create_attachment : ℕ → ℕ → ℕ → Option (List ℕ) → Option (List ℕ) → Store → Store
create_attachment id now session_id client_info remote_addr s = record s {
  attachments =
      insert ℕ_discrete id
        (record {
          id = id;
          session_id = session_id;
          attached_at = now;
          detached_at = none;
          client_info = client_info;
          remote_addr = remote_addr;
          last_seen_seq = none;
        })
        s.attachments;
}

unfoldable pub find_attachment : ℕ → Store → Option TerminalSessionAttachment
find_attachment id s = get ℕ_discrete id s.attachments

-- SQL's `COALESCE` of two values.
unfoldable pub coalesce : Option ℕ → Option ℕ → Option ℕ
coalesce none new_value = new_value
coalesce (some old) new_value = some old

unfoldable pub detach_row : ℕ → Option ℕ → TerminalSessionAttachment → TerminalSessionAttachment
detach_row now last_seen_seq a = record a {
  detached_at = coalesce a.detached_at (some now);
  last_seen_seq = coalesce a.last_seen_seq last_seen_seq;
}

unfoldable pub mark_attachment_detached : ℕ → ℕ → Option ℕ → Store → Option Store
mark_attachment_detached id now last_seen_seq s = elim (get ℕ_discrete id s.attachments) [
  | none ↦ none
  | some row ↦
      some (record s {
        attachments = modify ℕ_discrete id (detach_row now last_seen_seq) s.attachments;
      })
]
