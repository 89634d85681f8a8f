-- ===== src/Corpus.antt =====
-- The tables of recordings: the types of crates/relayterm-core/src/terminal_recording.rs and the
-- statements of crates/relayterm-db/src/repositories/terminal_recording.rs.
-- A statement fails when `faults` says so, and an empty list stands for no more failures. A
-- transaction that ends in an error leaves the tables as they were. Ids are numbers, times are
-- microseconds, and the tags for encryption and compression have one value each and are left out.
pub mod Purge
pub mod Listing
pub mod Metadata
pub mod Outcome
pub mod Purged
pub mod Deleted
pub mod Reads
use relay_term.Prelude.{
  ℕ, ◌+◌, ◌*◌, ◌-◌, ◌^◌, min, max, Bool, true, false, ◌&&◌, ◌||◌, Option, none, some, List, [], ◌∷◌,
  ◌++◌, map, if◌then◌else◌, ltb, leb, ◌==◌, keep_if, take, length, ℕ_discrete,
}
use relay_term.Prelude.Assoc.{get}
use relay_term.Sessions.{TerminalSession}
use relay_term.Recording.{MarkerKind, MarkerPayload}

pub record TerminalRecordingChunk : Type 0 where
  pub id : ℕ
  pub terminal_session_id : ℕ
  pub seq_start : ℕ
  pub seq_end : ℕ
  pub byte_len : ℕ
  pub payload : List ℕ
  pub created_at : ℕ

pub record TerminalRecordingMarker : Type 0 where
  pub id : ℕ
  pub terminal_session_id : ℕ
  pub kind : MarkerKind
  pub seq : ℕ
  pub payload : MarkerPayload
  pub created_at : ℕ

-- The payload of the audit event `recording_purged`.
pub record PurgeAudit : Type 0 where
  pub target_id : ℕ
  pub chunk_count : ℕ
  pub marker_count : ℕ
  pub bytes_purged : ℕ
  pub retention_days : ℕ
  pub closed_at : ℕ
  pub purged_at : ℕ

pub record Tables : Type 0 where
  pub sessions : List (ℕ × TerminalSession)
  pub chunks : List TerminalRecordingChunk
  pub markers : List TerminalRecordingMarker
  pub audits : List PurgeAudit

pub record Db : Type 0 where
  pub tables : Tables
  pub faults : List Bool

pub data RepositoryError : Type 0 where
  not_found conflict validation database : RepositoryError

pub data Result (A : Type 0) : Type 0 where
  ok : A → Result A
  err : RepositoryError → Result A

abbrev pub M : Type 0 → Type 0
M A = Db → Result A × Db

unfoldable pub after : {A B : Type 0} → Result A → (A → M B) → M B
after (ok a) f db = f a db
after (err e) f db = (err e, db)

infixl 5 ◌>>=◌ ◌>>◌
abbrev pub ◌>>=◌ : {A B : Type 0} → M A → (A → M B) → M B
◌>>=◌ c f db = after (c db).0 f (c db).1

abbrev pub ◌>>◌ : {B : Type 0} → M (Unit {0}) → M B → M B
◌>>◌ c d = c >>= λ _. d

abbrev pub pure : {A : Type 0} → A → M A
pure a db = (ok a, db)

abbrev pub fail : {A : Type 0} → RepositoryError → M A
fail e db = (err e, db)

unfoldable pub next_fault : List Bool → Bool
next_fault [] = false
next_fault (f ∷ fs) = f

unfoldable pub later_faults : List Bool → List Bool
later_faults [] = []
later_faults (f ∷ fs) = fs

-- One statement: it fails, or answers and changes the tables.
unfoldable pub statement : {A : Type 0} → (Tables → A × Tables) → M A
statement f db =
    if next_fault db.faults
    then (err database, record db { faults = later_faults db.faults })
    else (ok (f db.tables).0, record { tables = (f db.tables).1; faults = later_faults db.faults })

abbrev pub select : {A : Type 0} → (Tables → A) → M A
select f = statement (λ t. (f t, t))

abbrev pub execute : (Tables → Tables) → M (Unit {0})
execute f = statement (λ t. (tt, f t))

-- What stands in the tables when the transaction has ended.
unfoldable pub rolled_back : {A : Type 0} → Tables → Result A → Db → Db
rolled_back t (ok a) db = db
rolled_back t (err e) db = record db { tables = t }

unfoldable pub transaction : {A : Type 0} → M A → M A
transaction c db = ((c db).0, rolled_back db.tables (c db).0 (c db).1)

abbrev pub i32_max : ℕ
i32_max = 2 ^ 31 - 1

abbrev pub day : ℕ
day = 86400 * 10 ^ 6

-- `closed_at IS NOT NULL AND closed_at + make_interval(days => days) <= now`.
unfoldable pub expired_at : ℕ → ℕ → Option ℕ → Option ℕ
expired_at days now none = none
expired_at days now (some closed_at) =
    if leb (closed_at + days * day) now then some closed_at else none

unfoldable pub expired_row : ℕ → ℕ → Option TerminalSession → Option ℕ
expired_row days now none = none
expired_row days now (some row) = expired_at days now row.closed_at

unfoldable pub expired : ℕ → ℕ → ℕ → Tables → Option ℕ
expired days now id t = expired_row days now (get ℕ_discrete id t.sessions)

abbrev pub chunks_of : ℕ → List TerminalRecordingChunk → List TerminalRecordingChunk
chunks_of id chunks = keep_if (λ c. c.terminal_session_id == id) chunks

abbrev pub markers_of : ℕ → List TerminalRecordingMarker → List TerminalRecordingMarker
markers_of id markers = keep_if (λ m. m.terminal_session_id == id) markers

unfoldable pub sum_bytes : List TerminalRecordingChunk → ℕ
sum_bytes [] = 0
sum_bytes (c ∷ cs) = c.byte_len + sum_bytes cs
