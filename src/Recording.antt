-- ===== src/Recording.antt =====
-- The recording writer of one session, crates/relayterm-terminal/src/recording.rs, with the marker
-- kinds of crates/relayterm-core/src/terminal_recording.rs.
-- A byte is a number that is only moved. The repository is a parameter: `Accepts` says of each row,
-- given all that was tried before, whether it is stored. The log keeps the newest attempt first.
-- The encryption and compression tags of a chunk have one value each and are left out, and so is the
-- deadline after which `shutdown` aborts the task.
pub mod Task
pub mod Covers
pub mod Holds
pub mod Steps
pub mod Producer
pub mod Queue
pub mod Accounts
pub mod Shutdown
pub mod Bytes
pub mod Stored
pub mod Sizes
mod Tests
use relay_term.Prelude.{
  ℕ, suc, ◌+◌, ◌^◌, max, min, Bool, true, false, ◌&&◌, Option, none, some, List, [], ◌∷◌, ◌++◌, ltb,
  leb, if◌then◌else◌, length, saturating_add,
}

pub record RecordingWriterConfig : Type 0 where
  pub chunk_target_bytes : ℕ
  pub chunk_hard_cap_bytes : ℕ

abbrev pub default_writer_config : RecordingWriterConfig
default_writer_config = record { chunk_target_bytes = 2 ^ 16; chunk_hard_cap_bytes = 2 ^ 21 }

abbrev pub queue_capacity : ℕ
queue_capacity = 256

pub data GapReason : Type 0 where
  writer_overflow writer_error frame_oversized : GapReason

-- The sequence numbers from `from_seq` to `to_seq`, both included.
pub record PendingGap : Type 0 where
  pub from_seq : ℕ
  pub to_seq : ℕ
  pub reason : GapReason

pub data MarkerKind : Type 0 where
  started attached detached reattached resized closed replay_gap : MarkerKind

unfoldable pub allows_seq_zero : MarkerKind → Bool
allows_seq_zero started = true
allows_seq_zero attached = false
allows_seq_zero detached = false
allows_seq_zero reattached = false
allows_seq_zero resized = false
allows_seq_zero closed = false
allows_seq_zero replay_gap = false

pub data CloseReason : Type 0 where
  session_close writer_dropped : CloseReason

-- The JSON of a marker: the caller's own text, or one that this file writes.
pub data MarkerPayload : Type 0 where
  empty_object : MarkerPayload
  given : List ℕ → MarkerPayload
  gap_range : ℕ → ℕ → GapReason → MarkerPayload
  close_reason : CloseReason → MarkerPayload

pub record ChunkRow : Type 0 where
  pub seq_start : ℕ
  pub seq_end : ℕ
  pub byte_len : ℕ
  pub payload : List ℕ

pub record MarkerRow : Type 0 where
  pub kind : MarkerKind
  pub seq : ℕ
  pub payload : MarkerPayload

pub data Row : Type 0 where
  chunk : ChunkRow → Row
  marker : MarkerRow → Row

-- A row handed to the repository, and whether it was stored.
pub record Attempt : Type 0 where
  pub row : Row
  pub stored : Bool

abbrev pub Accepts : Type 0
Accepts = List Attempt → Row → Bool

unfoldable pub attempt : Accepts → Row → List Attempt → List Attempt
attempt accepts row log = record { row = row; stored = accepts log row } ∷ log

unfoldable pub write_marker : Accepts → MarkerKind → ℕ → MarkerPayload → List Attempt → List Attempt
write_marker accepts kind seq payload log =
    attempt accepts (marker (record { kind = kind; seq = seq; payload = payload })) log

-- Is a number in the range of `i64`?
unfoldable pub fits_i64 : ℕ → Bool
fits_i64 n = ltb n (2 ^ 63)

unfoldable pub write_replay_gap : Accepts → PendingGap → List Attempt → List Attempt
write_replay_gap accepts gap log =
    if fits_i64 gap.from_seq && fits_i64 gap.to_seq
    then write_marker accepts replay_gap (max gap.to_seq 1)
        (gap_range gap.from_seq gap.to_seq gap.reason) log
    else log

pub record ChunkBatch : Type 0 where
  pub seq_start : ℕ
  pub seq_end : ℕ
  pub payload : List ℕ

abbrev pub open_batch : ℕ → List ℕ → ChunkBatch
open_batch seq bytes = record { seq_start = seq; seq_end = seq; payload = bytes }

abbrev pub append : ChunkBatch → ℕ → List ℕ → ChunkBatch
append b seq bytes = record b { seq_end = seq; payload = b.payload ++ bytes }

unfoldable pub would_overshoot_hard_cap : ChunkBatch → ℕ → ℕ → Bool
would_overshoot_hard_cap b frame_len hard_cap =
    ltb hard_cap (saturating_add (length b.payload) frame_len)

-- Is there something to store, in the ranges of the row's columns?
unfoldable pub storable : ChunkBatch → Bool
storable b =
    ltb 0 (length b.payload)
    && ltb (length b.payload) (2 ^ 31)
    && fits_i64 b.seq_start
    && fits_i64 b.seq_end

abbrev pub chunk_of : ChunkBatch → Row
chunk_of b = chunk (record {
  seq_start = b.seq_start;
  seq_end = b.seq_end;
  byte_len = length b.payload;
  payload = b.payload;
})

-- A chunk that the repository refuses leaves a gap marker.
unfoldable pub append_chunk : Accepts → ChunkBatch → List Attempt → List Attempt
append_chunk accepts b log =
    if accepts log (chunk_of b)
    then attempt accepts (chunk_of b) log
    else write_replay_gap accepts
        (record { from_seq = b.seq_start; to_seq = b.seq_end; reason = writer_error })
        (attempt accepts (chunk_of b) log)

unfoldable pub flush_chunk : Accepts → Option ChunkBatch → List Attempt → List Attempt
flush_chunk accepts none log = log
flush_chunk accepts (some b) log = if storable b then append_chunk accepts b log else log

pub data Command : Type 0 where
  output : ℕ → List ℕ → Option PendingGap → Command
  mark : MarkerKind → ℕ → MarkerPayload → Command
  shutdown : ℕ → Command

-- The state of the task and, for the repository's answers, all that it tried to store.
pub record TaskState : Type 0 where
  pub batch : Option ChunkBatch
  pub highest_seq_observed : ℕ
  pub log : List Attempt

abbrev pub idle_task : TaskState
idle_task = record { batch = none; highest_seq_observed = 0; log = [] }
