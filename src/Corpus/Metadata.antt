-- ===== src/Corpus/Metadata.antt =====
-- `get_metadata` and the two inserts, crates/relayterm-db/src/repositories/terminal_recording.rs. The id
-- of a new row and the time of the insert are arguments; so is the result of the table's constraints,
-- which `faults` of the statement stand for.
use relay_term.Prelude.{
  ℕ, min, max, Bool, ◌||◌, ltb, Option, none, some, List, [], ◌∷◌, ◌++◌, map, length,
}
use relay_term.Recording.{MarkerKind, MarkerPayload}
use relay_term.Corpus.{
  TerminalRecordingChunk, TerminalRecordingMarker, M, ◌>>=◌, pure, select, statement, chunks_of,
  markers_of,
}

pub record TerminalRecordingMetadata : Type 0 where
  pub terminal_session_id : ℕ
  pub chunk_count : ℕ
  pub marker_count : ℕ
  pub first_seq : Option ℕ
  pub last_seq : Option ℕ
  pub first_recorded_at : Option ℕ
  pub last_recorded_at : Option ℕ

unfoldable pub has_recording : TerminalRecordingMetadata → Bool
has_recording m = ltb 0 m.chunk_count || ltb 0 m.marker_count

unfoldable pub min_opt : Option ℕ → Option ℕ → Option ℕ
min_opt (some x) (some y) = some (min x y)
min_opt (some x) none = some x
min_opt none (some x) = some x
min_opt none none = none

unfoldable pub max_opt : Option ℕ → Option ℕ → Option ℕ
max_opt (some x) (some y) = some (max x y)
max_opt (some x) none = some x
max_opt none (some x) = some x
max_opt none none = none

-- `MIN` and `MAX` of a column.
unfoldable pub min_of : List ℕ → Option ℕ
min_of [] = none
min_of (x ∷ xs) = min_opt (some x) (min_of xs)

unfoldable pub max_of : List ℕ → Option ℕ
max_of [] = none
max_of (x ∷ xs) = max_opt (some x) (max_of xs)

unfoldable pub get_metadata : ℕ → M TerminalRecordingMetadata
get_metadata id = do
  chunks ← select (λ t. chunks_of id t.chunks)
  markers ← select (λ t. markers_of id t.markers)
  pure (record {
    terminal_session_id = id;
    chunk_count = length chunks;
    marker_count = length markers;
    first_seq = min_of (map (λ c. c.seq_start) chunks);
    last_seq = max_of (map (λ c. c.seq_end) chunks);
    first_recorded_at =
        min_opt (min_of (map (λ c. c.created_at) chunks))
          (min_of (map (λ m. m.created_at) markers));
    last_recorded_at =
        max_opt (max_of (map (λ c. c.created_at) chunks))
          (max_of (map (λ m. m.created_at) markers));
  })

pub record CreateTerminalRecordingChunk : Type 0 where
  pub terminal_session_id : ℕ
  pub seq_start : ℕ
  pub seq_end : ℕ
  pub byte_len : ℕ
  pub payload : List ℕ

abbrev chunk_row : ℕ → ℕ → CreateTerminalRecordingChunk → TerminalRecordingChunk
chunk_row id now input = record {
  id = id;
  terminal_session_id = input.terminal_session_id;
  seq_start = input.seq_start;
  seq_end = input.seq_end;
  byte_len = input.byte_len;
  payload = input.payload;
  created_at = now;
}

unfoldable pub append_chunk : ℕ → ℕ → CreateTerminalRecordingChunk → M TerminalRecordingChunk
append_chunk id now input =
    statement
      (λ t. (chunk_row id now input, record t { chunks = t.chunks ++ chunk_row id now input ∷ [] }))

pub record CreateTerminalRecordingMarker : Type 0 where
  pub terminal_session_id : ℕ
  pub kind : MarkerKind
  pub seq : ℕ
  pub payload : MarkerPayload

abbrev marker_row : ℕ → ℕ → CreateTerminalRecordingMarker → TerminalRecordingMarker
marker_row id now input = record {
  id = id;
  terminal_session_id = input.terminal_session_id;
  kind = input.kind;
  seq = input.seq;
  payload = input.payload;
  created_at = now;
}

unfoldable pub append_marker : ℕ → ℕ → CreateTerminalRecordingMarker → M TerminalRecordingMarker
append_marker id now input = statement (λ t.
    (marker_row id now input, record t { markers = t.markers ++ marker_row id now input ∷ [] }))
