-- ===== src/Recording/Bytes.antt =====
-- Which bytes the recording stores, against the bytes of the frames that the task received,
-- crates/relayterm-terminal/src/recording.rs.
use relay_term.Prelude.{
  ℕ, ◌^◌, ◌≤◌, ◌<◌, ◌≡◌, refl, ap, sym, ◌∙◌, inl, inr, Bool-cases, true, ◌&&◌, Option, none, some,
  List, [], ◌∷◌, ◌++◌, append-nil, append_assoc, arith, length, ltb, leb, if◌then◌else◌,
}
use relay_term.Recording.{
  RecordingWriterConfig, PendingGap, MarkerKind, MarkerPayload, Row, chunk, marker, Attempt,
  Accepts, attempt, write_marker, fits_i64, write_replay_gap, ChunkBatch, would_overshoot_hard_cap,
  chunk_of, append_chunk, flush_chunk, Command, output, mark, shutdown, TaskState,
}
use relay_term.Recording.Task.{
  flush_open, write_gap, gap_first, observe, add_frame, flush_full, take_frame, refuse_frame,
  on_output, put_marker,
}
use relay_term.Recording.Covers.{BatchOk, storable_lem}
use relay_term.Recording.Holds.{TaskOk, gap_first-TaskOk, add_frame-TaskOk}

abbrev pub row_bytes : Row → List ℕ
row_bytes (chunk r) = r.payload
row_bytes (marker r) = []

-- The bytes in the stored chunks, oldest first.
abbrev pub stored_bytes : List Attempt → List ℕ
stored_bytes [] = []
stored_bytes (a ∷ log) = stored_bytes log ++ (if a.stored then row_bytes a.row else [])

abbrev pub batch_bytes : Option ChunkBatch → List ℕ
batch_bytes none = []
batch_bytes (some b) = b.payload

-- What is stored or will be with the next flush.
abbrev pub contents : TaskState → List ℕ
contents t = stored_bytes t.log ++ batch_bytes t.batch

-- The repository stores all rows.
abbrev pub StoresAll : Accepts → Type 0
StoresAll accepts = (log : List Attempt) (row : Row) → accepts log row ≡ true

-- A frame up to the cap is kept, one above it is left out.
abbrev pub kept : RecordingWriterConfig → List ℕ → List ℕ
kept c bytes = if ltb c.chunk_hard_cap_bytes (length bytes) then [] else bytes

-- The bytes of the frames in the queue.
abbrev pub bytes_of : RecordingWriterConfig → List Command → List ℕ
bytes_of c [] = []
bytes_of c (output seq bytes gap ∷ qs) = kept c bytes ++ bytes_of c qs
bytes_of c (mark kind seq payload ∷ qs) = bytes_of c qs
bytes_of c (shutdown last_seq ∷ qs) = bytes_of c qs

marker-bytes :
    (accepts : Accepts) (kind : MarkerKind) (seq : ℕ) (payload : MarkerPayload) (log : List Attempt)
    → stored_bytes (write_marker accepts kind seq payload log) ≡ stored_bytes log
unfolding write_marker attempt
marker-bytes accepts kind seq payload log =
    elim (Bool-cases
      (accepts log (marker (record { kind = kind; seq = seq; payload = payload })))) [
        | inl e ↦ rw e (append-nil _)
        | inr e ↦ rw e (append-nil _)
      ]

gap-bytes :
    (accepts : Accepts) (g : PendingGap) (log : List Attempt)
    → stored_bytes (write_replay_gap accepts g log) ≡ stored_bytes log
unfolding write_replay_gap
gap-bytes accepts g log = elim (Bool-cases (fits_i64 g.from_seq && fits_i64 g.to_seq)) [
  | inl e ↦ rw e (marker-bytes accepts _ _ _ log)
  | inr e ↦ rw e refl
]

module _ (c : RecordingWriterConfig) (accepts : Accepts) (all : StoresAll accepts)
    (w : c.chunk_hard_cap_bytes < 2 ^ 31) where
  flush_chunk-bytes :
      (last : ℕ) (o : Option ChunkBatch) (log : List Attempt)
      → last < 2 ^ 63
      → BatchOk c.chunk_hard_cap_bytes last o
      → stored_bytes (flush_chunk accepts o log) ≡ stored_bytes log ++ batch_bytes o
  unfolding flush_chunk append_chunk attempt
  flush_chunk-bytes last none log v ok = sym (append-nil _)
  flush_chunk-bytes last (some b) log v ok =
      rw (storable_lem c.chunk_hard_cap_bytes last b w v ok, all log (chunk_of b)) refl

  flush_open-contents :
      (last : ℕ) (t : TaskState)
      → last < 2 ^ 63
      → TaskOk c last t
      → contents (flush_open accepts t) ≡ contents t
  unfolding flush_open
  flush_open-contents last t v ok = append-nil _ ∙ flush_chunk-bytes last t.batch t.log v ok

  gap_first-contents :
      (last : ℕ) (o : Option PendingGap) (t : TaskState)
      → last < 2 ^ 63
      → TaskOk c last t
      → contents (gap_first accepts o t) ≡ contents t
  unfolding gap_first write_gap flush_open
  gap_first-contents last none t v ok = refl
  gap_first-contents last (some g) t v ok =
      append-nil _ ∙ gap-bytes accepts g _ ∙ flush_chunk-bytes last t.batch t.log v ok

  add_frame-contents :
      (last seq : ℕ) (bytes : List ℕ) (o : Option ChunkBatch) (t : TaskState)
      → t.batch ≡ o
      → last < 2 ^ 63
      → TaskOk c last t
      → contents (add_frame c accepts seq bytes o t) ≡ contents t ++ bytes
  unfolding add_frame flush_open
  add_frame-contents last seq bytes none t e v ok = cc (e, append-nil (stored_bytes t.log))
  add_frame-contents last seq bytes (some b) t e v ok =
      elim (Bool-cases (would_overshoot_hard_cap b (length bytes) c.chunk_hard_cap_bytes)) [
        | inl over ↦ rw over (ap (λ l. l ++ bytes) (flush_chunk-bytes last t.batch t.log v ok))
        | inr under ↦ rw (under, e) (sym (append_assoc _ b.payload bytes))
      ]

  flush_full-contents :
      (last : ℕ) (o : Option ChunkBatch) (t : TaskState)
      → last < 2 ^ 63
      → TaskOk c last t
      → contents (flush_full c accepts o t) ≡ contents t
  unfolding flush_full
  flush_full-contents last none t v ok = refl
  flush_full-contents last (some b) t v ok =
      elim (Bool-cases (leb c.chunk_target_bytes (length b.payload))) [
        | inl e ↦ rw e (flush_open-contents last t v ok)
        | inr e ↦ rw e refl
      ]

  pub put_marker-contents :
      (kind : MarkerKind) (seq : ℕ) (payload : MarkerPayload) (last : ℕ) (t : TaskState)
      → last < 2 ^ 63
      → TaskOk c last t
      → contents (put_marker accepts kind seq payload t) ≡ contents t
  unfolding put_marker flush_open
  put_marker-contents kind seq payload last t v ok =
      append-nil _
      ∙ marker-bytes accepts kind seq payload _
      ∙ flush_chunk-bytes last t.batch t.log v ok

  pub on_output-contents :
      (last seq : ℕ) (bytes : List ℕ) (o : Option PendingGap) (t : TaskState)
      → seq < 2 ^ 63
      → last ≤ seq
      → 0 < length bytes
      → TaskOk c last t
      → contents (on_output c accepts seq bytes o t) ≡ contents t ++ kept c bytes
  unfolding on_output observe refuse_frame write_gap take_frame flush_open
  on_output-contents last seq bytes o t v le p ok =
      let k = gap_first-TaskOk c accepts last o t ok in
      let ready = gap_first-contents last o t (omega arith) ok in
      elim (Bool-cases (ltb c.chunk_hard_cap_bytes (length bytes))) [
        | inl big ↦
            rw (big, append-nil (contents t))
              (append-nil _
                ∙ gap-bytes accepts _ _
                ∙ flush_chunk-bytes last _ _ (omega arith) k
                ∙ ready)
        | inr small ↦ rw small (
            flush_full-contents seq _ _ v
              (add_frame-TaskOk c accepts last seq bytes _ _ le p (ground arith) w k)
            ∙ add_frame-contents last seq bytes _ _ refl (omega arith) k
            ∙ ap (λ l. l ++ bytes) ready)
      ]
