-- ===== src/Recording/Task.antt =====
-- The loop of the writer's task, `writer_task` of crates/relayterm-terminal/src/recording.rs.
-- The drain at a shutdown repeats the loop's own cases, so both use the same functions.
use relay_term.Prelude.{
  ℕ, ◌-◌, ◌^◌, min, max, Option, none, some, List, [], ◌∷◌, ltb, leb, if◌then◌else◌, length,
}
use relay_term.Recording.{
  RecordingWriterConfig, PendingGap, frame_oversized, MarkerKind, closed, MarkerPayload,
  close_reason, session_close, writer_dropped, Accepts, write_marker, write_replay_gap, ChunkBatch,
  open_batch, append, would_overshoot_hard_cap, flush_chunk, Command, output, mark, shutdown,
  TaskState,
}

-- `flush_chunk(open.take())`.
unfoldable pub flush_open : Accepts → TaskState → TaskState
flush_open accepts t = record t { batch = none; log = flush_chunk accepts t.batch t.log }

unfoldable pub write_gap : Accepts → PendingGap → TaskState → TaskState
write_gap accepts gap t = record t { log = write_replay_gap accepts gap t.log }

unfoldable pub gap_first : Accepts → Option PendingGap → TaskState → TaskState
gap_first accepts none t = t
gap_first accepts (some gap) t = write_gap accepts gap (flush_open accepts t)

unfoldable pub observe : ℕ → TaskState → TaskState
observe seq t = record t { highest_seq_observed = max t.highest_seq_observed seq }

-- A frame joins the open batch, or starts one.
unfoldable pub add_frame :
    RecordingWriterConfig → Accepts → ℕ → List ℕ → Option ChunkBatch → TaskState → TaskState
add_frame c accepts seq bytes none t = record t { batch = some (open_batch seq bytes) }
add_frame c accepts seq bytes (some b) t =
    if would_overshoot_hard_cap b (length bytes) c.chunk_hard_cap_bytes
    then record (flush_open accepts t) { batch = some (open_batch seq bytes) }
    else record t { batch = some (append b seq bytes) }

-- A batch that has reached the target is written.
unfoldable pub flush_full :
    RecordingWriterConfig → Accepts → Option ChunkBatch → TaskState → TaskState
flush_full c accepts none t = t
flush_full c accepts (some b) t =
    if leb c.chunk_target_bytes (length b.payload) then flush_open accepts t else t

unfoldable pub take_frame : RecordingWriterConfig → Accepts → ℕ → List ℕ → TaskState → TaskState
take_frame c accepts seq bytes t =
    let added = add_frame c accepts seq bytes t.batch t in flush_full c accepts added.batch added

unfoldable pub refuse_frame : Accepts → ℕ → TaskState → TaskState
refuse_frame accepts seq t =
    write_gap accepts (record { from_seq = seq; to_seq = seq; reason = frame_oversized })
      (flush_open accepts t)

unfoldable pub on_output :
    RecordingWriterConfig → Accepts → ℕ → List ℕ → Option PendingGap → TaskState → TaskState
on_output c accepts seq bytes gap_before t =
    let ready = gap_first accepts gap_before t in
    if ltb c.chunk_hard_cap_bytes (length bytes)
    then observe seq (refuse_frame accepts seq ready)
    else observe seq (take_frame c accepts seq bytes ready)

unfoldable pub put_marker : Accepts → MarkerKind → ℕ → MarkerPayload → TaskState → TaskState
put_marker accepts kind seq payload t =
    let flushed = flush_open accepts t in
    record flushed { log = write_marker accepts kind seq payload flushed.log }

unfoldable pub on_marker : Accepts → MarkerKind → ℕ → MarkerPayload → TaskState → TaskState
on_marker accepts kind seq payload t = observe seq (put_marker accepts kind seq payload t)

-- What is still in the queue when a shutdown is received. A second shutdown is only acknowledged.
unfoldable pub drain : RecordingWriterConfig → Accepts → List Command → TaskState → TaskState
drain c accepts [] t = t
drain c accepts (output seq bytes gap_before ∷ rest) t =
    drain c accepts rest (on_output c accepts seq bytes gap_before t)
drain c accepts (mark kind seq payload ∷ rest) t =
    drain c accepts rest (put_marker accepts kind seq payload t)
drain c accepts (shutdown last_seq ∷ rest) t = drain c accepts rest t

unfoldable pub on_shutdown :
    RecordingWriterConfig → Accepts → ℕ → List Command → TaskState → TaskState
on_shutdown c accepts last_seq rest t =
    put_marker accepts closed (max last_seq 1) (close_reason session_close) (drain c accepts rest t)

-- Every sender is gone and no shutdown was received; the number is clamped to `i64`.
unfoldable pub on_senders_dropped : Accepts → TaskState → TaskState
on_senders_dropped accepts t =
    put_marker accepts closed (min (max t.highest_seq_observed 1) (2 ^ 63 - 1))
      (close_reason writer_dropped) t

-- The task on a queue to which nothing is added any more.
unfoldable pub writer_task : RecordingWriterConfig → Accepts → List Command → TaskState → TaskState
writer_task c accepts [] t = on_senders_dropped accepts t
writer_task c accepts (output seq bytes gap_before ∷ rest) t =
    writer_task c accepts rest (on_output c accepts seq bytes gap_before t)
writer_task c accepts (mark kind seq payload ∷ rest) t =
    writer_task c accepts rest (on_marker accepts kind seq payload t)
writer_task c accepts (shutdown last_seq ∷ rest) t = on_shutdown c accepts last_seq rest t
