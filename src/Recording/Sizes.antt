-- ===== src/Recording/Sizes.antt =====
-- Every chunk that is offered to the repository has a size that its row can hold,
-- crates/relayterm-terminal/src/recording.rs.
use relay_term.Prelude.{
  ℕ, ◌^◌, ◌≤◌, ◌<◌, ◌≡◌, refl, inl, inr, Bool-cases, true, false, ◌&&◌, Option, none, some, List,
  [], ◌∷◌, All, arith, length, length-append, ltb, leb,
}
use relay_term.Recording.{
  RecordingWriterConfig, PendingGap, MarkerKind, MarkerPayload, Row, chunk, marker, Attempt,
  Accepts, attempt, write_marker, fits_i64, write_replay_gap, ChunkBatch, append,
  would_overshoot_hard_cap, storable, chunk_of, append_chunk, flush_chunk, Command, output, mark,
  shutdown, TaskState, idle_task,
}
use relay_term.Recording.Task.{
  flush_open, write_gap, gap_first, observe, add_frame, flush_full, take_frame, refuse_frame,
  on_output, put_marker, on_marker, drain, on_shutdown, on_senders_dropped, writer_task,
}

-- The row's own length is right, and it has bytes, no more than the cap and than `i32` can count.
abbrev pub Sized : ℕ → Row → Type 0
Sized limit (chunk r) =
    (r.byte_len ≡ length r.payload)
    × (0 < length r.payload)
    × (length r.payload ≤ limit)
    × (length r.payload < 2 ^ 31)
Sized limit (marker m) = Unit {0}

abbrev pub AllSized : ℕ → List Attempt → Type 0
AllSized limit log = All (λ a. Sized limit a.row) log

abbrev pub BatchSized : ℕ → Option ChunkBatch → Type 0
BatchSized limit none = Unit {0}
BatchSized limit (some b) = length b.payload ≤ limit

abbrev pub TaskSized : ℕ → TaskState → Type 0
TaskSized limit t = BatchSized limit t.batch × AllSized limit t.log

write_replay_gap-AllSized :
    (limit : ℕ) (accepts : Accepts) (g : PendingGap) (log : List Attempt)
    → AllSized limit log
    → AllSized limit (write_replay_gap accepts g log)
unfolding write_replay_gap write_marker attempt
write_replay_gap-AllSized limit accepts g log h =
    elim (Bool-cases (fits_i64 g.from_seq && fits_i64 g.to_seq)) [
      | inl e ↦ rw e (tt, h)
      | inr e ↦ rw e h
    ]

storable-Sized :
    (limit : ℕ) (b : ChunkBatch)
    → length b.payload ≤ limit
    → storable b ≡ true
    → Sized limit (chunk_of b)
unfolding storable
storable-Sized limit b h e = (refl, ground arith, h, ground arith)

flush_chunk-AllSized :
    (limit : ℕ) (accepts : Accepts) (o : Option ChunkBatch) (log : List Attempt)
    → BatchSized limit o
    → AllSized limit log
    → AllSized limit (flush_chunk accepts o log)
unfolding flush_chunk append_chunk attempt
flush_chunk-AllSized limit accepts none log b h = h
flush_chunk-AllSized limit accepts (some b) log k h = elim (Bool-cases (storable b)) [
  | inr e ↦ rw e h
  | inl e ↦ rw e (elim (Bool-cases (accepts log (chunk_of b))) [
    | inl yes_stored ↦ rw yes_stored (storable-Sized limit b k e, h)
    | inr refused ↦
        rw refused (write_replay_gap-AllSized limit accepts _ _ (storable-Sized limit b k e, h))
  ])
]

module _ (c : RecordingWriterConfig) (accepts : Accepts) (w : c.chunk_hard_cap_bytes < 2 ^ 32) where
  abbrev limit : ℕ
  limit = c.chunk_hard_cap_bytes

  flush_open-TaskSized :
      (t : TaskState) → TaskSized limit t → TaskSized limit (flush_open accepts t)
  unfolding flush_open
  flush_open-TaskSized t h = (tt, flush_chunk-AllSized limit accepts t.batch t.log h.0 h.1)

  gap_first-TaskSized :
      (o : Option PendingGap) (t : TaskState)
      → TaskSized limit t
      → TaskSized limit (gap_first accepts o t)
  unfolding gap_first write_gap
  gap_first-TaskSized none t h = h
  gap_first-TaskSized (some g) t h =
      let (a, b) = flush_open-TaskSized t h in (a, write_replay_gap-AllSized limit accepts g _ b)

  append-BatchSized :
      (b : ChunkBatch) (seq : ℕ) (bytes : List ℕ)
      → would_overshoot_hard_cap b (length bytes) limit ≡ false
      → BatchSized limit (some (append b seq bytes))
  unfolding would_overshoot_hard_cap
  append-BatchSized b seq bytes e = rw (length-append b.payload bytes) (ground arith)

  add_frame-TaskSized :
      (seq : ℕ) (bytes : List ℕ) (o : Option ChunkBatch) (t : TaskState)
      → length bytes ≤ limit
      → TaskSized limit t
      → TaskSized limit (add_frame c accepts seq bytes o t)
  unfolding add_frame
  add_frame-TaskSized seq bytes none t q h = (q, h.1)
  add_frame-TaskSized seq bytes (some b) t q h =
      elim (Bool-cases (would_overshoot_hard_cap b (length bytes) limit)) [
        | inl over ↦ rw over (q, (flush_open-TaskSized t h).1)
        | inr under ↦ rw under (append-BatchSized b seq bytes under, h.1)
      ]

  flush_full-TaskSized :
      (o : Option ChunkBatch) (t : TaskState)
      → TaskSized limit t
      → TaskSized limit (flush_full c accepts o t)
  unfolding flush_full
  flush_full-TaskSized none t h = h
  flush_full-TaskSized (some b) t h =
      elim (Bool-cases (leb c.chunk_target_bytes (length b.payload))) [
        | inl e ↦ rw e (flush_open-TaskSized t h)
        | inr e ↦ rw e h
      ]

  on_output-TaskSized :
      (seq : ℕ) (bytes : List ℕ) (o : Option PendingGap) (t : TaskState)
      → TaskSized limit t
      → TaskSized limit (on_output c accepts seq bytes o t)
  unfolding on_output observe take_frame refuse_frame write_gap
  on_output-TaskSized seq bytes o t h =
      let ready = gap_first-TaskSized o t h in
      elim (Bool-cases (ltb limit (length bytes))) [
        | inl big ↦ rw big (
            let (a, b) = flush_open-TaskSized _ ready in
            (a, write_replay_gap-AllSized limit accepts _ _ b))
        | inr small ↦
            rw small
              (flush_full-TaskSized _ _ (add_frame-TaskSized seq bytes _ _ (ground arith) ready))
      ]

  put_marker-TaskSized :
      (kind : MarkerKind) (seq : ℕ) (payload : MarkerPayload) (t : TaskState)
      → TaskSized limit t
      → TaskSized limit (put_marker accepts kind seq payload t)
  unfolding put_marker write_marker attempt
  put_marker-TaskSized kind seq payload t h = let (a, b) = flush_open-TaskSized t h in (a, (tt, b))

  drain-TaskSized :
      (qs : List Command) (t : TaskState)
      → TaskSized limit t
      → TaskSized limit (drain c accepts qs t)
  unfolding drain
  drain-TaskSized [] t h = h
  drain-TaskSized (output seq bytes gap ∷ qs) t h =
      drain-TaskSized qs _ (on_output-TaskSized seq bytes gap t h)
  drain-TaskSized (mark kind seq payload ∷ qs) t h =
      drain-TaskSized qs _ (put_marker-TaskSized kind seq payload t h)
  drain-TaskSized (shutdown last_seq ∷ qs) t h = drain-TaskSized qs t h

  pub writer_task-TaskSized :
      (qs : List Command) (t : TaskState)
      → TaskSized limit t
      → TaskSized limit (writer_task c accepts qs t)
  unfolding writer_task on_senders_dropped on_shutdown on_marker observe
  writer_task-TaskSized [] t h = put_marker-TaskSized _ _ _ t h
  writer_task-TaskSized (output seq bytes gap ∷ qs) t h =
      writer_task-TaskSized qs _ (on_output-TaskSized seq bytes gap t h)
  writer_task-TaskSized (mark kind seq payload ∷ qs) t h =
      writer_task-TaskSized qs _ (put_marker-TaskSized kind seq payload t h)
  writer_task-TaskSized (shutdown last_seq ∷ qs) t h =
      put_marker-TaskSized _ _ _ _ (drain-TaskSized qs t h)

-- Whatever is in the queue and whatever the repository answers, each chunk that the task offers has at
-- least one byte, no more than the hard cap and than an `i32` can count, and the right length in its
-- `byte_len`. The cap is a 32-bit number.
pub task_chunks_sized :
    (c : RecordingWriterConfig) (accepts : Accepts) (qs : List Command)
    → c.chunk_hard_cap_bytes < 2 ^ 32
    → AllSized c.chunk_hard_cap_bytes (writer_task c accepts qs idle_task).log
task_chunks_sized c accepts qs w = (writer_task-TaskSized c accepts w qs idle_task (tt, tt)).1
