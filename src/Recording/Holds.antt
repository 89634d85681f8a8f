-- ===== src/Recording/Holds.antt =====
-- No step of the recording task loses a sequence number that it holds, and a step on a frame holds
-- the frame's own number and the gap before it, crates/relayterm-terminal/src/recording.rs.
use relay_term.Prelude.{
  ℕ, ◌^◌, ◌≤◌, ◌<◌, ◌≡◌, refl, subst, inl, inr, Bool-cases, false, Option, none, some, List, arith,
  leb, length, length-append,
}
use relay_term.Recording.{
  RecordingWriterConfig, PendingGap, Accepts, ChunkBatch, append, would_overshoot_hard_cap,
  TaskState,
}
use relay_term.Recording.Task.{flush_open, write_gap, gap_first, add_frame, flush_full, take_frame}
use relay_term.Recording.Covers.{
  InRange, InBatch, Covered, Held, BatchOk, StoresMarkers, write_replay_gap-covers,
  write_replay_gap-keeps, flush_chunk-covers,
}

-- What holds of the task between two commands, `last` being the newest number it may have seen.
abbrev pub TaskOk : RecordingWriterConfig → ℕ → TaskState → Type 0
TaskOk c last t = BatchOk c.chunk_hard_cap_bytes last t.batch

append-BatchOk :
    (c : RecordingWriterConfig) (last seq : ℕ) (b : ChunkBatch) (bytes : List ℕ)
    → last ≤ seq
    → 0 < length bytes
    → length bytes ≤ c.chunk_hard_cap_bytes
    → c.chunk_hard_cap_bytes < 2 ^ 31
    → BatchOk c.chunk_hard_cap_bytes last (some b)
    → would_overshoot_hard_cap b (length bytes) c.chunk_hard_cap_bytes ≡ false
    → BatchOk c.chunk_hard_cap_bytes seq (some (append b seq bytes))
unfolding would_overshoot_hard_cap
append-BatchOk c last seq b bytes le p q w (a, d, e, f) under = (
  omega (arith, length-append b.payload bytes),
  rw (length-append b.payload bytes) (ground arith),
  omega arith,
  omega arith,
)

module _ (c : RecordingWriterConfig) (accepts : Accepts) where
  flush_open-TaskOk : (last : ℕ) (t : TaskState) → TaskOk c last (flush_open accepts t)
  unfolding flush_open
  flush_open-TaskOk last t = tt

  pub gap_first-TaskOk :
      (last : ℕ) (o : Option PendingGap) (t : TaskState)
      → TaskOk c last t
      → TaskOk c last (gap_first accepts o t)
  unfolding gap_first write_gap flush_open
  gap_first-TaskOk last none t ok = ok
  gap_first-TaskOk last (some g) t ok = tt

  pub add_frame-TaskOk :
      (last seq : ℕ) (bytes : List ℕ) (o : Option ChunkBatch) (t : TaskState)
      → last ≤ seq
      → 0 < length bytes
      → length bytes ≤ c.chunk_hard_cap_bytes
      → c.chunk_hard_cap_bytes < 2 ^ 31
      → BatchOk c.chunk_hard_cap_bytes last o
      → TaskOk c seq (add_frame c accepts seq bytes o t)
  unfolding add_frame
  add_frame-TaskOk last seq bytes none t le p q w ok = (p, q, omega arith, omega arith)
  add_frame-TaskOk last seq bytes (some b) t le p q w ok =
      elim (Bool-cases (would_overshoot_hard_cap b (length bytes) c.chunk_hard_cap_bytes)) [
        | inl over ↦ rw over (p, q, omega arith, omega arith)
        | inr under ↦ rw under (append-BatchOk c last seq b bytes le p q w ok under)
      ]

  flush_full-TaskOk :
      (last : ℕ) (o : Option ChunkBatch) (t : TaskState)
      → TaskOk c last t
      → TaskOk c last (flush_full c accepts o t)
  unfolding flush_full flush_open
  flush_full-TaskOk last none t ok = ok
  flush_full-TaskOk last (some b) t ok =
      elim (Bool-cases (leb c.chunk_target_bytes (length b.payload))) [
        | inl e ↦ rw e tt
        | inr e ↦ rw e ok
      ]

  module _ (markers : StoresMarkers accepts) (w : c.chunk_hard_cap_bytes < 2 ^ 31) where
    module _ (last : ℕ) (v : last < 2 ^ 63) where
      pub flush_open-covers :
          (s : ℕ) (t : TaskState)
          → TaskOk c last t
          → Held s t
          → Covered s (flush_open accepts t).log
      unfolding flush_open
      flush_open-covers s t ok h =
          flush_chunk-covers accepts markers _ last t.batch s t.log w v ok h

      pub gap_first-Held :
          (o : Option PendingGap) (s : ℕ) (t : TaskState)
          → TaskOk c last t
          → Held s t
          → Held s (gap_first accepts o t)
      unfolding gap_first write_gap
      gap_first-Held none s t ok h = h
      gap_first-Held (some g) s t ok h =
          inr (write_replay_gap-keeps accepts g s _ (flush_open-covers s t ok h))

      pub gap_first-gap :
          (g : PendingGap) (s : ℕ) (t : TaskState)
          → g.to_seq ≤ last
          → InRange s g.from_seq g.to_seq
          → Held s (gap_first accepts (some g) t)
      unfolding gap_first write_gap
      gap_first-gap g s t le h = inr (write_replay_gap-covers accepts markers g s _ h (omega arith))

      add_frame-Held :
          (seq : ℕ) (bytes : List ℕ) (t : TaskState) (o : Option ChunkBatch) (s : ℕ)
          → t.batch ≡ o
          → last ≤ seq
          → TaskOk c last t
          → Held s t
          → Held s (add_frame c accepts seq bytes o t)
      unfolding add_frame
      add_frame-Held seq bytes t none s e le ok (inl h) = absurd (subst (InBatch s) e h)
      add_frame-Held seq bytes t none s e le ok (inr h) = inr h
      add_frame-Held seq bytes t (some b) s e le ok h =
          elim (Bool-cases (would_overshoot_hard_cap b (length bytes) c.chunk_hard_cap_bytes)) [
            | inl over ↦ rw over (inr (flush_open-covers s t ok h))
            | inr under ↦ rw under (elim h [
              | inl r ↦
                  let (from, to) = subst (InBatch s) e r in
                  let (p, q, x, y) = subst (BatchOk _ last) e ok in inl (from, omega arith)
              | inr r ↦ inr r
            ])
          ]

      add_frame-new :
          (seq : ℕ) (bytes : List ℕ) (t : TaskState) (o : Option ChunkBatch)
          → last ≤ seq
          → BatchOk c.chunk_hard_cap_bytes last o
          → InBatch seq (add_frame c accepts seq bytes o t).batch
      unfolding add_frame
      add_frame-new seq bytes t none le ok = (omega arith, omega arith)
      add_frame-new seq bytes t (some b) le ok =
          let (p, q, x, y) = ok in
          elim (Bool-cases (would_overshoot_hard_cap b (length bytes) c.chunk_hard_cap_bytes)) [
            | inl over ↦ rw over (omega arith, omega arith)
            | inr under ↦ rw under (omega arith, omega arith)
          ]

      flush_full-Held :
          (o : Option ChunkBatch) (s : ℕ) (t : TaskState)
          → TaskOk c last t
          → Held s t
          → Held s (flush_full c accepts o t)
      unfolding flush_full
      flush_full-Held none s t ok h = h
      flush_full-Held (some b) s t ok h =
          elim (Bool-cases (leb c.chunk_target_bytes (length b.payload))) [
            | inl e ↦ rw e (inr (flush_open-covers s t ok h))
            | inr e ↦ rw e h
          ]

    -- A frame after all that was seen, with bytes in it.
    module _ (last seq : ℕ) (v : seq < 2 ^ 63) (le : last ≤ seq) (bytes : List ℕ)
        (p : 0 < length bytes) (t : TaskState) (ok : TaskOk c last t) where
      pub take_frame-TaskOk :
          length bytes ≤ c.chunk_hard_cap_bytes → TaskOk c seq (take_frame c accepts seq bytes t)
      unfolding take_frame
      take_frame-TaskOk q =
          flush_full-TaskOk seq _ _ (add_frame-TaskOk last seq bytes t.batch t le p q w ok)

      pub take_frame-Held :
          (s : ℕ)
          → length bytes ≤ c.chunk_hard_cap_bytes
          → Held s t
          → Held s (take_frame c accepts seq bytes t)
      unfolding take_frame
      take_frame-Held s q h =
          flush_full-Held seq v _ s _ (add_frame-TaskOk last seq bytes t.batch t le p q w ok)
            (add_frame-Held last (omega arith) seq bytes t t.batch s refl le ok h)

      pub take_frame-new :
          length bytes ≤ c.chunk_hard_cap_bytes → Held seq (take_frame c accepts seq bytes t)
      unfolding take_frame
      take_frame-new q =
          flush_full-Held seq v _ seq _ (add_frame-TaskOk last seq bytes t.batch t le p q w ok)
            (inl (add_frame-new last (omega arith) seq bytes t t.batch le ok))
