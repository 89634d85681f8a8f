-- ===== src/Recording/Steps.antt =====
-- Each command of the recording task, and the whole loop, keeps account of the output,
-- crates/relayterm-terminal/src/recording.rs.
use relay_term.Prelude.{
  ℕ, ◌^◌, ◌≤◌, ◌<◌, ◌≡◌, inl, inr, Bool-cases, Option, some, List, arith, ltb, length,
}
use relay_term.Recording.{
  RecordingWriterConfig, PendingGap, MarkerKind, MarkerPayload, Accepts, attempt, write_marker,
  TaskState,
}
use relay_term.Recording.Task.{
  flush_open, write_gap, gap_first, observe, refuse_frame, on_output, put_marker,
}
use relay_term.Recording.Covers.{
  InRange, Covered, Held, StoresMarkers, write_replay_gap-covers, write_replay_gap-keeps,
}
use relay_term.Recording.Holds.{
  TaskOk, gap_first-TaskOk, gap_first-Held, gap_first-gap, flush_open-covers, take_frame-TaskOk,
  take_frame-Held, take_frame-new,
}

module _ (c : RecordingWriterConfig) (accepts : Accepts) (markers : StoresMarkers accepts)
    (w : c.chunk_hard_cap_bytes < 2 ^ 31) where
  pub put_marker-Held :
      (kind : MarkerKind) (seq : ℕ) (payload : MarkerPayload) (last s : ℕ) (t : TaskState)
      → last < 2 ^ 63
      → TaskOk c last t
      → Held s t
      → Covered s (put_marker accepts kind seq payload t).log
  unfolding put_marker write_marker attempt
  put_marker-Held kind seq payload last s t v ok h =
      inr (flush_open-covers c accepts markers w last v s t ok h)

  pub put_marker-TaskOk :
      (kind : MarkerKind) (seq : ℕ) (payload : MarkerPayload) (last : ℕ) (t : TaskState)
      → TaskOk c last (put_marker accepts kind seq payload t)
  unfolding put_marker flush_open
  put_marker-TaskOk kind seq payload last t = tt

  module _ (last seq : ℕ) (v : seq < 2 ^ 63) (le : last ≤ seq) (bytes : List ℕ)
      (p : 0 < length bytes) (o : Option PendingGap) (t : TaskState) (ok : TaskOk c last t) where
    refuse_frame-Held :
        (s : ℕ) (u : TaskState) → TaskOk c last u → Held s u → Held s (refuse_frame accepts seq u)
    unfolding refuse_frame write_gap
    refuse_frame-Held s u k h = inr (
        write_replay_gap-keeps accepts _ s _
          (flush_open-covers c accepts markers w last (omega arith) s u k h))

    refuse_frame-new : (u : TaskState) → Held seq (refuse_frame accepts seq u)
    unfolding refuse_frame write_gap
    refuse_frame-new u =
        inr (write_replay_gap-covers accepts markers _ seq _ (omega arith, omega arith) v)

    refuse_frame-TaskOk : (u : TaskState) → TaskOk c seq (refuse_frame accepts seq u)
    unfolding refuse_frame write_gap flush_open
    refuse_frame-TaskOk u = tt

    pub on_output-TaskOk : TaskOk c seq (on_output c accepts seq bytes o t)
    unfolding on_output observe
    on_output-TaskOk =
        let k = gap_first-TaskOk c accepts last o t ok in
        elim (Bool-cases (ltb c.chunk_hard_cap_bytes (length bytes))) [
          | inl big ↦ rw big (refuse_frame-TaskOk (gap_first accepts o t))
          | inr small ↦
              rw small
                (take_frame-TaskOk c accepts markers w last seq v le bytes p _ k (ground arith))
        ]

    -- What the task held, or holds after the gap is written, it holds after the frame.
    from_ready :
        (s : ℕ) → Held s (gap_first accepts o t) → Held s (on_output c accepts seq bytes o t)
    unfolding on_output observe
    from_ready s h =
        let k = gap_first-TaskOk c accepts last o t ok in
        elim (Bool-cases (ltb c.chunk_hard_cap_bytes (length bytes))) [
          | inl big ↦ rw big (refuse_frame-Held s _ k h)
          | inr small ↦
              rw small
                (take_frame-Held c accepts markers w last seq v le bytes p _ k s (ground arith) h)
        ]

    pub on_output-Held : (s : ℕ) → Held s t → Held s (on_output c accepts seq bytes o t)
    on_output-Held s h =
        from_ready s (gap_first-Held c accepts markers w last (omega arith) o s t ok h)

    pub on_output-new : Held seq (on_output c accepts seq bytes o t)
    unfolding on_output observe
    on_output-new =
        let k = gap_first-TaskOk c accepts last o t ok in
        elim (Bool-cases (ltb c.chunk_hard_cap_bytes (length bytes))) [
          | inl big ↦ rw big (refuse_frame-new (gap_first accepts o t))
          | inr small ↦
              rw small (take_frame-new c accepts markers w last seq v le bytes p _ k (ground arith))
        ]

    pub on_output-gap :
        (g : PendingGap) (s : ℕ)
        → o ≡ some g
        → g.to_seq ≤ seq
        → InRange s g.from_seq g.to_seq
        → Held s (on_output c accepts seq bytes o t)
    on_output-gap g s e le h =
        from_ready s (rw e (gap_first-gap c accepts markers w seq v g s t le h))
