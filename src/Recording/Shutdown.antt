-- ===== src/Recording/Shutdown.antt =====
-- What a recording has to show for the output of a session once its writer has ended,
-- crates/relayterm-terminal/src/recording.rs.
use relay_term.Prelude.{
  ℕ, suc, ◌+◌, ◌^◌, ◌≤◌, ◌<◌, ◌≡◌, refl, subst, ◌⊎◌, inl, inr, Bool-cases, Option, none, List, [],
  ◌∷◌, arith, All, length, ltb, lt→ltb,
}
use native.Mathlib.Nat.{zero-add}
use relay_term.Recording.{RecordingWriterConfig, PendingGap, output, Accepts, queue_capacity}
use relay_term.Recording.Covers.{InGap, Covered, StoresMarkers}
use relay_term.Recording.Producer.{
  Recorder, after_frame, record_output, after_marker, try_send, enabled, recv, shut_down,
  drop_senders, Event, frame, note, turn, run,
}
use relay_term.Recording.Queue.{QueueOk-append, InQueue-append, writer_task-covers}
use relay_term.Recording.Accounts.{
  RecorderOk, try_send-full, try_send-gone, after_frame-RecorderOk, record_marker-RecorderOk,
  recv_next-RecorderOk,
}

-- A frame has bytes.
abbrev pub HasBytes : Event → Type 0
HasBytes (frame bytes) = 0 < length bytes
HasBytes (note kind seq payload) = Unit {0}
HasBytes turn = Unit {0}

abbrev pub count_frames : List Event → ℕ
count_frames [] = 0
count_frames (frame bytes ∷ rest) = suc (count_frames rest)
count_frames (note kind seq payload ∷ rest) = count_frames rest
count_frames (turn ∷ rest) = count_frames rest

-- The writer after the events.
abbrev pub recorded : RecordingWriterConfig → Accepts → List Event → Recorder
recorded c accepts events = (run c accepts events 0 enabled).1

module _ (c : RecordingWriterConfig) (accepts : Accepts) (markers : StoresMarkers accepts)
    (w : c.chunk_hard_cap_bytes < 2 ^ 31) where
  run-RecorderOk :
      (events : List Event) (n : ℕ) (r : Recorder)
      → All HasBytes events
      → n + count_frames events < 2 ^ 63
      → RecorderOk c n r
      → RecorderOk c (n + count_frames events) (run c accepts events n r).1
  unfolding run recv
  run-RecorderOk [] n r h v ok = subst (λ k. RecorderOk c k r) (omega arith) ok
  run-RecorderOk (frame bytes ∷ rest) n r h v ok =
      subst (λ k. RecorderOk c k (run c accepts rest (suc n) (record_output c (suc n) bytes r)).1)
        (omega arith)
        (run-RecorderOk rest (suc n) _ h.1 (omega arith)
          (after_frame-RecorderOk c n r ok bytes h.0))
  run-RecorderOk (note kind seq payload ∷ rest) n r h v ok =
      run-RecorderOk rest n _ h.1 v (record_marker-RecorderOk c n r ok kind seq payload)
  run-RecorderOk (turn ∷ rest) n r h v ok =
      run-RecorderOk rest n _ h.1 v
        (recv_next-RecorderOk c accepts markers w n r r.queue (omega arith) refl ok)

  enabled-RecorderOk : RecorderOk c 0 enabled
  unfolding enabled after_marker try_send
  enabled-RecorderOk = record {
    last = 0;
    task_ok = tt;
    queue_ok = omega arith;
    no_shutdown = tt;
    gap_ok = tt;
    alive = refl;
    accounted = λ s p le. absurd (omega arith);
  }

  recorded-RecorderOk :
      (events : List Event)
      → All HasBytes events
      → count_frames events < 2 ^ 63
      → RecorderOk c (count_frames events) (recorded c accepts events)
  recorded-RecorderOk events h v =
      subst (λ k. RecorderOk c k (recorded c accepts events)) (zero-add (count_frames events))
        (run-RecorderOk events 0 enabled h (omega arith) enabled-RecorderOk)

  ended-covers :
      (last_seq n s : ℕ) (r : Recorder)
      → n < 2 ^ 63
      → RecorderOk c n r
      → 0 < s
      → s ≤ n
      → Covered s (shut_down c accepts last_seq r).task.log ⊎ InGap s r.pending_gap
  unfolding shut_down
  ended-covers last_seq n s r v ok p le = elim (ok.accounted s p le) [
    | inr g ↦ inr g
    | inl h ↦ rw ok.alive (
        inl (
          writer_task-covers c accepts markers w ok.last n _ r.task s v ok.task_ok
            (QueueOk-append ok.last n n r.queue _ ok.queue_ok (λ m le. le))
            (elim h [ inl a ↦ inl a | inr b ↦ inr (InQueue-append s r.queue _ (inl b)) ])))
  ]

  dropped-covers :
      (n s : ℕ) (r : Recorder)
      → n < 2 ^ 63
      → RecorderOk c n r
      → 0 < s
      → s ≤ n
      → Covered s (drop_senders c accepts r).task.log ⊎ InGap s r.pending_gap
  unfolding drop_senders
  dropped-covers n s r v ok p le = elim (ok.accounted s p le) [
    | inr g ↦ inr g
    | inl h ↦ rw ok.alive (
        inl
          (writer_task-covers c accepts markers w ok.last n _ r.task s v ok.task_ok ok.queue_ok h))
  ]

-- A shutdown does not look at the gap.
same_but_gap :
    (c : RecordingWriterConfig) (accepts : Accepts) (last_seq : ℕ) (r : Recorder)
    (gap : Option PendingGap)
    → (shut_down c accepts last_seq (record r { pending_gap = gap })).task
      ≡ (shut_down c accepts last_seq r).task
unfolding shut_down
same_but_gap c accepts last_seq r gap = elim (Bool-cases r.running) [
  | inl e ↦ rw (e, shut_down) refl
  | inr e ↦ rw (e, shut_down) refl
]

-- After any interleaving of frames, markers and turns of the task, and after the shutdown, a stored
-- chunk or a stored gap marker accounts for each frame of the session, or else the frame is in the
-- gap that was still waiting for a later frame. The repository may refuse any chunk, but stores markers;
-- a frame has bytes, and the cap on a chunk is below 2^31.
pub shutdown_accounts :
    (c : RecordingWriterConfig) (accepts : Accepts) (events : List Event) (last_seq s : ℕ)
    → StoresMarkers accepts
    → c.chunk_hard_cap_bytes < 2 ^ 31
    → All HasBytes events
    → count_frames events < 2 ^ 63
    → 0 < s
    → s ≤ count_frames events
    → Covered s (shut_down c accepts last_seq (recorded c accepts events)).task.log
      ⊎ InGap s (recorded c accepts events).pending_gap
shutdown_accounts c accepts events last_seq s markers w h v p le =
    ended-covers c accepts markers w last_seq _ s _ v
      (recorded-RecorderOk c accepts markers w events h v) p le

-- Under the same conditions as for a shutdown, a stored chunk or gap marker accounts for each frame
-- when the writer is dropped without a shutdown, or the frame is in the gap that was still waiting.
pub drop_accounts :
    (c : RecordingWriterConfig) (accepts : Accepts) (events : List Event) (s : ℕ)
    → StoresMarkers accepts
    → c.chunk_hard_cap_bytes < 2 ^ 31
    → All HasBytes events
    → count_frames events < 2 ^ 63
    → 0 < s
    → s ≤ count_frames events
    → Covered s (drop_senders c accepts (recorded c accepts events)).task.log
      ⊎ InGap s (recorded c accepts events).pending_gap
drop_accounts c accepts events s markers w h v p le =
    dropped-covers c accepts markers w _ s _ v (recorded-RecorderOk c accepts markers w events h v)
      p le

-- A last frame that is dropped, as it is above the cap or as the queue is full, leaves no trace: the
-- shutdown stores the same rows as without it, and no gap marker tells of it.
pub dropped_tail_untold :
    (c : RecordingWriterConfig) (accepts : Accepts) (seq : ℕ) (bytes : List ℕ) (last_seq : ℕ)
    (r : Recorder)
    → (c.chunk_hard_cap_bytes < length bytes) ⊎ (queue_capacity ≤ length r.queue)
    → (shut_down c accepts last_seq (record_output c seq bytes r)).task
      ≡ (shut_down c accepts last_seq r).task
unfolding record_output after_frame
dropped_tail_untold c accepts seq bytes last_seq r (inl big) =
    rw (lt→ltb c.chunk_hard_cap_bytes (length bytes) big) (same_but_gap c accepts last_seq r _)
dropped_tail_untold c accepts seq bytes last_seq r (inr h) =
    elim (Bool-cases (ltb c.chunk_hard_cap_bytes (length bytes))) [
      | inl big ↦ rw big (same_but_gap c accepts last_seq r _)
      | inr small ↦ rw small (elim (Bool-cases r.running) [
        | inl alive ↦
            rw
              (
                try_send-full (output seq bytes r.pending_gap) (record r { pending_gap = none })
                    alive (ground arith),
                after_frame,
              )
              (same_but_gap c accepts last_seq r _)
        | inr gone ↦
            rw
              (
                try_send-gone (output seq bytes r.pending_gap) (record r { pending_gap = none })
                    gone,
                after_frame,
              )
              (same_but_gap c accepts last_seq r _)
      ])
    ]
