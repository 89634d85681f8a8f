-- ===== src/Recording/Queue.antt =====
-- The commands waiting in the queue keep account of their output until the task has written it,
-- crates/relayterm-terminal/src/recording.rs.
use relay_term.Prelude.{
  ℕ, ◌^◌, ◌≤◌, ◌<◌, ◌≡◌, refl, ◌⊎◌, inl, inr, Option, none, some, List, [], ◌∷◌, ◌++◌, arith,
  length,
}
use relay_term.Recording.{
  RecordingWriterConfig, PendingGap, MarkerKind, MarkerPayload, Accepts, TaskState, Command, output,
  mark, shutdown,
}
use relay_term.Recording.Task.{
  on_output, put_marker, on_marker, observe, drain, on_shutdown, writer_task, on_senders_dropped,
}
use relay_term.Recording.Covers.{InGap, Covered, Held, BatchOk-later, StoresMarkers}
use relay_term.Recording.Holds.{TaskOk}
use relay_term.Recording.Steps.{
  put_marker-Held, put_marker-TaskOk, on_output-TaskOk, on_output-Held, on_output-new,
  on_output-gap,
}

-- The command carries the number.
abbrev pub InCommand : ℕ → Command → Type 0
InCommand s (output seq bytes gap) = (s ≡ seq) ⊎ InGap s gap
InCommand s (mark kind seq payload) = ⊥
InCommand s (shutdown last_seq) = ⊥

abbrev pub InQueue : ℕ → List Command → Type 0
InQueue s [] = ⊥
InQueue s (q ∷ qs) = InCommand s q ⊎ InQueue s qs

abbrev pub GapUpTo : ℕ → Option PendingGap → Type 0
GapUpTo n none = Unit {0}
GapUpTo n (some g) = g.to_seq ≤ n

-- The frames in the queue have bytes and rising numbers, from `last` up to `final`.
abbrev pub QueueOk : ℕ → ℕ → List Command → Type 0
QueueOk last final [] = last ≤ final
QueueOk last final (output seq bytes gap ∷ qs) =
    (last ≤ seq) × (0 < length bytes) × GapUpTo seq gap × QueueOk seq final qs
QueueOk last final (mark kind seq payload ∷ qs) = QueueOk last final qs
QueueOk last final (shutdown last_seq ∷ qs) = QueueOk last final qs

-- No shutdown waits in the queue.
abbrev pub NoShutdown : List Command → Type 0
NoShutdown [] = Unit {0}
NoShutdown (output seq bytes gap ∷ qs) = NoShutdown qs
NoShutdown (mark kind seq payload ∷ qs) = NoShutdown qs
NoShutdown (shutdown last_seq ∷ qs) = ⊥

pub NoShutdown-append :
    (qs rest : List Command) → NoShutdown qs → NoShutdown rest → NoShutdown (qs ++ rest)
NoShutdown-append [] rest h k = k
NoShutdown-append (output seq bytes gap ∷ qs) rest h k = NoShutdown-append qs rest h k
NoShutdown-append (mark kind seq payload ∷ qs) rest h k = NoShutdown-append qs rest h k
NoShutdown-append (shutdown last_seq ∷ qs) rest h k = absurd h

pub QueueOk-le : (last final : ℕ) (qs : List Command) → QueueOk last final qs → last ≤ final
QueueOk-le last final [] h = h
QueueOk-le last final (output seq bytes gap ∷ qs) h =
    let (a, b, d, e) = h in omega (arith, QueueOk-le seq final qs e)
QueueOk-le last final (mark kind seq payload ∷ qs) h = QueueOk-le last final qs h
QueueOk-le last final (shutdown last_seq ∷ qs) h = QueueOk-le last final qs h

pub QueueOk-append :
    (last final later : ℕ) (qs rest : List Command)
    → QueueOk last final qs
    → ((m : ℕ) → m ≤ final → QueueOk m later rest)
    → QueueOk last later (qs ++ rest)
QueueOk-append last final later [] rest h k = k last h
QueueOk-append last final later (output seq bytes gap ∷ qs) rest h k =
    let (a, b, d, e) = h in (a, b, d, QueueOk-append seq final later qs rest e k)
QueueOk-append last final later (mark kind seq payload ∷ qs) rest h k =
    QueueOk-append last final later qs rest h k
QueueOk-append last final later (shutdown last_seq ∷ qs) rest h k =
    QueueOk-append last final later qs rest h k

pub QueueOk-later :
    (last final later : ℕ) (qs : List Command)
    → final ≤ later
    → QueueOk last final qs
    → QueueOk last later qs
QueueOk-later last final later [] le h = omega arith
QueueOk-later last final later (output seq bytes gap ∷ qs) le h =
    let (a, b, d, e) = h in (a, b, d, QueueOk-later seq final later qs le e)
QueueOk-later last final later (mark kind seq payload ∷ qs) le h =
    QueueOk-later last final later qs le h
QueueOk-later last final later (shutdown last_seq ∷ qs) le h =
    QueueOk-later last final later qs le h

pub InQueue-append :
    (s : ℕ) (qs rest : List Command) → InQueue s qs ⊎ InQueue s rest → InQueue s (qs ++ rest)
InQueue-append s [] rest (inl h) = absurd h
InQueue-append s [] rest (inr h) = h
InQueue-append s (q ∷ qs) rest (inl (inl h)) = inl h
InQueue-append s (q ∷ qs) rest (inl (inr h)) = inr (InQueue-append s qs rest (inl h))
InQueue-append s (q ∷ qs) rest (inr h) = inr (InQueue-append s qs rest (inr h))

module _ (c : RecordingWriterConfig) (accepts : Accepts) (markers : StoresMarkers accepts)
    (w : c.chunk_hard_cap_bytes < 2 ^ 31) where
  below : {seq final : ℕ} (qs : List Command) → final < 2 ^ 63 → QueueOk seq final qs → seq < 2 ^ 63
  below {seq} {final} qs v q = omega (arith, QueueOk-le seq final qs q)

  pub after_mark :
      (kind : MarkerKind) (seq : ℕ) (payload : MarkerPayload) (last final : ℕ) (qs : List Command)
      (t : TaskState) (s : ℕ)
      → final < 2 ^ 63
      → TaskOk c last t
      → QueueOk last final qs
      → Held s t ⊎ InQueue s (mark kind seq payload ∷ qs)
      → Held s (put_marker accepts kind seq payload t) ⊎ InQueue s qs
  after_mark kind seq payload last final qs t s v ok q (inl h) =
      inl (inr (put_marker-Held c accepts markers w kind seq payload last s t (below qs v q) ok h))
  after_mark kind seq payload last final qs t s v ok q (inr (inl h)) = absurd h
  after_mark kind seq payload last final qs t s v ok q (inr (inr h)) = inr h

  -- The frame at the head of the queue is taken over with its gap.
  pub head_taken :
      (last final seq : ℕ) (bytes : List ℕ) (gap : Option PendingGap) (qs : List Command)
      (t : TaskState) (s : ℕ)
      → final < 2 ^ 63
      → TaskOk c last t
      → QueueOk last final (output seq bytes gap ∷ qs)
      → Held s t ⊎ InQueue s (output seq bytes gap ∷ qs)
      → Held s (on_output c accepts seq bytes gap t) ⊎ InQueue s qs
  head_taken last final seq bytes gap qs t s v ok (le, p, g, q) (inl h) =
      inl (on_output-Held c accepts markers w last seq (below qs v q) le bytes p gap t ok s h)
  head_taken last final seq bytes gap qs t s v ok (le, p, g, q) (inr (inl (inl e))) =
      inl (rw e (on_output-new c accepts markers w last seq (below qs v q) le bytes p gap t ok))
  head_taken last final seq bytes none qs t s v ok (le, p, g, q) (inr (inl (inr h))) = absurd h
  head_taken last final seq bytes (some gap) qs t s v ok (le, p, g, q) (inr (inl (inr h))) = inl (
      on_output-gap c accepts markers w last seq (below qs v q) le bytes p (some gap) t ok gap s
        refl g h)
  head_taken last final seq bytes gap qs t s v ok (le, p, g, q) (inr (inr h)) = inr h

  pub head-TaskOk :
      (last final seq : ℕ) (bytes : List ℕ) (gap : Option PendingGap) (qs : List Command)
      (t : TaskState)
      → final < 2 ^ 63
      → TaskOk c last t
      → QueueOk last final (output seq bytes gap ∷ qs)
      → TaskOk c seq (on_output c accepts seq bytes gap t)
  head-TaskOk last final seq bytes gap qs t v ok (le, p, g, q) =
      on_output-TaskOk c accepts markers w last seq (below qs v q) le bytes p gap t ok

  drain-covers :
      (last final : ℕ) (qs : List Command) (t : TaskState) (s : ℕ)
      → final < 2 ^ 63
      → TaskOk c last t
      → QueueOk last final qs
      → Held s t ⊎ InQueue s qs
      → Held s (drain c accepts qs t) × TaskOk c final (drain c accepts qs t)
  unfolding drain
  drain-covers last final [] t s v ok q (inl h) = (h, BatchOk-later _ last final t.batch q ok)
  drain-covers last final [] t s v ok q (inr h) = absurd h
  drain-covers last final (output seq bytes gap ∷ qs) t s v ok q h =
      drain-covers seq final qs _ s v (head-TaskOk last final seq bytes gap qs t v ok q) q.3
        (head_taken last final seq bytes gap qs t s v ok q h)
  drain-covers last final (mark kind seq payload ∷ qs) t s v ok q h =
      drain-covers last final qs _ s v
        (put_marker-TaskOk c accepts markers w kind seq payload last t) q
        (after_mark kind seq payload last final qs t s v ok q h)
  drain-covers last final (shutdown last_seq ∷ qs) t s v ok q h =
      drain-covers last final qs t s v ok q
        (elim h [ inl x ↦ inl x | inr x ↦ elim x [ inl y ↦ absurd y | inr y ↦ inr y ] ])

  on_shutdown-covers :
      (last final last_seq : ℕ) (qs : List Command) (t : TaskState) (s : ℕ)
      → final < 2 ^ 63
      → TaskOk c last t
      → QueueOk last final qs
      → Held s t ⊎ InQueue s qs
      → Covered s (on_shutdown c accepts last_seq qs t).log
  unfolding on_shutdown
  on_shutdown-covers last final last_seq qs t s v ok q h =
      let (held, done) = drain-covers last final qs t s v ok q h in
      put_marker-Held c accepts markers w _ _ _ final s _ v done held

  -- The task leaves nothing behind that it held or that was in its queue.
  pub writer_task-covers :
      (last final : ℕ) (qs : List Command) (t : TaskState) (s : ℕ)
      → final < 2 ^ 63
      → TaskOk c last t
      → QueueOk last final qs
      → Held s t ⊎ InQueue s qs
      → Covered s (writer_task c accepts qs t).log
  unfolding writer_task on_senders_dropped on_marker observe
  writer_task-covers last final [] t s v ok q (inl h) =
      put_marker-Held c accepts markers w _ _ _ last s t (omega arith) ok h
  writer_task-covers last final [] t s v ok q (inr h) = absurd h
  writer_task-covers last final (output seq bytes gap ∷ qs) t s v ok q h =
      writer_task-covers seq final qs _ s v (head-TaskOk last final seq bytes gap qs t v ok q) q.3
        (head_taken last final seq bytes gap qs t s v ok q h)
  writer_task-covers last final (mark kind seq payload ∷ qs) t s v ok q h =
      writer_task-covers last final qs _ s v
        (put_marker-TaskOk c accepts markers w kind seq payload last t) q
        (after_mark kind seq payload last final qs t s v ok q h)
  writer_task-covers last final (shutdown last_seq ∷ qs) t s v ok q h =
      on_shutdown-covers last final last_seq qs t s v ok q
        (elim h [ inl x ↦ inl x | inr x ↦ elim x [ inl y ↦ absurd y | inr y ↦ inr y ] ])
