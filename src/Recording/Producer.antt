-- ===== src/Recording/Producer.antt =====
-- The producer side of the recording writer and its bounded queue,
-- crates/relayterm-terminal/src/recording.rs. A `Recorder` is an enabled writer with its task; the
-- disabled writer returns from every call at once. `recv` is one turn of the task's loop, so a list of
-- events is one interleaving of the producers and the task.
use relay_term.Prelude.{
  ℕ, suc, ◌-◌, ◌^◌, min, max, Bool, true, false, not, ◌&&◌, Option, none, some, List, [], ◌∷◌, ◌++◌,
  ltb, leb, if◌then◌else◌, length,
}
use relay_term.Recording.{
  RecordingWriterConfig, queue_capacity, PendingGap, GapReason, writer_overflow, frame_oversized,
  MarkerKind, started, allows_seq_zero, MarkerPayload, empty_object, Accepts, fits_i64, Command,
  output, mark, shutdown, TaskState, idle_task,
}
use relay_term.Recording.Task.{on_output, on_marker, on_shutdown, writer_task}

pub record Recorder : Type 0 where
  pub pending_gap : Option PendingGap
  pub queue : List Command
  pub task : TaskState
  pub running : Bool

unfoldable pub merge_gaps : PendingGap → PendingGap → PendingGap
merge_gaps a b = record {
  from_seq = min a.from_seq b.from_seq;
  to_seq = max a.to_seq b.to_seq;
  reason = a.reason;
}

-- The first reason stays.
unfoldable pub extend_gap : Option PendingGap → ℕ → GapReason → Option PendingGap
extend_gap none seq reason = some (record { from_seq = seq; to_seq = seq; reason = reason })
extend_gap (some g) seq reason =
    some (record g { from_seq = min g.from_seq seq; to_seq = max g.to_seq seq })

unfoldable pub restore_gap : Option PendingGap → PendingGap → Option PendingGap
restore_gap none gap = some gap
restore_gap (some existing) gap = some (merge_gaps existing gap)

-- What `try_send` answers.
pub data Sent : Type 0 where
  queued : Recorder → Sent
  full : Sent
  task_gone : Sent

unfoldable pub try_send : Command → Recorder → Sent
try_send cmd r =
    if r.running
    then if ltb (length r.queue) queue_capacity
      then queued (record r { queue = r.queue ++ cmd ∷ [] })
      else full
    else task_gone

-- The gap goes back when its command did not fit in the queue.
unfoldable pub give_back : Option PendingGap → Option PendingGap → Option PendingGap
give_back none slot = slot
give_back (some gap) slot = restore_gap slot gap

unfoldable pub after_frame : ℕ → Option PendingGap → Recorder → Sent → Recorder
after_frame seq gap taken (queued r) = r
after_frame seq gap taken full = record taken {
  pending_gap = extend_gap (give_back gap taken.pending_gap) seq writer_overflow;
}
after_frame seq gap taken task_gone = taken

unfoldable pub record_output : RecordingWriterConfig → ℕ → List ℕ → Recorder → Recorder
record_output c seq bytes r =
    let taken = record r { pending_gap = none } in
    if ltb c.chunk_hard_cap_bytes (length bytes)
    then record r { pending_gap = extend_gap r.pending_gap seq frame_oversized }
    else after_frame seq r.pending_gap taken (try_send (output seq bytes r.pending_gap) taken)

unfoldable pub after_marker : Recorder → Sent → Recorder
after_marker before (queued r) = r
after_marker before full = before
after_marker before task_gone = before

unfoldable pub record_marker : MarkerKind → ℕ → MarkerPayload → Recorder → Recorder
record_marker kind seq payload r =
    if leb seq 0 && not (allows_seq_zero kind)
    then r
    else if fits_i64 seq
    then after_marker r (try_send (mark kind seq payload) r)
    else r

abbrev pub idle_recorder : Recorder
idle_recorder = record { pending_gap = none; queue = []; task = idle_task; running = true }

-- `RecordingWriter::enabled`: the `started` marker is the first command.
unfoldable pub enabled : Recorder
enabled = after_marker idle_recorder (try_send (mark started 0 empty_object) idle_recorder)

unfoldable pub recv_next : RecordingWriterConfig → Accepts → List Command → Recorder → Recorder
recv_next c accepts [] r = r
recv_next c accepts (output seq bytes gap ∷ rest) r = record r {
  queue = rest;
  task = on_output c accepts seq bytes gap r.task;
}
recv_next c accepts (mark kind seq payload ∷ rest) r = record r {
  queue = rest;
  task = on_marker accepts kind seq payload r.task;
}
recv_next c accepts (shutdown last_seq ∷ rest) r = record r {
  queue = [];
  task = on_shutdown c accepts last_seq rest r.task;
  running = false;
}

-- One turn of the loop, when there is a command to receive.
unfoldable pub recv : RecordingWriterConfig → Accepts → Recorder → Recorder
recv c accepts r = recv_next c accepts r.queue r

-- `shutdown`, which waits for room in the queue and then for the task to end.
unfoldable pub shut_down : RecordingWriterConfig → Accepts → ℕ → Recorder → Recorder
shut_down c accepts last_seq r =
    if r.running
    then record r {
      queue = [];
      task = writer_task c accepts (r.queue ++ shutdown (min last_seq (2 ^ 63 - 1)) ∷ []) r.task;
      running = false;
    }
    else r

-- Every clone of the writer is dropped without a shutdown.
unfoldable pub drop_senders : RecordingWriterConfig → Accepts → Recorder → Recorder
drop_senders c accepts r =
    if r.running
    then record r { queue = []; task = writer_task c accepts r.queue r.task; running = false }
    else r

-- What can happen to a recorder before it is shut down.
pub data Event : Type 0 where
  frame : List ℕ → Event
  note : MarkerKind → ℕ → MarkerPayload → Event
  turn : Event

-- The forwarder numbers its frames one after the other; `n` is the last number it gave.
unfoldable pub run : RecordingWriterConfig → Accepts → List Event → ℕ → Recorder → ℕ × Recorder
run c accepts [] n r = (n, r)
run c accepts (frame bytes ∷ rest) n r =
    run c accepts rest (suc n) (record_output c (suc n) bytes r)
run c accepts (note kind seq payload ∷ rest) n r =
    run c accepts rest n (record_marker kind seq payload r)
run c accepts (turn ∷ rest) n r = run c accepts rest n (recv c accepts r)
