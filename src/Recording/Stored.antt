-- ===== src/Recording/Stored.antt =====
-- The recording task stores the bytes of the frames in their order, in chunks of a bounded size,
-- crates/relayterm-terminal/src/recording.rs.
use relay_term.Prelude.{
  ℕ, ◌^◌, ◌<◌, ◌≡◌, ap, sym, ◌∙◌, Option, List, [], ◌∷◌, ◌++◌, append-nil, append_assoc, arith,
}
use relay_term.Recording.{
  RecordingWriterConfig, PendingGap, MarkerKind, MarkerPayload, marker, Accepts, Command, output,
  mark, shutdown, TaskState, idle_task,
}
use relay_term.Recording.Task.{
  flush_open, observe, on_output, put_marker, on_marker, drain, on_shutdown, on_senders_dropped,
  writer_task,
}
use relay_term.Recording.Covers.{BatchOk-later, StoresMarkers}
use relay_term.Recording.Holds.{TaskOk}
use relay_term.Recording.Steps.{put_marker-TaskOk}
use relay_term.Recording.Queue.{QueueOk, QueueOk-le, head-TaskOk}
use relay_term.Recording.Bytes.{
  stored_bytes, contents, StoresAll, bytes_of, on_output-contents, put_marker-contents,
}

module _ (c : RecordingWriterConfig) (accepts : Accepts) (all : StoresAll accepts)
    (w : c.chunk_hard_cap_bytes < 2 ^ 31) where
  markers : StoresMarkers accepts
  markers log m = all log (marker m)

  head-contents :
      (last final seq : ℕ) (bytes : List ℕ) (gap : Option PendingGap) (qs : List Command)
      (t : TaskState)
      → final < 2 ^ 63
      → TaskOk c last t
      → QueueOk last final (output seq bytes gap ∷ qs)
      → contents (on_output c accepts seq bytes gap t) ++ bytes_of c qs
        ≡ contents t ++ bytes_of c (output seq bytes gap ∷ qs)
  head-contents last final seq bytes gap qs t v ok (le, p, g, q) =
      ap (λ l. l ++ bytes_of c qs)
        (on_output-contents c accepts all w last seq bytes gap t
          (omega (arith, QueueOk-le seq final qs q)) le p ok)
      ∙ append_assoc (contents t) _ _

  drain-contents :
      (last final : ℕ) (qs : List Command) (t : TaskState)
      → final < 2 ^ 63
      → TaskOk c last t
      → QueueOk last final qs
      → contents (drain c accepts qs t) ≡ contents t ++ bytes_of c qs
  unfolding drain
  drain-contents last final [] t v ok q = sym (append-nil _)
  drain-contents last final (output seq bytes gap ∷ qs) t v ok q =
      drain-contents seq final qs _ v
        (head-TaskOk c accepts markers w last final seq bytes gap qs t v ok q) q.3
      ∙ head-contents last final seq bytes gap qs t v ok q
  drain-contents last final (mark kind seq payload ∷ qs) t v ok q =
      drain-contents last final qs _ v
        (put_marker-TaskOk c accepts markers w kind seq payload last t) q
      ∙ ap (λ l. l ++ bytes_of c qs)
          (put_marker-contents c accepts all w kind seq payload last t
            (omega (arith, QueueOk-le last final qs q)) ok)
  drain-contents last final (shutdown last_seq ∷ qs) t v ok q =
      drain-contents last final qs t v ok q

  drain-TaskOk :
      (last final : ℕ) (qs : List Command) (t : TaskState)
      → final < 2 ^ 63
      → TaskOk c last t
      → QueueOk last final qs
      → TaskOk c final (drain c accepts qs t)
  unfolding drain
  drain-TaskOk last final [] t v ok q = BatchOk-later _ last final t.batch q ok
  drain-TaskOk last final (output seq bytes gap ∷ qs) t v ok q =
      drain-TaskOk seq final qs _ v
        (head-TaskOk c accepts markers w last final seq bytes gap qs t v ok q) q.3
  drain-TaskOk last final (mark kind seq payload ∷ qs) t v ok q =
      drain-TaskOk last final qs _ v (put_marker-TaskOk c accepts markers w kind seq payload last t)
        q
  drain-TaskOk last final (shutdown last_seq ∷ qs) t v ok q = drain-TaskOk last final qs t v ok q

  -- The last marker leaves no open batch.
  closing-bytes :
      (kind : MarkerKind) (seq : ℕ) (payload : MarkerPayload) (last : ℕ) (t : TaskState)
      → last < 2 ^ 63
      → TaskOk c last t
      → stored_bytes (put_marker accepts kind seq payload t).log ≡ contents t
  unfolding put_marker flush_open
  closing-bytes kind seq payload last t v ok =
      sym (append-nil _) ∙ put_marker-contents c accepts all w kind seq payload last t v ok

  writer_task-bytes :
      (last final : ℕ) (qs : List Command) (t : TaskState)
      → final < 2 ^ 63
      → TaskOk c last t
      → QueueOk last final qs
      → stored_bytes (writer_task c accepts qs t).log ≡ contents t ++ bytes_of c qs
  unfolding writer_task on_senders_dropped on_shutdown on_marker observe
  writer_task-bytes last final [] t v ok q =
      closing-bytes _ _ _ last t (omega arith) ok ∙ sym (append-nil _)
  writer_task-bytes last final (output seq bytes gap ∷ qs) t v ok q =
      writer_task-bytes seq final qs _ v
        (head-TaskOk c accepts markers w last final seq bytes gap qs t v ok q) q.3
      ∙ head-contents last final seq bytes gap qs t v ok q
  writer_task-bytes last final (mark kind seq payload ∷ qs) t v ok q =
      writer_task-bytes last final qs _ v
        (put_marker-TaskOk c accepts markers w kind seq payload last t) q
      ∙ ap (λ l. l ++ bytes_of c qs)
          (put_marker-contents c accepts all w kind seq payload last t
            (omega (arith, QueueOk-le last final qs q)) ok)
  writer_task-bytes last final (shutdown last_seq ∷ qs) t v ok q =
      closing-bytes _ _ _ final _ v (drain-TaskOk last final qs t v ok q)
      ∙ drain-contents last final qs t v ok q

-- With a repository that stores all rows, the stored chunks hold, one after the other, exactly the
-- bytes of the frames in the queue, less those above the cap, and whatever the target size of a chunk
-- is. The frames in the queue have bytes, their numbers do not fall and end at most at `final`, which is
-- below 2^63, a gap that a frame brings ends at most at its number, and the cap on a chunk is below 2^31.
pub task_stores_output :
    (c : RecordingWriterConfig) (accepts : Accepts) (final : ℕ) (qs : List Command)
    → StoresAll accepts
    → c.chunk_hard_cap_bytes < 2 ^ 31
    → final < 2 ^ 63
    → QueueOk 0 final qs
    → stored_bytes (writer_task c accepts qs idle_task).log ≡ bytes_of c qs
task_stores_output c accepts final qs all w v q =
    writer_task-bytes c accepts all w 0 final qs idle_task v tt q
