-- ===== src/Manager/Pty.antt =====
-- The output and the end of a live PTY (`forward_pty_output`), the input to it, the replay and the
-- counts that the quotas are checked against, crates/relayterm-terminal/src/manager.rs.
-- A step of the forwarder acts on the entry of its session; it ends with the entry. The broadcast to
-- the attached clients is modelled in Socket/Run.
use relay_term.Prelude.{
  ℕ, ◌+◌, ◌%◌, ◌^◌, Bool, true, false, not, ◌&&◌, Option, none, some, List, if◌then◌else◌, ◌==◌,
  is_some, ℕ_discrete,
}
use relay_term.Prelude.Assoc.{get, modify, count_if}
use relay_term.Sessions.{TerminalSession, is_closed, find}
use relay_term.Sessions
use relay_term.Replay.{Replayed, push, replay_since}
use relay_term.Recording.{RecordingWriterConfig, Accepts}
use relay_term.Recording.Producer.{Recorder, record_output}
use relay_term.Manager.{
  RuntimeSessionStatus, starting, LiveRuntime, RuntimeEntry, ClosedReason, pty_teardown, closed,
  Manager, not_found, pty_not_live, pty_start, M, ◌>>=◌, ◌>>◌, pure, fail, read, ignore_error, call,
  update_status, create_event, runtime_view,
}

unfoldable pub tee :
    Option (RecordingWriterConfig × Accepts) → ℕ → List ℕ → Option Recorder → Option Recorder
tee settings seq bytes none = none
tee none seq bytes (some r) = some r
tee (some (c, accepts)) seq bytes (some r) = some (record_output c seq bytes r)

-- One chunk of output gets its number, and goes to the replay buffer and to the recording.
unfoldable pub take_output :
    Option (RecordingWriterConfig × Accepts) → ℕ → List ℕ → LiveRuntime → LiveRuntime
take_output settings seq bytes l = record l {
  replay = push l.replay (record { seq = seq; bytes = bytes });
  last_seq = seq;
  recording = tee settings seq bytes l.recording;
}

unfoldable pub on_live :
    Option (RecordingWriterConfig × Accepts) → ℕ → List ℕ → Option LiveRuntime → Option LiveRuntime
on_live settings seq bytes none = none
on_live settings seq bytes (some l) = some (take_output settings seq bytes l)

unfoldable pub stamp :
    Option (RecordingWriterConfig × Accepts) → List ℕ → RuntimeEntry → RuntimeEntry
stamp settings bytes e = record e {
  next_seq = (e.next_seq + 1) % 2 ^ 64;
  live = on_live settings e.next_seq bytes e.live;
}

-- `SshPtyEvent::Output`.
unfoldable pub forward : ℕ → List ℕ → Manager → Manager
forward id bytes m = record m {
  runtimes = modify ℕ_discrete id (stamp m.settings.recording bytes) m.runtimes;
}

-- `LocalClose` also stands for a channel that ends without a reason.
unfoldable pub reason_or_local : Option ClosedReason → ClosedReason
reason_or_local none = ClosedReason.local_close
reason_or_local (some r) = r

unfoldable pub end_row : ℕ → ℕ → Option ClosedReason → ℕ → Option TerminalSession → M (Unit {0})
end_row id owner_id reason now none = pure tt
end_row id owner_id reason now (some s) =
    if s.owner_id == owner_id && not (is_closed s.status)
    then (do
      ignore_error (update_status id Sessions.closed (some now) now)
      ignore_error (create_event id closed (pty_teardown (reason_or_local reason))))
    else pure tt

-- The end of the forwarder: the row is closed. The registry is left as it is.
unfoldable pub tear_down : ℕ → ℕ → Option ClosedReason → ℕ → M (Unit {0})
tear_down id owner_id reason now =
    ignore_error
      (do found ← call (read (λ m. find id m.store)); end_row id owner_id reason now found)

-- What the PTY's handle answers to a call.
pub data HandleAnswer : Type 0 where
  done bridge_closed failed : HandleAnswer

unfoldable pub if_owner : ℕ → Option RuntimeEntry → M RuntimeEntry
if_owner owner_id none = fail not_found
if_owner owner_id (some e) = if e.snapshot.owner_id == owner_id then pure e else fail not_found

unfoldable pub owned_entry : ℕ → ℕ → M RuntimeEntry
owned_entry owner_id id m = if_owner owner_id (get ℕ_discrete id m.runtimes) m

unfoldable pub if_live : Option LiveRuntime → M ℕ
if_live none = fail pty_not_live
if_live (some l) = pure l.handle

unfoldable pub live_handle_for : ℕ → ℕ → M ℕ
live_handle_for owner_id id = do e ← owned_entry owner_id id; if_live e.live

unfoldable pub write_answer : HandleAnswer → M (Unit {0})
write_answer done = pure tt
write_answer bridge_closed = fail pty_not_live
write_answer failed = fail pty_start

-- `handle.write_input` is a parameter: which handle is written to, and what it answers.
unfoldable pub write_pty_input : (ℕ → HandleAnswer) → ℕ → ℕ → M (Unit {0})
write_pty_input write_input owner_id id = do
  handle ← live_handle_for owner_id id
  write_answer (write_input handle)

unfoldable pub resize_answer : HandleAnswer → M Bool
resize_answer done = pure true
resize_answer bridge_closed = pure false
resize_answer failed = fail pty_start

unfoldable pub resize_live : (ℕ → HandleAnswer) → Option LiveRuntime → M Bool
resize_live resize none = pure false
resize_live resize (some l) = resize_answer (resize l.handle)

unfoldable pub apply_pty_resize : (ℕ → HandleAnswer) → ℕ → ℕ → M Bool
apply_pty_resize resize owner_id id = do e ← owned_entry owner_id id; resize_live resize e.live

unfoldable pub replay_live : Option ℕ → Option LiveRuntime → Option Replayed
replay_live last_seen_seq none = none
replay_live last_seen_seq (some l) = some (replay_since l.replay last_seen_seq)

unfoldable pub replay_session : ℕ → Option ℕ → Manager → Option Replayed
replay_session id last_seen_seq m = replay_live last_seen_seq (runtime_view id m)

unfoldable pub is_starting : RuntimeSessionStatus → Bool
is_starting starting = true
is_starting RuntimeSessionStatus.live = false
is_starting RuntimeSessionStatus.ended = false

unfoldable pub live_of_user : ℕ → RuntimeEntry → Bool
live_of_user owner_id e = (e.snapshot.owner_id == owner_id) && is_some e.live

unfoldable pub starting_of_user : ℕ → RuntimeEntry → Bool
starting_of_user owner_id e =
    (e.snapshot.owner_id == owner_id) && not (is_some e.live) && is_starting e.snapshot.status

unfoldable pub count_live_pty_for_user : ℕ → Manager → ℕ
count_live_pty_for_user owner_id m = count_if (live_of_user owner_id) m.runtimes

unfoldable pub count_starting_for_user : ℕ → Manager → ℕ
count_starting_for_user owner_id m = count_if (starting_of_user owner_id) m.runtimes

unfoldable pub count_live_pty_total : Manager → ℕ
count_live_pty_total m = count_if (λ e. is_some e.live) m.runtimes
