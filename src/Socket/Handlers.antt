-- ===== src/Socket/Handlers.antt =====
-- What a frame of the client does: `handle_text_frame`, `handle_binary_frame` and `handle_recv_outcome`
-- of crates/relayterm-api/src/routes/v1/terminal_sessions.rs. A handler says whether the loop goes on.
use relay_term.Prelude.{
  ℕ, max, Bool, true, false, Option, none, some, List, if◌then◌else◌, ltb, is_some,
}
use relay_term.Frame
use relay_term.Frame.{BinaryFrame, BinaryFrameKind, decode_binary_frame}
use relay_term.Replay.{Replayed}
use relay_term.Replay
use relay_term.Manager
use relay_term.Manager.Lifecycle.{CloseOutcome, close_session}
use relay_term.Manager.Attach.{DetachOutcome, detach_attachment, resize_session}
use relay_term.Manager.Pty.{write_pty_input, apply_pty_resize, replay_session}
use relay_term.Socket.{
  ClientMsg, attach, ping, detach, close, ServerMsg, error, pong, ack_resize, invalid_message,
  pty_not_live, already_attached, no_live_pty, invalid_message_text, invalid_binary_frame,
  output_from_client, close_frame, Connection, Peer, Outside, W, ◌>>=◌, ◌>>◌, pure, read, update,
  call, send, send_msg, send_error, emit_replay_range, emit_replay_window_lost,
}
use relay_term.Socket

-- A bookmark of 0 is none.
unfoldable pub bookmark_of : Option ℕ → Option ℕ
bookmark_of none = none
bookmark_of (some seq) = if ltb 0 seq then some seq else none

abbrev pub raise_floor : ℕ → W (Unit {0})
raise_floor seq = update (λ s. record s { min_live_seq = max s.min_live_seq seq })

-- The floor is raised before the frames go out.
unfoldable pub answer_replay : Option Replayed → W (Unit {0})
answer_replay none = pure tt
answer_replay (some (Replay.ok range)) = raise_floor range.latest_seq >> emit_replay_range range
answer_replay (some (Replay.lost lost)) = raise_floor lost.latest >> emit_replay_window_lost lost

unfoldable pub replay_from : Peer → Option ℕ → W (Unit {0})
replay_from p none = pure tt
replay_from p (some seq) = λ s. answer_replay (replay_session p.session_id (some seq) s.manager) s

unfoldable pub handshake : Peer → Option ℕ → W (Unit {0})
handshake p last_seen_seq = do
  done ← read (λ s. s.replay_handshake_done)
  if done
      then (send_msg (error invalid_message already_attached) >> pure tt)
      else (update (λ s. record s { replay_handshake_done = true })
          >> replay_from p (bookmark_of last_seen_seq))

abbrev pub refuse_not_live : W (Unit {0})
refuse_not_live = send_msg (error pty_not_live no_live_pty) >> pure tt

unfoldable pub report : {A : Type 0} → Manager.Result A → W (Unit {0})
report (Manager.ok a) = pure tt
report (Manager.err e) = send_error e >> pure tt

-- The input of a text frame or of a binary one.
unfoldable pub type_in : Outside → Peer → List ℕ → W (Unit {0})
type_in out p bytes = do
  live ← read (λ s. is_some s.live)
  if live
      then (call (write_pty_input (out.write_input bytes) p.user_id p.session_id) >>= report)
      else refuse_not_live

unfoldable pub resized : Manager.Result Bool → W (Unit {0})
resized (Manager.ok true) = send_msg ack_resize >> pure tt
resized (Manager.ok false) = refuse_not_live
resized (Manager.err e) = send_error e >> pure tt

unfoldable pub then_resize : {A : Type 0} → Outside → Peer → ℕ → ℕ → Manager.Result A → W (Unit {0})
then_resize out p cols rows (Manager.ok a) =
    call (apply_pty_resize (out.resize cols rows) p.user_id p.session_id) >>= resized
then_resize out p cols rows (Manager.err e) = send_error e >> pure tt

unfoldable pub set_size : Outside → Peer → ℕ → ℕ → W (Unit {0})
set_size out p cols rows =
    call (resize_session p.user_id p.session_id cols rows (out.json cols rows))
    >>= then_resize out p cols rows

-- The loop ends when the detach is done, and goes on when it failed.
unfoldable pub detached : Manager.Result DetachOutcome → W Bool
detached (Manager.err e) = send_error e >> pure true
detached (Manager.ok out) = do
  update (λ s. record s { detached = true })
  send_msg (Socket.session_detached out.detach.session.id out.detach.attachment.id)
  send close_frame
  pure false

unfoldable pub leave : Outside → Peer → W Bool
leave out p = do
  id ← read (λ s. s.attachment_id)
  left ← call (detach_attachment p.user_id p.session_id id none out.now)
  detached left

unfoldable pub closed : Manager.Result CloseOutcome → W Bool
closed (Manager.err e) = send_error e >> pure true
closed (Manager.ok out) = do
  update (λ s. record s { detached = true; closed = true })
  send_msg (Socket.session_closed out.session.id)
  send close_frame
  pure false

unfoldable pub handle_msg : Outside → Peer → ClientMsg → W Bool
handle_msg out p ping = send_msg pong >> pure true
handle_msg out p (attach last_seen_seq) = handshake p last_seen_seq >> pure true
handle_msg out p (Socket.input data_) = type_in out p data_ >> pure true
handle_msg out p (Socket.resize cols rows) = set_size out p cols rows >> pure true
handle_msg out p detach = leave out p
handle_msg out p close = call (close_session p.session_id p.user_id out.now) >>= closed

unfoldable pub handle_text_frame : Outside → Peer → Option ClientMsg → W Bool
handle_text_frame out p none = send_msg (error invalid_message invalid_message_text) >> pure true
handle_text_frame out p (some msg) = handle_msg out p msg

unfoldable pub handle_frame : Outside → Peer → BinaryFrameKind → List ℕ → W Bool
handle_frame out p Frame.input payload = type_in out p payload >> pure true
handle_frame out p Frame.output payload =
    send_msg (error invalid_message output_from_client) >> pure true

unfoldable pub handle_decoded : Outside → Peer → Frame.Result BinaryFrame → W Bool
handle_decoded out p (Frame.ok frame) = handle_frame out p frame.kind frame.payload
handle_decoded out p (Frame.err e) =
    send_msg (error invalid_message invalid_binary_frame) >> pure true

unfoldable pub handle_binary_frame : Outside → Peer → List ℕ → W Bool
handle_binary_frame out p bytes = handle_decoded out p (decode_binary_frame bytes)

-- What `socket.recv()` gives.
pub data Received : Type 0 where
  text_frame : Option ClientMsg → Received
  binary_frame : List ℕ → Received
  ping_or_pong close_received transport_error ended : Received

unfoldable pub handle_recv_outcome : Outside → Peer → Received → W Bool
handle_recv_outcome out p (text_frame msg) = handle_text_frame out p msg
handle_recv_outcome out p (binary_frame bytes) = handle_binary_frame out p bytes
handle_recv_outcome out p ping_or_pong = pure true
handle_recv_outcome out p close_received = pure false
handle_recv_outcome out p transport_error = pure false
handle_recv_outcome out p ended = pure false
