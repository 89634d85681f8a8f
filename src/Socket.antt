-- ===== src/Socket.antt =====
-- One WebSocket of a terminal client, crates/relayterm-api/src/routes/v1/terminal_sessions.rs, with the
-- messages of crates/relayterm-protocol/src/lib.rs: the state of the connection and what it sends.
-- The JSON of a message is parsed and printed by a library; a text frame is its parsed message, if it
-- has one. `faults` says of each send to come whether it fails. The receiver of the broadcast is the
-- queue of the frames that it still holds.
pub mod Handlers
pub mod Run
pub mod Stream
pub mod Flow
pub mod Resumed
pub mod Unsent
mod Tests
use relay_term.Prelude.{
  ℕ, max, Bool, true, false, Option, none, some, List, [], ◌∷◌, ◌++◌, if◌then◌else◌,
}
use relay_term.Frame
use relay_term.Frame.{encode_binary_frame}
use relay_term.Replay.{OutputFrame, ReplayRange, ReplayWindowLost}
use relay_term.Manager.{
  Manager, M, ManagerError, invalid_cols, invalid_rows, not_found, pty_start, repository,
}
use relay_term.Manager
use relay_term.Manager.Pty.{HandleAnswer}

pub data ErrorCode : Type 0 where
  invalid_message invalid_input pty_not_implemented pty_not_live ssh_start_failed internal :
      ErrorCode

-- The fixed texts of the errors.
pub data ErrorText : Type 0 where
  invalid_message_text already_attached no_live_pty invalid_dimensions internal_error : ErrorText
  ssh_pty_error invalid_binary_frame output_from_client : ErrorText

pub data SessionAttachStatus : Type 0 where
  attached_stub active : SessionAttachStatus

pub data ClientMsg : Type 0 where
  ping : ClientMsg
  attach : Option ℕ → ClientMsg
  input : List ℕ → ClientMsg
  resize : ℕ → ℕ → ClientMsg
  detach close : ClientMsg

pub data ServerMsg : Type 0 where
  pong : ServerMsg
  session_attached : ℕ → ℕ → SessionAttachStatus → ServerMsg
  ack_resize : ServerMsg
  replay_start : ℕ → ℕ → ServerMsg
  replay_end : ℕ → ServerMsg
  replay_window_lost : ℕ → Option ℕ → ℕ → ServerMsg
  session_detached : ℕ → ℕ → ServerMsg
  session_closed : ℕ → ServerMsg
  error : ErrorCode → ErrorText → ServerMsg

-- What goes out: a text frame, a binary frame, the close.
pub data Sent : Type 0 where
  text : ServerMsg → Sent
  binary : List ℕ → Sent
  close_frame : Sent

pub record WebSocket : Type 0 where
  pub sent : List Sent
  pub faults : List Bool

-- `live` is the queue of the subscription.
pub record SocketState : Type 0 where
  pub attachment_id : ℕ
  pub detached : Bool
  pub closed : Bool
  pub live : Option (List OutputFrame)
  pub replay_handshake_done : Bool
  pub min_live_seq : ℕ

pub record Connection : Type 0 where
  pub manager : Manager
  pub socket : WebSocket
  pub state : SocketState

-- Whose connection it is, and to which session.
pub record Peer : Type 0 where
  pub user_id : ℕ
  pub session_id : ℕ

-- The time, the answers of the PTY's handle, and the text of a size.
pub record Outside : Type 0 where
  pub now : ℕ
  pub write_input : List ℕ → ℕ → HandleAnswer
  pub resize : ℕ → ℕ → ℕ → HandleAnswer
  pub json : ℕ → ℕ → List ℕ

abbrev pub W : Type 0 → Type 0
W A = Connection → A × Connection

infixl 5 ◌>>=◌ ◌>>◌
abbrev pub ◌>>=◌ : {A B : Type 0} → W A → (A → W B) → W B
◌>>=◌ c f s = f (c s).0 (c s).1

abbrev pub ◌>>◌ : {A B : Type 0} → W A → W B → W B
◌>>◌ c d = c >>= λ _. d

abbrev pub pure : {A : Type 0} → A → W A
pure a s = (a, s)

abbrev pub read : {A : Type 0} → (SocketState → A) → W A
read f s = (f s.state, s)

abbrev pub update : (SocketState → SocketState) → W (Unit {0})
update f s = (tt, record s { state = f s.state })

-- A call of the manager.
abbrev pub call : {A : Type 0} → M A → W (Manager.Result A)
call c s = ((c s.manager).0, record s { manager = (c s.manager).1 })

unfoldable pub put : List Bool → Sent → List Sent → Bool × WebSocket
put [] x sent = (true, record { sent = sent ++ x ∷ []; faults = [] })
put (false ∷ rest) x sent = (true, record { sent = sent ++ x ∷ []; faults = rest })
put (true ∷ rest) x sent = (false, record { sent = sent; faults = rest })

-- `socket.send(...).await.is_ok()`.
unfoldable pub send : Sent → W Bool
send x s = let r = put s.socket.faults x s.socket.sent in (r.0, record s { socket = r.1 })

abbrev pub send_msg : ServerMsg → W Bool
send_msg msg = send (text msg)

-- An oversize chunk is dropped, which is no failure.
unfoldable pub send_encoded : Frame.Result (List ℕ) → W Bool
send_encoded (Frame.ok bytes) = send (binary bytes)
send_encoded (Frame.err e) = pure true

unfoldable pub send_binary_output : OutputFrame → W Bool
send_binary_output f = send_encoded (encode_binary_frame Frame.output f.seq f.bytes)

abbrev pub code_of : ManagerError → ErrorCode
code_of invalid_cols = invalid_input
code_of invalid_rows = invalid_input
code_of not_found = internal
code_of Manager.session_closed = internal
code_of Manager.pty_not_live = pty_not_live
code_of pty_start = ssh_start_failed
code_of repository = internal

abbrev pub text_of : ManagerError → ErrorText
text_of invalid_cols = invalid_dimensions
text_of invalid_rows = invalid_dimensions
text_of not_found = internal_error
text_of Manager.session_closed = internal_error
text_of Manager.pty_not_live = no_live_pty
text_of pty_start = ssh_pty_error
text_of repository = internal_error

unfoldable pub send_error : ManagerError → W Bool
send_error e = send_msg (error (code_of e) (text_of e))

-- The loop over the frames of a replay, which a failed send ends.
unfoldable pub send_frames : List OutputFrame → W Bool
send_frames [] = pure true
send_frames (f ∷ fs) = do sent ← send_binary_output f; if sent then send_frames fs else pure false

unfoldable pub last_seq : ℕ → List OutputFrame → ℕ
last_seq seq [] = seq
last_seq seq (f ∷ fs) = last_seq f.seq fs

unfoldable pub emit_replay : ℕ → List OutputFrame → W (Unit {0})
emit_replay latest [] = pure tt
emit_replay latest (f ∷ fs) = do
  started ← send_msg (replay_start f.seq (last_seq f.seq fs))
  sent ← if started then send_frames (f ∷ fs) else pure false
  if sent then (send_msg (replay_end latest) >> pure tt) else pure tt

unfoldable pub emit_replay_range : ReplayRange → W (Unit {0})
emit_replay_range range = emit_replay range.latest_seq range.frames

unfoldable pub emit_replay_window_lost : ReplayWindowLost → W (Unit {0})
emit_replay_window_lost lost =
    send_msg (replay_window_lost lost.requested lost.oldest_available lost.latest) >> pure tt
