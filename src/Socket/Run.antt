-- ===== src/Socket/Run.antt =====
-- The attach of a socket, its loop and what follows it: `ws_attach` and `run_attached_socket` of
-- crates/relayterm-api/src/routes/v1/terminal_sessions.rs, beside the forwarder of the session
-- (`forward_pty_output`, crates/relayterm-terminal/src/manager.rs), which first puts a frame into the
-- replay buffer and then broadcasts it. The turns of a run are in any order.
use relay_term.Prelude.{
  ℕ, Bool, true, false, not, ◌||◌, Option, none, some, List, [], ◌∷◌, ◌++◌, if◌then◌else◌, leb,
  take, drop, is_some, ℕ_discrete,
}
use relay_term.Prelude.Assoc.{get}
use relay_term.Replay.{OutputFrame}
use relay_term.Manager.{Manager, M, RuntimeEntry, LiveRuntime, owned_session}
use relay_term.Manager
use relay_term.Manager.Lifecycle.{if_open}
use relay_term.Manager.Attach.{AttachOutcome, attach_session, detach_session, detach_attachment}
use relay_term.Manager.Pty.{forward}
use relay_term.Socket.{
  Connection, SocketState, Peer, Outside, SessionAttachStatus, attached_stub, active,
  session_attached, close_frame, W, ◌>>=◌, ◌>>◌, pure, read, update, call, send, send_msg,
  send_error, send_binary_output,
}
use relay_term.Socket.Handlers.{Received, handle_recv_outcome}

abbrev pub max_client_info_len : ℕ
max_client_info_len = 256

abbrev pub cut_client_info : Option (List ℕ) → Option (List ℕ)
cut_client_info none = none
cut_client_info (some s) = some (take max_client_info_len s)

-- Before the upgrade: the session is the caller's and open.
unfoldable pub upgrade_gate : Peer → M (Unit {0})
upgrade_gate p = Manager.◌>>=◌ (owned_session p.user_id p.session_id) if_open

unfoldable pub status_of : Option LiveRuntime → SessionAttachStatus
status_of none = attached_stub
status_of (some l) = active

-- The subscription starts with an empty queue.
unfoldable pub subscription : Option LiveRuntime → Option (List OutputFrame)
subscription none = none
subscription (some l) = some []

abbrev pub attached_state : AttachOutcome → SocketState
attached_state out = record {
  attachment_id = out.attachment.id;
  detached = false;
  closed = false;
  live = subscription out.live;
  replay_handshake_done = false;
  min_live_seq = 0;
}

-- Whether the loop starts. When the answer cannot be sent, only the row is detached.
unfoldable pub acknowledged : Outside → Peer → AttachOutcome → Bool → W Bool
acknowledged out p outcome true = update (λ _. attached_state outcome) >> pure true
acknowledged out p outcome false =
    call (detach_session p.user_id p.session_id outcome.attachment.id none out.now) >> pure false

unfoldable pub greet : Outside → Peer → Manager.Result AttachOutcome → W Bool
greet out p (Manager.err e) = send_error e >> send close_frame >> pure false
greet out p (Manager.ok outcome) = do
  sent ←
      send_msg (session_attached outcome.session.id outcome.attachment.id (status_of outcome.live))
  acknowledged out p outcome sent

-- `id` is the UUID that the database draws for the attachment.
unfoldable pub attach_socket : Outside → Peer → ℕ → Option (List ℕ) → W Bool
attach_socket out p id client_info = do
  outcome ← call (
      attach_session id out.now (record {
        owner_id = p.user_id;
        session_id = p.session_id;
        client_info = cut_client_info client_info;
        remote_addr = none;
      }))
  greet out p outcome

-- The queue's first frame, if the loop waits for one and one is there.
unfoldable pub next_frame : Option (List OutputFrame) → W Bool
next_frame none = pure true
next_frame (some []) = pure true
next_frame (some (f ∷ fs)) = do
  update (λ s. record s { live = some fs })
  floor ← read (λ s. s.min_live_seq)
  if leb f.seq floor then pure true else send_binary_output f

unfoldable pub drop_frames : ℕ → Option (List OutputFrame) → Option (List OutputFrame)
drop_frames n none = none
drop_frames n (some fs) = some (drop n fs)

-- After the loop.
unfoldable pub cleanup : Outside → Peer → W (Unit {0})
cleanup out p = do
  left ← read (λ s. s.detached || s.closed)
  id ← read (λ s. s.attachment_id)
  if left
      then pure tt
      else (call (detach_attachment p.user_id p.session_id id none out.now) >> pure tt)

unfoldable pub go_on : Outside → Peer → Bool → W Bool
go_on out p true = pure true
go_on out p false = cleanup out p >> pure false

-- A run: the connection, whether its loop runs, and the frames in the replay buffer that are not yet
-- broadcast.
pub record Running : Type 0 where
  pub connection : Connection
  pub running : Bool
  pub unsent : List OutputFrame

-- A frame of the client, a frame of the queue, the loss of the oldest frames of the queue, the end of the
-- broadcast; a chunk of output, and the broadcast of one frame.
pub data Turn : Type 0 where
  client : Received → Turn
  pty_frame pty_closed : Turn
  lagged : ℕ → Turn
  output : List ℕ → Turn
  broadcast : Turn

unfoldable pub loop_turn : Outside → Peer → W Bool → Running → Running
loop_turn out p c r =
    if r.running
    then (let s = (c >>= go_on out p) r.connection in record r { connection = s.1; running = s.0 })
    else r

unfoldable pub frame_of : List ℕ → Option RuntimeEntry → List OutputFrame
frame_of bytes none = []
frame_of bytes (some e) =
    if is_some e.live then record { seq = e.next_seq; bytes = bytes } ∷ [] else []

unfoldable pub enqueue : OutputFrame → Option (List OutputFrame) → Option (List OutputFrame)
enqueue f none = none
enqueue f (some fs) = some (fs ++ f ∷ [])

abbrev pub receive_frame : OutputFrame → Connection → Connection
receive_frame f s = record s { state = record s.state { live = enqueue f s.state.live } }

unfoldable pub broadcast_first : List OutputFrame → Running → Running
broadcast_first [] r = r
broadcast_first (f ∷ fs) r = record r { connection = receive_frame f r.connection; unsent = fs }

unfoldable pub turn : Outside → Peer → Turn → Running → Running
turn out p (client m) r = loop_turn out p (handle_recv_outcome out p m) r
turn out p pty_frame r = loop_turn out p (λ s. next_frame s.state.live s) r
turn out p pty_closed r = loop_turn out p (read (λ s. not (is_some s.live))) r
turn out p (lagged n) r =
    loop_turn out p (update (λ s. record s { live = drop_frames n s.live }) >> pure true) r
turn out p (output bytes) r = record r {
  connection = record r.connection { manager = forward p.session_id bytes r.connection.manager };
  unsent = r.unsent ++ frame_of bytes (get ℕ_discrete p.session_id r.connection.manager.runtimes);
}
turn out p broadcast r = broadcast_first r.unsent r

unfoldable pub run : Outside → Peer → List Turn → Running → Running
run out p [] r = r
run out p (t ∷ ts) r = run out p ts (turn out p t r)
