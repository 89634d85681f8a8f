-- ===== src/Launch/Serve.antt =====
-- A backend that serves requests, one after the other: the launch of crates/relayterm-api/src/routes/v1/terminal_sessions.rs,
-- and what crates/relayterm-terminal/src/manager.rs does for the clients and by itself.
use relay_term.Prelude.{ℕ, Option, List, [], ◌∷◌}
use relay_term.Manager.{ClosedReason}
use relay_term.Manager.Lifecycle.{close_session}
use relay_term.Manager.Attach.{
  AttachRequest, attach_session, detach_session, detach_attachment, resize_session,
  expire_detach_close,
}
use relay_term.Manager.Pty.{forward, tear_down}
use relay_term.Launch.{Services, Backend, ask}
use relay_term.Launch.Create.{CreateTerminalSessionRequest, launch}

pub data Request : Type 0 where
  post_session : ℕ → ℕ → ℕ → CreateTerminalSessionRequest → Request
  close : ℕ → ℕ → ℕ → Request
  attach : ℕ → ℕ → AttachRequest → Request
  detach : ℕ → ℕ → ℕ → Option ℕ → ℕ → Request
  detach_row : ℕ → ℕ → ℕ → Option ℕ → ℕ → Request
  resize : ℕ → ℕ → ℕ → ℕ → List ℕ → Request
  expire : ℕ → ℕ → ℕ → Request
  output : ℕ → List ℕ → Request
  end_output : ℕ → ℕ → Option ClosedReason → ℕ → Request

unfoldable pub serve : Services → Request → Backend → Backend
serve services (post_session user_id id now req) s = (launch services user_id id now req s).1
serve services (close id user_id now) s = (ask (close_session id user_id now) s).1
serve services (attach id now req) s = (ask (attach_session id now req) s).1
serve services (detach user_id session_id id seen now) s =
    (ask (detach_attachment user_id session_id id seen now) s).1
serve services (detach_row user_id session_id id seen now) s =
    (ask (detach_session user_id session_id id seen now) s).1
serve services (resize user_id id cols rows json) s =
    (ask (resize_session user_id id cols rows json) s).1
serve services (expire id user_id now) s = (ask (expire_detach_close id user_id now) s).1
serve services (output id bytes) s = record s { manager = forward id bytes s.manager }
serve services (end_output id user_id reason now) s = (ask (tear_down id user_id reason now) s).1

unfoldable pub serve_all : Services → List Request → Backend → Backend
serve_all services [] s = s
serve_all services (r ∷ rs) s = serve_all services rs (serve services r s)
