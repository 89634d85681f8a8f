-- ===== src/Auth/Serve.antt =====
-- Sequences of requests to the login routes, crates/relayterm-api/src/routes/v1/auth.rs. A request runs
-- whole, so a list of requests is one order in which the server takes them.
use relay_term.Prelude.{ℕ, List, [], ◌∷◌}
use relay_term.Auth.{UserSession, Server, Crypto, Drawn}
use relay_term.Auth.Guards.{Headers}
use relay_term.Auth.Requests.{BootstrapRequest, LoginRequest, ChangePasswordRequest}
use relay_term.Auth.Login
use relay_term.Auth.Account
use relay_term.Auth.Rules.{RowRule, Rows}
use relay_term.Auth.Rules.Login.{bootstrap-Rows, login-Rows}
use relay_term.Auth.Rules.Handlers.{
  logout-Rows, me-Rows, change_password-Rows, revoke_route-Rows, revoke_all_except_current-Rows,
}

pub data Request : Type 0 where
  bootstrap : Headers → BootstrapRequest → Drawn → Request
  login : Headers → LoginRequest → Drawn → Request
  logout : Headers → ℕ → Request
  me : Headers → ℕ → Request
  change_password : Headers → ChangePasswordRequest → Drawn → Request
  revoke_session : Headers → ℕ → ℕ → Request
  revoke_all_except_current : Headers → ℕ → Request

unfoldable pub serve : Crypto → Request → Server → Server
serve lib (bootstrap h req d) s = (Login.bootstrap lib h req d s).1
serve lib (login h req d) s = (Login.login lib h req d s).1
serve lib (logout h now) s = (Account.logout lib h now s).1
serve lib (me h now) s = (Account.me lib h now s).1
serve lib (change_password h req d) s = (Account.change_password lib h req d s).1
serve lib (revoke_session h id now) s = (Account.revoke_session lib h id now s).1
serve lib (revoke_all_except_current h now) s = (Account.revoke_all_except_current lib h now s).1

unfoldable pub serve_all : Crypto → List Request → Server → Server
serve_all lib [] s = s
serve_all lib (r ∷ rs) s = serve_all lib rs (serve lib r s)

module _ {Q : List (ℕ × UserSession) → Type 0} (rule : RowRule Q) (lib : Crypto) where
  serve-Rows : (r : Request) (s : Server) → Rows Q s → Rows Q (serve lib r s)
  unfolding serve
  serve-Rows (bootstrap h req d) = (bootstrap-Rows rule lib h req d).at
  serve-Rows (login h req d) = (login-Rows rule lib h req d).at
  serve-Rows (logout h now) = (logout-Rows rule lib h now).at
  serve-Rows (me h now) = (me-Rows rule lib h now).at
  serve-Rows (change_password h req d) = (change_password-Rows rule lib h req d).at
  serve-Rows (revoke_session h id now) = (revoke_route-Rows rule lib h id now).at
  serve-Rows (revoke_all_except_current h now) = (revoke_all_except_current-Rows rule lib h now).at

  pub serve_all-Rows : (rs : List Request) (s : Server) → Rows Q s → Rows Q (serve_all lib rs s)
  unfolding serve_all
  serve_all-Rows [] s h = h
  serve_all-Rows (r ∷ rs) s h = serve_all-Rows rs (serve lib r s) (serve-Rows r s h)
