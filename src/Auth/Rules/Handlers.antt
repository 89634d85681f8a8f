-- ===== src/Auth/Rules/Handlers.antt =====
-- The requests of a user who is logged in keep what a new row and tame changes keep,
-- crates/relayterm-api/src/routes/v1/auth.rs.
use relay_term.Prelude.{ℕ, Option, none, some, List}
use relay_term.Prelude.Calls.{Result, ok, err, Keeps}
use relay_term.Auth.{
  Text, UserSession, AuthServiceError, Crypto, Drawn, crypto, repository, invalid_credentials,
  session_invalid, session_expired, session_revoked,
}
use relay_term.Auth.Guards.{Headers}
use relay_term.Auth.Requests
use relay_term.Auth.Login.{Cookie}
use relay_term.Auth.Account
use relay_term.Auth.Rules.{RowRule, Rows}
use relay_term.Auth.Rules.Service.{
  table_rules, set_password-Rows, verify_password-Rows, validate_session_token-Rows,
  revoke_session-Rows, revoke_session_for_user-Rows, revoke_all_sessions_except-Rows,
  authenticate-Rows,
}

module _ {Q : List (ℕ × UserSession) → Type 0} (rule : RowRule Q) where
  pub logged_out-Rows :
      (session : UserSession) (now : ℕ) (clear : Cookie) (r : Result AuthServiceError (Unit {0}))
      → Keeps (Rows Q) (Account.logged_out session now clear r)
  unfolding Account.logged_out
  logged_out-Rows session now clear (ok u) = search table_rules
  logged_out-Rows session now clear (err session_invalid) = search table_rules
  logged_out-Rows session now clear (err invalid_credentials) = search table_rules
  logged_out-Rows session now clear (err session_expired) = search table_rules
  logged_out-Rows session now clear (err session_revoked) = search table_rules
  logged_out-Rows session now clear (err crypto) = search table_rules
  logged_out-Rows session now clear (err (repository e)) = search table_rules

  pub logout_validated-Rows :
      (now : ℕ) (clear : Cookie) (r : Result AuthServiceError UserSession)
      → Keeps (Rows Q) (Account.logout_validated now clear r)
  unfolding Account.logout_validated
  logout_validated-Rows now clear (ok session) =
      search (table_rules, revoke_session-Rows, logged_out-Rows)
  logout_validated-Rows now clear (err e) = search table_rules

  pub logout_token-Rows :
      (lib : Crypto) (now : ℕ) (clear : Cookie) (o : Option Text)
      → Keeps (Rows Q) (Account.logout_token lib now clear o)
  unfolding Account.logout_token
  logout_token-Rows lib now clear none = search table_rules
  logout_token-Rows lib now clear (some token) =
      search (table_rules, validate_session_token-Rows, logout_validated-Rows)

  pub logout-Rows :
      (lib : Crypto) (h : Headers) (now : ℕ) → Keeps (Rows Q) (Account.logout lib h now)
  unfolding Account.logout
  logout-Rows lib h now = search (table_rules, logout_token-Rows)

  pub change_password-Rows :
      (lib : Crypto) (h : Headers) (req : Requests.ChangePasswordRequest) (d : Drawn)
      → Keeps (Rows Q) (Account.change_password lib h req d)
  unfolding Account.change_password
  change_password-Rows lib h req d =
      search
        (
          table_rules, authenticate-Rows, verify_password-Rows, set_password-Rows,
          revoke_all_sessions_except-Rows,
        )
        depth 12

  pub revoke_route-Rows :
      (lib : Crypto) (h : Headers) (id now : ℕ)
      → Keeps (Rows Q) (Account.revoke_session lib h id now)
  unfolding Account.revoke_session
  revoke_route-Rows lib h id now =
      search (table_rules, authenticate-Rows, revoke_session_for_user-Rows) depth 12

  pub revoke_all_except_current-Rows :
      (lib : Crypto) (h : Headers) (now : ℕ)
      → Keeps (Rows Q) (Account.revoke_all_except_current lib h now)
  unfolding Account.revoke_all_except_current
  revoke_all_except_current-Rows lib h now =
      search (table_rules, authenticate-Rows, revoke_all_sessions_except-Rows) depth 12

  pub me-Rows : (lib : Crypto) (h : Headers) (now : ℕ) → Keeps (Rows Q) (Account.me lib h now)
  unfolding Account.me
  me-Rows lib h now = search (table_rules, authenticate-Rows)
