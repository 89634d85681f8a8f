-- ===== src/Auth/Rules/Login.antt =====
-- The requests' validation, the bootstrap and the login keep what a new row and tame changes keep,
-- crates/relayterm-api/src/routes/v1/auth.rs.
use relay_term.Prelude.{ℕ, refl, Option, none, some, List}
use relay_term.Prelude.Calls.{Result, ok, err, Keeps, update}
use relay_term.Throttle.{LoginThrottler, ThrottleDecision, allowed}
use relay_term.Throttle
use relay_term.Auth
use relay_term.Auth.{
  AuditEventKind, Text, User, PasswordCredential, UserSession, Server, RevokedReason,
  AuthServiceError, Crypto, Drawn, crypto, repository, invalid_credentials, session_invalid,
  session_expired, session_revoked,
}
use relay_term.Auth.Guards.{Headers}
use relay_term.Auth.Requests
use relay_term.Auth.Login
use relay_term.Auth.Login.{Cookie}
use relay_term.Auth.Rules.{RowRule, Rows, update_other-Rows}
use relay_term.Auth.Rules.Service.{
  table_rules, set_password-Rows, verify_password-Rows, create_session-Rows,
}

module _ {Q : List (ℕ × UserSession) → Type 0} (rule : RowRule Q) where
  pub throttled-Rows :
      {E : Type 0} (f : Server → LoginThrottler Text)
      → Keeps (Rows Q) (update {E = E} (λ s. record s { throttler = f s }))
  throttled-Rows f = update_other-Rows Q _ (λ s. refl)

  pub best_effort-Rows :
      (actor : Option ℕ) (kind : Auth.AuditEventKind)
      → Keeps (Rows Q) (Login.write_audit_best_effort actor kind)
  unfolding Login.write_audit_best_effort
  best_effort-Rows actor kind = search table_rules

  pub create_first_user-Rows :
      (lib : Crypto) (req : Requests.BootstrapRequest) (d : Drawn)
      → Keeps (Rows Q) (Login.create_first_user lib req d)
  unfolding Login.create_first_user
  create_first_user-Rows lib req d = search (table_rules, set_password-Rows) depth 12

  pub bootstrap-Rows :
      (lib : Crypto) (h : Headers) (req : Requests.BootstrapRequest) (d : Drawn)
      → Keeps (Rows Q) (Login.bootstrap lib h req d)
  unfolding Login.bootstrap
  bootstrap-Rows lib h req d =
      search (table_rules, best_effort-Rows, create_first_user-Rows) depth 12

  pub verify_user-Rows :
      (lib : Crypto) (password : Text) (o : Option User)
      → Keeps (Rows Q) (Login.verify_user lib password o)
  unfolding Login.verify_user
  verify_user-Rows lib password none = search table_rules
  verify_user-Rows lib password (some u) = search (table_rules, verify_password-Rows)

  pub open_session-Rows :
      (lib : Crypto) (key : Text) (d : Drawn) (u : User)
      → Keeps (Rows Q) (Login.open_session lib key d u)
  unfolding Login.open_session
  open_session-Rows lib key d u = search (table_rules, create_session-Rows, throttled-Rows) depth 12

  pub after_verify-Rows :
      (lib : Crypto) (key : Text) (d : Drawn) (r : Result AuthServiceError User)
      → Keeps (Rows Q) (Login.after_verify lib key d r)
  unfolding Login.after_verify
  after_verify-Rows lib key d (ok u) = search (table_rules, open_session-Rows) depth 12
  after_verify-Rows lib key d (err e) =
      search (table_rules, throttled-Rows, best_effort-Rows) depth 12

  pub after_check-Rows :
      (lib : Crypto) (req : Requests.LoginRequest) (key : Text) (d : Drawn) (t : ThrottleDecision)
      → Keeps (Rows Q) (Login.after_check lib req key d t)
  unfolding Login.after_check
  after_check-Rows lib req key d allowed = search (table_rules, verify_user-Rows, after_verify-Rows)
  after_check-Rows lib req key d (Throttle.throttled w) = search (table_rules, best_effort-Rows)

  pub login-Rows :
      (lib : Crypto) (h : Headers) (req : Requests.LoginRequest) (d : Drawn)
      → Keeps (Rows Q) (Login.login lib h req d)
  unfolding Login.login
  login-Rows lib h req d = search (table_rules, after_check-Rows) depth 12
