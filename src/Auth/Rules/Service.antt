-- ===== src/Auth/Rules/Service.antt =====
-- The service and the guards keep what a new row and tame changes keep,
-- crates/relayterm-auth/src/service.rs and crates/relayterm-api/src/auth.
use relay_term.Prelude.{ℕ, Option, List}
use relay_term.Prelude.Calls.{Keeps}
use relay_term.Auth.{Text, UserSession, RevokedReason, Crypto, Drawn}
use relay_term.Auth.UserSessions
use relay_term.Auth.Service
use relay_term.Auth.Guards
use relay_term.Auth.Guards.{HeaderValue, absent, unreadable, readable, Headers}
use relay_term.Auth.Rules.Checks.{check_rules}
use relay_term.Auth.Rules.{
  RowRule, Rows, statement-Rows, update_other-Rows, append_audit-Rows, create_user-Rows,
  get_user-Rows, get_by_email-Rows, touch_last_login-Rows, upsert-Rows, get_for_user-Rows,
  any_exists-Rows,
}
use relay_term.Auth.Rules.Rows.{
  insert_new-Rows, get_by_token_hash-Rows, touch_last_seen-Rows, revoke-Rows, revoke_where-Rows,
  revoke_for_user-Rows,
}

pub ruleset table_rules = (
  check_rules, append_audit-Rows, create_user-Rows, get_user-Rows, get_by_email-Rows,
  touch_last_login-Rows, upsert-Rows, get_for_user-Rows, any_exists-Rows, insert_new-Rows,
  get_by_token_hash-Rows, touch_last_seen-Rows, revoke-Rows, revoke_where-Rows,
  revoke_for_user-Rows,
)

module _ {Q : List (ℕ × UserSession) → Type 0} (rule : RowRule Q) where
  pub set_password-Rows :
      (lib : Crypto) (user_id : ℕ) (plaintext : Text) (d : Drawn)
      → Keeps (Rows Q) (Service.set_password lib user_id plaintext d)
  unfolding Service.set_password
  set_password-Rows lib user_id plaintext d = search table_rules

  pub verify_password-Rows :
      (lib : Crypto) (user_id : ℕ) (plaintext : Text)
      → Keeps (Rows Q) (Service.verify_password lib user_id plaintext)
  unfolding Service.verify_password
  verify_password-Rows lib user_id plaintext = search table_rules

  pub create_session-Rows :
      (lib : Crypto) (user_id ttl : ℕ) (d : Drawn)
      → Keeps (Rows Q) (Service.create_session lib user_id ttl d)
  unfolding Service.create_session
  create_session-Rows lib user_id ttl d = search table_rules

  pub validate_session_token-Rows :
      (lib : Crypto) (token : Text) (now : ℕ)
      → Keeps (Rows Q) (Service.validate_session_token lib token now)
  unfolding Service.validate_session_token
  validate_session_token-Rows lib token now = search table_rules

  pub revoke_session-Rows :
      (id now : ℕ) (reason : Option RevokedReason)
      → Keeps (Rows Q) (Service.revoke_session id now reason)
  unfolding Service.revoke_session
  revoke_session-Rows id now reason = search table_rules

  pub revoke_session_for_user-Rows :
      (user_id id now : ℕ) (reason : Option RevokedReason)
      → Keeps (Rows Q) (Service.revoke_session_for_user user_id id now reason)
  unfolding Service.revoke_session_for_user
  revoke_session_for_user-Rows user_id id now reason = search table_rules

  pub revoke_all_sessions_except-Rows :
      (user_id id now : ℕ) (reason : Option RevokedReason)
      → Keeps (Rows Q) (Service.revoke_all_sessions_except user_id id now reason)
  unfolding Service.revoke_all_sessions_except UserSessions.revoke_all_except
  revoke_all_sessions_except-Rows user_id id now reason = search table_rules

  pub authenticate-Rows :
      (lib : Crypto) (h : Headers) (now : ℕ) → Keeps (Rows Q) (Guards.authenticate lib h now)
  unfolding Guards.authenticate
  authenticate-Rows lib h now = search (table_rules, validate_session_token-Rows) depth 12
