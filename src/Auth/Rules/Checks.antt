-- ===== src/Auth/Rules/Checks.antt =====
-- The checks that change nothing keep whatever holds, crates/relayterm-api/src/auth and
-- crates/relayterm-api/src/dto/auth.rs.
use relay_term.Prelude.{ℕ, Bool, Option, none, some, List}
use relay_term.Prelude.Calls.{
  Calls, Result, ok, err, Keeps, keeps_rules, pure, fail, read, update, settle, returned, ◌>>=◌,
}
use relay_term.Auth.{Text, User, PasswordCredential, UserSession, Server, Crypto}
use relay_term.Auth.Service
use relay_term.Auth.Guards
use relay_term.Auth.Guards.{HeaderValue, absent, unreadable, readable, Headers}
use relay_term.Auth.Requests
use relay_term.Auth.Login
use relay_term.Auth.Login.{Cookie}

module _ (P : Server → Type 0) where
  pub hashed-Keeps : (o : Option Text) → Keeps P (Service.hashed o)
  unfolding Service.hashed
  hashed-Keeps none = search keeps_rules
  hashed-Keeps (some hash) = search keeps_rules

  pub check_credential-Keeps :
      (lib : Crypto) (plaintext : Text) (c : Option PasswordCredential)
      → Keeps P (Service.check_credential lib plaintext c)
  unfolding Service.check_credential
  check_credential-Keeps lib plaintext none = search keeps_rules
  check_credential-Keeps lib plaintext (some c) = search keeps_rules

  pub check_session-Keeps :
      (now : ℕ) (o : Option UserSession) → Keeps P (Service.check_session now o)
  unfolding Service.check_session
  check_session-Keeps now none = search keeps_rules
  check_session-Keeps now (some r) = search keeps_rules

  pub check_origin-Keeps :
      (v : HeaderValue) (origins : List Text) → Keeps P (Guards.check_origin v origins)
  unfolding Guards.check_origin
  check_origin-Keeps absent origins = search keeps_rules
  check_origin-Keeps unreadable origins = search keeps_rules
  check_origin-Keeps (readable t) origins = search keeps_rules

  pub csrf_guard-Keeps : (h : Headers) → Keeps P (Guards.csrf_guard h)
  unfolding Guards.csrf_guard
  csrf_guard-Keeps h = search (keeps_rules, check_origin-Keeps)

  pub token_or_unauthorized-Keeps : (o : Option Text) → Keeps P (Guards.token_or_unauthorized o)
  unfolding Guards.token_or_unauthorized
  token_or_unauthorized-Keeps none = search keeps_rules
  token_or_unauthorized-Keeps (some t) = search keeps_rules

  pub user_or_unauthorized-Keeps : (o : Option User) → Keeps P (Guards.user_or_unauthorized o)
  unfolding Guards.user_or_unauthorized
  user_or_unauthorized-Keeps none = search keeps_rules
  user_or_unauthorized-Keeps (some u) = search keeps_rules

  pub invalid_if-Keeps : (b : Bool) → Keeps P (Requests.invalid_if b)
  unfolding Requests.invalid_if
  invalid_if-Keeps b = search keeps_rules

  pub validated_bootstrap-Keeps :
      (req : Requests.BootstrapRequest) → Keeps P (Requests.validated_bootstrap req)
  unfolding Requests.validated_bootstrap Requests.validate_bootstrap_token_len
      Requests.validate_email Requests.validate_display_name Requests.validate_password
  validated_bootstrap-Keeps req = search (keeps_rules, invalid_if-Keeps)

  pub validated_login-Keeps : (req : Requests.LoginRequest) → Keeps P (Requests.validated_login req)
  unfolding Requests.validated_login Requests.validate_email Requests.validate_password
  validated_login-Keeps req = search (keeps_rules, invalid_if-Keeps)

  pub validated_change-Keeps :
      (req : Requests.ChangePasswordRequest) → Keeps P (Requests.validated_change req)
  unfolding Requests.validated_change Requests.validate_password
  validated_change-Keeps req = search (keeps_rules, invalid_if-Keeps)

  pub configured-Keeps : (o : Option Text) → Keeps P (Login.configured o)
  unfolding Login.configured
  configured-Keeps none = search keeps_rules
  configured-Keeps (some t) = search keeps_rules

pub ruleset check_rules = (
  keeps_rules, hashed-Keeps, check_credential-Keeps, check_session-Keeps, check_origin-Keeps,
  csrf_guard-Keeps, token_or_unauthorized-Keeps, user_or_unauthorized-Keeps, invalid_if-Keeps,
  validated_bootstrap-Keeps, validated_login-Keeps, validated_change-Keeps, configured-Keeps,
)
