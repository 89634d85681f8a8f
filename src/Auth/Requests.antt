-- ===== src/Auth/Requests.antt =====
-- The bodies of the requests and their validation, crates/relayterm-api/src/dto/auth.rs.
use relay_term.Prelude.{
  ℕ, Bool, false, not, ◌||◌, [], ◌∷◌, if◌then◌else◌, ltb, ◌==◌, length, keep_if,
}
use relay_term.Prelude.Calls.{pure, fail, ◌>>◌}
use relay_term.Auth.{Text, UserSession, validation}
use relay_term.Auth.Text.{byte_length}
use relay_term.Auth.Service.{is_revoked, is_expired_at}
use relay_term.Auth.Guards.{Api}

abbrev password_min_len : ℕ
password_min_len = 12

abbrev password_max_len : ℕ
password_max_len = 1024

abbrev email_max_len : ℕ
email_max_len = 320

abbrev display_name_max_len : ℕ
display_name_max_len = 200

abbrev bootstrap_token_max_len : ℕ
bootstrap_token_max_len = 4096

pub record BootstrapRequest : Type 0 where
  pub bootstrap_token : Text
  pub email : Text
  pub display_name : Text
  pub password : Text

pub record LoginRequest : Type 0 where
  pub email : Text
  pub password : Text

pub record ChangePasswordRequest : Type 0 where
  pub current_password : Text
  pub new_password : Text

unfoldable pub invalid_if : Bool → Api (Unit {0})
invalid_if bad = if bad then fail validation else pure tt

unfoldable pub validate_password : Text → Api (Unit {0})
validate_password value =
    invalid_if
      (ltb (byte_length value) password_min_len || ltb password_max_len (byte_length value))

unfoldable pub starts_with_at : Text → Bool
starts_with_at [] = false
starts_with_at (c ∷ cs) = c == 64

unfoldable pub ends_with_at : Text → Bool
ends_with_at [] = false
ends_with_at (c ∷ []) = c == 64
ends_with_at (c ∷ d ∷ ds) = ends_with_at (d ∷ ds)

unfoldable pub validate_email : Text → Api (Unit {0})
validate_email value = do
  invalid_if ((byte_length value == 0) || ltb email_max_len (byte_length value))
  invalid_if (
      not (length (keep_if (λ c. c == 64) value) == 1)
      || starts_with_at value
      || ends_with_at value)

unfoldable pub validate_display_name : Text → Api (Unit {0})
validate_display_name value =
    invalid_if ((byte_length value == 0) || ltb display_name_max_len (byte_length value))

unfoldable pub validate_bootstrap_token_len : Text → Api (Unit {0})
validate_bootstrap_token_len value =
    invalid_if ((byte_length value == 0) || ltb bootstrap_token_max_len (byte_length value))

unfoldable pub validated_bootstrap : BootstrapRequest → Api (Unit {0})
validated_bootstrap req = do
  validate_bootstrap_token_len req.bootstrap_token
  validate_email req.email
  validate_display_name req.display_name
  validate_password req.password

unfoldable pub validated_login : LoginRequest → Api (Unit {0})
validated_login req = do validate_email req.email; validate_password req.password

unfoldable pub validated_change : ChangePasswordRequest → Api (Unit {0})
validated_change req = do
  invalid_if (
      (byte_length req.current_password == 0)
      || ltb password_max_len (byte_length req.current_password))
  validate_password req.new_password

pub data SessionStatus : Type 0 where
  active expired revoked : SessionStatus

-- `SessionListItem::from_row`.
unfoldable pub status_of : UserSession → ℕ → SessionStatus
status_of row now =
    if is_revoked row then revoked else if is_expired_at row now then expired else active
