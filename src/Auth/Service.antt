-- ===== src/Auth/Service.antt =====
-- `AuthService`, crates/relayterm-auth/src/service.rs. `anti_timing_verify` changes nothing and gives
-- nothing, and is left out; so is the listing of a user's sessions.
use relay_term.Prelude.{ℕ, ◌+◌, Bool, false, Option, none, some, if◌then◌else◌, leb, is_some}
use relay_term.Prelude.Calls.{Calls, pure, fail, map_err, ◌>>=◌}
use relay_term.Auth.{
  Text, PasswordCredential, UserSession, RevokedReason, Server, RepositoryError, missing_row,
  violated_constraint, broken_row, database, AuthServiceError, invalid_credentials, session_invalid,
  session_expired, session_revoked, crypto, repository, Crypto, Drawn,
}
use relay_term.Auth.Passwords
use relay_term.Auth.UserSessions

abbrev pub Service : Type 0 → Type 0
Service A = Calls Server AuthServiceError A

unfoldable pub hashed : Option Text → Service Text
hashed none = fail crypto
hashed (some hash) = pure hash

unfoldable pub set_password : Crypto → ℕ → Text → Drawn → Service (Unit {0})
set_password lib user_id plaintext d = hashed (lib.hash_password d.salt plaintext) >>= λ hash.
    map_err repository (Passwords.upsert_for_user user_id hash d.now)

-- `unwrap_or(false)`.
unfoldable pub is_match : Option Bool → Bool
is_match none = false
is_match (some b) = b

unfoldable pub check_credential : Crypto → Text → Option PasswordCredential → Service (Unit {0})
check_credential lib plaintext none = fail invalid_credentials
check_credential lib plaintext (some c) =
    if is_match (lib.verify_password plaintext c.password_hash)
    then pure tt
    else fail invalid_credentials

unfoldable pub verify_password : Crypto → ℕ → Text → Service (Unit {0})
verify_password lib user_id plaintext =
    map_err repository (Passwords.get_for_user user_id) >>= check_credential lib plaintext

pub record CreatedSession : Type 0 where
  pub token : Text
  pub session : UserSession

unfoldable pub create_session : Crypto → ℕ → ℕ → Drawn → Service CreatedSession
create_session lib user_id ttl d =
    map_err repository
      (UserSessions.create d.session_id d.now user_id (lib.digest d.token) (d.now + ttl))
    >>= λ session. pure (record { token = d.token; session = session })

unfoldable pub is_revoked : UserSession → Bool
is_revoked r = is_some r.revoked_at

unfoldable pub is_expired_at : UserSession → ℕ → Bool
is_expired_at r now = leb r.expires_at now

unfoldable pub check_session : ℕ → Option UserSession → Service UserSession
check_session now none = fail session_invalid
check_session now (some r) =
    if is_revoked r
    then fail session_revoked
    else if is_expired_at r now
    then fail session_expired
    else pure r

unfoldable pub validate_session_token : Crypto → Text → ℕ → Service UserSession
validate_session_token lib token now =
    map_err repository (UserSessions.get_by_token_hash (lib.digest token)) >>= check_session now

-- A missing row is an invalid session.
unfoldable pub revoke_error : RepositoryError → AuthServiceError
revoke_error missing_row = session_invalid
revoke_error violated_constraint = repository violated_constraint
revoke_error broken_row = repository broken_row
revoke_error database = repository database

unfoldable pub revoke_session : ℕ → ℕ → Option RevokedReason → Service (Unit {0})
revoke_session id now reason = map_err revoke_error (UserSessions.revoke id now reason)

unfoldable pub revoke_all_for_user : ℕ → ℕ → Option RevokedReason → Service ℕ
revoke_all_for_user user_id now reason =
    map_err repository (UserSessions.revoke_all_for_user user_id now reason)

unfoldable pub revoke_session_for_user : ℕ → ℕ → ℕ → Option RevokedReason → Service Bool
revoke_session_for_user user_id session_id now reason =
    map_err revoke_error (UserSessions.revoke_for_user user_id session_id now reason)

unfoldable pub revoke_all_sessions_except : ℕ → ℕ → ℕ → Option RevokedReason → Service ℕ
revoke_all_sessions_except user_id except_id now reason =
    map_err repository (UserSessions.revoke_all_except user_id except_id now reason)
