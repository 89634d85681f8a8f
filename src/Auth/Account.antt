-- ===== src/Auth/Account.antt =====
-- The routes of a user who is logged in: `logout`, `me`, `change_password`, `revoke_session` and
-- `revoke_all_except_current` of crates/relayterm-api/src/routes/v1/auth.rs.
use relay_term.Prelude.{ℕ, Option, none, some, if◌then◌else◌, ltb, ◌==◌}
use relay_term.Prelude.Calls.{Result, ok, err, pure, fail, read, settle, map_err, ◌>>=◌, ◌>>◌}
use relay_term.Auth.{
  Text, User, UserSession, RevokedReason, logout_succeeded, password_was_changed,
  session_was_revoked, sessions_were_revoked, Server, AuthServiceError, invalid_credentials,
  session_invalid, session_expired, session_revoked, crypto, repository, ApiError, not_found,
  api_of_service, Crypto, Drawn,
}
use relay_term.Auth
use relay_term.Auth.Service
use relay_term.Auth.Guards.{Api, Headers, csrf_guard, authenticate, extract_session_cookie}
use relay_term.Auth.Requests.{ChangePasswordRequest, validated_change}
use relay_term.Auth.Login.{Cookie, build_clear_cookie, audited}

-- The audit event of a logout, then the cleared cookie.
unfoldable pub logged_out :
    UserSession → ℕ → Cookie → Result AuthServiceError (Unit {0}) → Api Cookie
logged_out session now clear (ok _) = do
  audited (some session.user_id) (logout_succeeded session.user_id session.id now)
  pure clear
logged_out session now clear (err session_invalid) = pure clear
logged_out session now clear (err invalid_credentials) = fail (api_of_service invalid_credentials)
logged_out session now clear (err session_expired) = fail (api_of_service session_expired)
logged_out session now clear (err session_revoked) = fail (api_of_service session_revoked)
logged_out session now clear (err crypto) = fail (api_of_service crypto)
logged_out session now clear (err (repository e)) = fail (api_of_service (repository e))

-- A cookie that does not validate is cleared all the same.
unfoldable pub logout_validated : ℕ → Cookie → Result AuthServiceError UserSession → Api Cookie
logout_validated now clear (err e) = pure clear
logout_validated now clear (ok session) =
    settle (Service.revoke_session session.id now (some Auth.logout)) (logged_out session now clear)

unfoldable pub logout_token : Crypto → ℕ → Cookie → Option Text → Api Cookie
logout_token lib now clear none = pure clear
logout_token lib now clear (some token) =
    settle (Service.validate_session_token lib token now) (logout_validated now clear)

unfoldable pub logout : Crypto → Headers → ℕ → Api Cookie
logout lib h now = do
  csrf_guard h
  clear ← read (λ s. build_clear_cookie s.routes)
  logout_token lib now clear (extract_session_cookie h.cookie)

unfoldable pub me : Crypto → Headers → ℕ → Api User
me lib h now = authenticate lib h now >>= λ u. pure u.user

unfoldable pub change_password : Crypto → Headers → ChangePasswordRequest → Drawn → Api ℕ
change_password lib h req d = do
  csrf_guard h
  user ← authenticate lib h d.now
  validated_change req
  map_err api_of_service (Service.verify_password lib user.user.id req.current_password)
  map_err api_of_service (Service.set_password lib user.user.id req.new_password d)
  revoked_other_sessions ← map_err api_of_service (
      Service.revoke_all_sessions_except user.user.id user.session_id d.now
        (some Auth.password_changed))
  audited (some user.user.id) (password_was_changed revoked_other_sessions d.now)
  pure revoked_other_sessions

-- A missing row is told as such here, and not as a missing login.
unfoldable pub revoke_route_error : AuthServiceError → ApiError
revoke_route_error session_invalid = not_found
revoke_route_error invalid_credentials = api_of_service invalid_credentials
revoke_route_error session_expired = api_of_service session_expired
revoke_route_error session_revoked = api_of_service session_revoked
revoke_route_error crypto = api_of_service crypto
revoke_route_error (repository e) = api_of_service (repository e)

-- The cleared cookie when the user has revoked the session that the request came with.
unfoldable pub revoke_session : Crypto → Headers → ℕ → ℕ → Api (Option Cookie)
revoke_session lib h id now = do
  csrf_guard h
  user ← authenticate lib h now
  transitioned ←
      map_err revoke_route_error
        (Service.revoke_session_for_user user.user.id id now (some Auth.user_revoke))
  if transitioned
      then audited (some user.user.id) (session_was_revoked id (id == user.session_id) now)
      else pure tt
  clear ← read (λ s. build_clear_cookie s.routes)
  if id == user.session_id then pure (some clear) else pure none

unfoldable pub revoke_all_except_current : Crypto → Headers → ℕ → Api ℕ
revoke_all_except_current lib h now = do
  csrf_guard h
  user ← authenticate lib h now
  revoked_count ← map_err api_of_service (
      Service.revoke_all_sessions_except user.user.id user.session_id now
        (some Auth.user_revoke_all))
  if ltb 0 revoked_count
      then audited (some user.user.id) (sessions_were_revoked revoked_count now)
      else pure tt
  pure revoked_count
