-- ===== src/Auth/Login.antt =====
-- The routes `bootstrap` and `login`, crates/relayterm-api/src/routes/v1/auth.rs. The attributes of the
-- cookie that are always the same are left out.
use Prim.Native.Nat.{bit_or, bit_xor}
use relay_term.Prelude.{
  ℕ, ◌*◌, ◌^◌, Bool, false, not, Option, none, some, List, [], ◌∷◌, if◌then◌else◌, ◌==◌, length,
}
use relay_term.Prelude.Calls.{
  Result, ok, err, pure, fail, read, update, settle, map_err, ignore_error, ◌>>=◌, ◌>>◌,
}
use relay_term.Throttle.{ThrottleDecision, allowed, check, record_failure, record_success}
use relay_term.Throttle
use relay_term.Auth.{
  Text, User, AuditEventKind, login_failed, login_succeeded, first_user_created, bad_token,
  already_bootstrapped, throttled, bad_credentials, AuthRoutesConfig, AuthServiceError,
  invalid_credentials, unauthorized, conflict, too_many_requests, service_unavailable,
  api_of_repository, api_of_service, Crypto, Drawn,
}
use relay_term.Auth.Text.{Text-discrete, as_bytes, normalize_login_identifier}
use relay_term.Auth.Tables.{append_audit}
use relay_term.Auth.Users
use relay_term.Auth.Passwords.{any_exists}
use relay_term.Auth.Service.{Service, set_password, verify_password, create_session}
use relay_term.Auth.Guards.{Api, Headers, csrf_guard}
use relay_term.Auth.Requests.{BootstrapRequest, LoginRequest, validated_bootstrap, validated_login}

abbrev pub session_ttl : ℕ
session_ttl = 30 * 86400 * 10 ^ 9

-- What a `Set-Cookie` header says.
pub record Cookie : Type 0 where
  pub value : Text
  pub max_age : ℕ
  pub secure : Bool
  pub domain : Option Text

unfoldable pub build_session_cookie : Text → AuthRoutesConfig → Cookie
build_session_cookie token cfg = record {
  value = token;
  max_age = 30 * 86400;
  secure = cfg.cookie_secure;
  domain = cfg.cookie_domain;
}

unfoldable pub build_clear_cookie : AuthRoutesConfig → Cookie
build_clear_cookie cfg = record {
  value = [];
  max_age = 0;
  secure = cfg.cookie_secure;
  domain = cfg.cookie_domain;
}

abbrev pub audited : Option ℕ → AuditEventKind → Api (Unit {0})
audited actor_id kind =
    map_err api_of_repository (append_audit (record { actor_id = actor_id; kind = kind }))

unfoldable pub write_audit_best_effort : Option ℕ → AuditEventKind → Api (Unit {0})
write_audit_best_effort actor_id kind =
    ignore_error (append_audit (record { actor_id = actor_id; kind = kind }))

-- The loop over the two slices, on bytes.
unfoldable pub differences : ℕ → List ℕ → List ℕ → ℕ
differences diff [] ys = diff
differences diff (x ∷ xs) [] = diff
differences diff (x ∷ xs) (y ∷ ys) = differences (bit_or diff (bit_xor x y)) xs ys

unfoldable pub constant_time_eq : List ℕ → List ℕ → Bool
constant_time_eq a b = if not (length a == length b) then false else differences 0 a b == 0

-- The token that the operator has configured.
unfoldable pub configured : Option Text → Api Text
configured none = fail service_unavailable
configured (some token) = pure token

-- The first user, with a password and an audit event.
unfoldable pub create_first_user : Crypto → BootstrapRequest → Drawn → Api User
create_first_user lib req d = do
  user ← map_err api_of_repository (Users.create lib d.user_id d.now req.email req.display_name)
  map_err api_of_service (set_password lib user.id req.password d)
  audited (some user.id) (first_user_created user.id user.created_at)
  pure user

unfoldable pub bootstrap : Crypto → Headers → BootstrapRequest → Drawn → Api User
bootstrap lib h req d = do
  csrf_guard h
  validated_bootstrap req
  configured_token ← read (λ s. s.routes.bootstrap_token) >>= configured
  if constant_time_eq (as_bytes req.bootstrap_token) (as_bytes configured_token)
      then (do
        exists ← map_err api_of_repository any_exists
        if exists
            then (write_audit_best_effort none (login_failed already_bootstrapped) >> fail conflict)
            else create_first_user lib req d)
      else (write_audit_best_effort none (login_failed bad_token) >> fail unauthorized)

-- The user whose password is verified. The source keeps the option and unwraps it afterwards.
unfoldable pub verify_user : Crypto → Text → Option User → Service User
verify_user lib password none = fail invalid_credentials
verify_user lib password (some user) = verify_password lib user.id password >> pure user

pub record LoggedIn : Type 0 where
  pub cookie : Cookie
  pub user : User

unfoldable pub open_session : Crypto → Text → Drawn → User → Api LoggedIn
open_session lib key d user = do
  update (λ s. record s { throttler = record_success Text-discrete s.throttler key })
  created ← map_err api_of_service (create_session lib user.id session_ttl d)
  ignore_error (Users.touch_last_login user.id d.now)
  audited (some user.id) (login_succeeded user.id d.now)
  cfg ← read (λ s. s.routes)
  pure (record { cookie = build_session_cookie created.token cfg; user = user })

unfoldable pub after_verify : Crypto → Text → Drawn → Result AuthServiceError User → Api LoggedIn
after_verify lib key d (err e) = do
  update (λ s. record s { throttler = record_failure Text-discrete s.throttler key d.now })
  write_audit_best_effort none (login_failed bad_credentials)
  fail (api_of_service e)
after_verify lib key d (ok user) = open_session lib key d user

unfoldable pub after_check : Crypto → LoginRequest → Text → Drawn → ThrottleDecision → Api LoggedIn
after_check lib req key d (Throttle.throttled wait) =
    write_audit_best_effort none (login_failed throttled) >> fail too_many_requests
after_check lib req key d allowed = do
  found ← map_err api_of_repository (Users.get_by_email lib req.email)
  settle (verify_user lib req.password found) (after_verify lib key d)

unfoldable pub login : Crypto → Headers → LoginRequest → Drawn → Api LoggedIn
login lib h req d = do
  csrf_guard h
  validated_login req
  decision ←
      read (λ s. check Text-discrete s.throttler (normalize_login_identifier req.email) d.now)
  after_check lib req (normalize_login_identifier req.email) d decision
