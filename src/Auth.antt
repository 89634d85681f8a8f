-- ===== src/Auth.antt =====
-- Login sessions: the types of crates/relayterm-core/src/user.rs, user_session.rs, password_credential.rs
-- and audit_event.rs, the errors of crates/relayterm-auth/src/service.rs and
-- crates/relayterm-api/src/error.rs (their texts for operators are left out), and the server's state.
-- A statement fails when `faults` says so. Texts are lists of code points. The digest of a token, the
-- hashing and the verification of a password, and the database's `LOWER` are the parameter `Crypto`.
-- Ids, tokens, salts and the time are drawn outside and come with the request.
pub mod Text
pub mod Tables
pub mod Users
pub mod Passwords
pub mod UserSessions
pub mod Service
pub mod Guards
pub mod Requests
pub mod Login
pub mod Account
pub mod Rules
pub mod Revoked
pub mod Serve
pub mod Admitted
pub mod Entry
pub mod LogsIn
pub mod Constant
pub mod Steps
pub mod Changed
mod Tests
use relay_term.Prelude.{
  ℕ, ◌≡◌, Bool, true, false, Option, none, some, List, [], ◌∷◌, if◌then◌else◌, ℕ_discrete,
}
use relay_term.Prelude.Calls.{Calls, Result, ok, err}
use relay_term.Throttle.{LoginThrottler}

abbrev pub Text : Type 0
Text = List ℕ

pub record User : Type 0 where
  pub id : ℕ
  pub email : Text
  pub display_name : Text
  pub created_at : ℕ
  pub last_login_at : Option ℕ

pub record PasswordCredential : Type 0 where
  pub user_id : ℕ
  pub password_hash : Text
  pub password_changed_at : ℕ
  pub created_at : ℕ
  pub updated_at : ℕ

pub data RevokedReason : Type 0 where
  logout password_changed user_revoke user_revoke_all : RevokedReason

pub record UserSession : Type 0 where
  pub id : ℕ
  pub user_id : ℕ
  pub token_hash : Text
  pub created_at : ℕ
  pub last_seen_at : ℕ
  pub expires_at : ℕ
  pub revoked_at : Option ℕ
  pub revoked_reason : Option RevokedReason

pub data LoginFailure : Type 0 where
  bad_token already_bootstrapped throttled bad_credentials : LoginFailure

-- The kind of an audit event with its payload.
pub data AuditEventKind : Type 0 where
  login_failed : LoginFailure → AuditEventKind
  login_succeeded : ℕ → ℕ → AuditEventKind
  logout_succeeded : ℕ → ℕ → ℕ → AuditEventKind
  first_user_created : ℕ → ℕ → AuditEventKind
  password_was_changed : ℕ → ℕ → AuditEventKind
  session_was_revoked : ℕ → Bool → ℕ → AuditEventKind
  sessions_were_revoked : ℕ → ℕ → AuditEventKind

pub record AuditEvent : Type 0 where
  pub actor_id : Option ℕ
  pub kind : AuditEventKind

pub record AuthRoutesConfig : Type 0 where
  pub cookie_secure : Bool
  pub cookie_domain : Option Text
  pub allowed_origins : List Text
  pub bootstrap_token : Option Text

-- The tables, newest audit event first, with the throttler, the settings and the failures to come.
pub record Server : Type 0 where
  pub users : List (ℕ × User)
  pub passwords : List (ℕ × PasswordCredential)
  pub sessions : List (ℕ × UserSession)
  pub audits : List AuditEvent
  pub throttler : LoginThrottler Text
  pub routes : AuthRoutesConfig
  pub faults : List Bool

pub data RepositoryError : Type 0 where
  missing_row violated_constraint broken_row database : RepositoryError

pub data AuthServiceError : Type 0 where
  invalid_credentials session_invalid session_expired session_revoked crypto : AuthServiceError
  repository : RepositoryError → AuthServiceError

pub data ApiError : Type 0 where
  validation unauthorized csrf_origin_mismatch not_found conflict : ApiError
  too_many_requests service_unavailable internal : ApiError

-- `impl From<RepositoryError> for ApiError`.
unfoldable pub api_of_repository : RepositoryError → ApiError
api_of_repository missing_row = not_found
api_of_repository violated_constraint = conflict
api_of_repository broken_row = internal
api_of_repository database = internal

-- `impl From<AuthServiceError> for ApiError`.
unfoldable pub api_of_service : AuthServiceError → ApiError
api_of_service invalid_credentials = unauthorized
api_of_service session_invalid = unauthorized
api_of_service session_expired = unauthorized
api_of_service session_revoked = unauthorized
api_of_service crypto = internal
api_of_service (repository e) = internal

-- Code that this repository only calls.
pub record Crypto : Type 0 where
  pub digest : Text → Text
  pub hash_password : ℕ → Text → Option Text
  pub verify_password : Text → Text → Option Bool
  pub lower : Text → Text

unfoldable pub next_fault : List Bool → Bool
next_fault [] = false
next_fault (f ∷ fs) = f

unfoldable pub later_faults : List Bool → List Bool
later_faults [] = []
later_faults (f ∷ fs) = fs

abbrev pub after_statement : Server → Server
after_statement s = record s { faults = later_faults s.faults }

-- One statement: it fails, or it does what it says.
unfoldable pub statement :
    {A : Type 0} → Calls Server RepositoryError A → Calls Server RepositoryError A
statement c s =
    if next_fault s.faults then (err database, after_statement s) else c (after_statement s)

-- The drawn values of one request.
pub record Drawn : Type 0 where
  pub now : ℕ
  pub user_id : ℕ
  pub session_id : ℕ
  pub token : Text
  pub salt : ℕ
