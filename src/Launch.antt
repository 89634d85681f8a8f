-- ===== src/Launch.antt =====
-- `POST /api/v1/terminal-sessions`: `create` and `map_pty_start_error` of
-- crates/relayterm-api/src/routes/v1/terminal_sessions.rs, with the rows of crates/relayterm-core/src
-- (server_profile.rs, host.rs, ssh_identity.rs) that it reads and the target of
-- crates/relayterm-ssh/src/pty.rs. The caller is a user who has been let in. The vault's decryption and
-- the SSH bridge are parameters; `started` keeps what the bridge was asked for, the newest first.
pub mod Create
pub mod Serve
pub mod Quota
pub mod Served
pub mod Rightful
pub mod Asked
mod Tests
use relay_term.Prelude.{
  ℕ, Bool, true, false, not, ◌&&◌, Option, none, some, List, [], ◌∷◌, map, if◌then◌else◌, is_some,
  keep_if,
}
use relay_term.Prelude.Calls.{Calls, Result, ok, err, pure, fail, read, ◌>>=◌}
use relay_term.HostKeys.{KnownHostEntry, is_active}
use relay_term.Manager.{
  Manager, M, ManagerError, invalid_cols, invalid_rows, session_closed, pty_not_live, pty_start,
  repository,
}
use relay_term.Manager

abbrev pub Text : Type 0
Text = List ℕ

pub record ServerProfile : Type 0 where
  pub id : ℕ
  pub owner_id : ℕ
  pub name : Text
  pub host_id : ℕ
  pub ssh_identity_id : ℕ
  pub username_override : Option Text
  pub tags : List Text
  pub created_at : ℕ
  pub updated_at : ℕ
  pub last_connected_at : Option ℕ
  pub disabled_at : Option ℕ

pub record Host : Type 0 where
  pub id : ℕ
  pub owner_id : ℕ
  pub display_name : Text
  pub hostname : Text
  pub port : ℕ
  pub default_username : Text
  pub created_at : ℕ
  pub updated_at : ℕ

pub record SshIdentity : Type 0 where
  pub id : ℕ
  pub owner_id : ℕ
  pub name : Text
  pub key_type : ℕ
  pub public_key : List ℕ
  pub encrypted_private_key : List ℕ
  pub fingerprint_sha256 : ℕ
  pub created_at : ℕ
  pub last_used_at : Option ℕ

unfoldable pub is_disabled : ServerProfile → Bool
is_disabled p = is_some p.disabled_at

pub record SshPtyTarget : Type 0 where
  pub hostname : Text
  pub port : ℕ
  pub username : Text
  pub accept_pins : List (ℕ × ℕ)
  pub cols : ℕ
  pub rows : ℕ
  pub private_key_pem : List ℕ

pub data SshPtyError : Type 0 where
  invalid_identity transport host_key_not_trusted authentication_failed : SshPtyError
  pty_start_failed bridge_closed : SshPtyError

pub data Entity : Type 0 where
  terminal_session server_profile host_key ssh_auth pty_runtime : Entity

pub data LaunchError : Type 0 where
  validation not_found internal bad_gateway service_unavailable : LaunchError
  too_many_sessions too_many_sessions_deployment too_many_starting_sessions : LaunchError
  conflict : Entity → LaunchError

pub record Backend : Type 0 where
  pub profiles : List (ℕ × ServerProfile)
  pub hosts : List (ℕ × Host)
  pub identities : List (ℕ × SshIdentity)
  pub pins : List KnownHostEntry
  pub manager : Manager
  pub started : List SshPtyTarget
  pub faults : List Bool

abbrev pub L : Type 0 → Type 0
L A = Calls Backend LaunchError A

unfoldable pub next_fault : List Bool → Bool
next_fault [] = false
next_fault (f ∷ fs) = f

unfoldable pub later_faults : List Bool → List Bool
later_faults [] = []
later_faults (f ∷ fs) = fs

-- A read of the database.
unfoldable pub select : {A : Type 0} → (Backend → A) → L A
select f s =
    let rest = record s { faults = later_faults s.faults } in
    if next_fault s.faults then (err internal, rest) else (ok (f rest), rest)

-- `impl From<TerminalSessionManagerError> for ApiError`.
unfoldable pub api_of_manager : ManagerError → LaunchError
api_of_manager invalid_cols = validation
api_of_manager invalid_rows = validation
api_of_manager Manager.not_found = not_found
api_of_manager session_closed = conflict terminal_session
api_of_manager pty_not_live = conflict pty_runtime
api_of_manager pty_start = internal
api_of_manager repository = internal

unfoldable pub result_of : {A : Type 0} → Manager.Result A → Result LaunchError A
result_of (Manager.ok a) = ok a
result_of (Manager.err e) = err (api_of_manager e)

-- A call of the manager.
unfoldable pub ask : {A : Type 0} → M A → L A
ask c s = (result_of (c s.manager).0, record s { manager = (c s.manager).1 })

-- A call of the manager whose error is dropped.
unfoldable pub tell : {A : Type 0} → M A → L (Unit {0})
tell c s = (ok tt, record s { manager = (c s.manager).1 })

-- The category of the closed event; its text is the name with underscores.
pub data Category : Type 0 where
  invalid_identity_category transport_category host_key_category authentication_category : Category
  pty_alloc_category bridge_closed_category : Category

-- The bridge gives the handle of a PTY; the vault may be disabled; a category has a text.
pub record Services : Type 0 where
  pub start : SshPtyTarget → Result SshPtyError ℕ
  pub decrypt : Option (List ℕ → Option (List ℕ))
  pub text : Category → Text

unfoldable pub map_pty_start_error : SshPtyError → LaunchError × Category
map_pty_start_error invalid_identity = (internal, invalid_identity_category)
map_pty_start_error transport = (bad_gateway, transport_category)
map_pty_start_error host_key_not_trusted = (conflict host_key, host_key_category)
map_pty_start_error authentication_failed = (conflict ssh_auth, authentication_category)
map_pty_start_error pty_start_failed = (bad_gateway, pty_alloc_category)
map_pty_start_error bridge_closed = (internal, bridge_closed_category)

unfoldable pub is_accepted : KnownHostEntry → Bool
is_accepted e = is_some e.trusted_at && is_active e

unfoldable pub accept_pins : List KnownHostEntry → List (ℕ × ℕ)
accept_pins known = map (λ e. (e.key_type, e.fingerprint_sha256)) (keep_if is_accepted known)
