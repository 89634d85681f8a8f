-- ===== src/Launch/Create.antt =====
-- The handler of `POST /api/v1/terminal-sessions`, `create` of
-- crates/relayterm-api/src/routes/v1/terminal_sessions.rs.
use relay_term.Prelude.{
  ℕ, Bool, Option, none, some, List, [], ◌∷◌, if◌then◌else◌, ◌==◌, leb, keep_if, ℕ_discrete,
}
use relay_term.Prelude.Assoc.{get}
use relay_term.Prelude.Calls.{Result, ok, err, pure, fail, read, update, ◌>>=◌, ◌>>◌}
use relay_term.Sessions.{TerminalSession}
use relay_term.Manager.Lifecycle.{create_session, start_live_pty, record_pty_start_failed}
use relay_term.Manager.Pty.{count_live_pty_for_user, count_live_pty_total, count_starting_for_user}
use relay_term.Launch.{
  Text, ServerProfile, Host, SshIdentity, is_disabled, SshPtyTarget, SshPtyError, server_profile,
  host_key, not_found, internal, service_unavailable, too_many_sessions,
  too_many_sessions_deployment, too_many_starting_sessions, conflict, LaunchError, Services, L,
  select, ask, tell, map_pty_start_error, accept_pins,
}

pub record CreateTerminalSessionRequest : Type 0 where
  pub server_profile_id : ℕ
  pub cols : ℕ
  pub rows : ℕ

-- `filter(|row| row.owner_id == user_id).ok_or(NotFound)`.
unfoldable pub own_row : {A : Type 0} → (A → ℕ) → ℕ → Option A → L A
own_row owner user_id none = fail not_found
own_row owner user_id (some a) = if owner a == user_id then pure a else fail not_found

unfoldable pub own_profile : ℕ → ℕ → L ServerProfile
own_profile user_id id =
    select (λ s. get ℕ_discrete id s.profiles) >>= own_row (λ p. p.owner_id) user_id

unfoldable pub own_host : ℕ → ℕ → L Host
own_host user_id id = select (λ s. get ℕ_discrete id s.hosts) >>= own_row (λ h. h.owner_id) user_id

unfoldable pub own_identity : ℕ → ℕ → L SshIdentity
own_identity user_id id =
    select (λ s. get ℕ_discrete id s.identities) >>= own_row (λ i. i.owner_id) user_id

unfoldable pub refuse_if : Bool → LaunchError → L (Unit {0})
refuse_if b e = if b then fail e else pure tt

unfoldable pub some_pins : List (ℕ × ℕ) → L (Unit {0})
some_pins [] = fail (conflict host_key)
some_pins (p ∷ ps) = pure tt

-- The three ceilings, in their order.
unfoldable pub check_quotas : ℕ → L (Unit {0})
check_quotas user_id = do
  live ← read (λ s.
      leb s.manager.settings.max_live_pty_per_user (count_live_pty_for_user user_id s.manager))
  refuse_if live too_many_sessions
  total ←
      read
        (λ s. leb s.manager.settings.max_live_pty_per_deployment (count_live_pty_total s.manager))
  refuse_if total too_many_sessions_deployment
  starting ← read (λ s.
      leb s.manager.settings.max_starting_per_user (count_starting_for_user user_id s.manager))
  refuse_if starting too_many_starting_sessions

unfoldable pub decrypted : Option (List ℕ) → L (List ℕ)
decrypted none = fail internal
decrypted (some pem) = pure pem

unfoldable pub open_vault : Option (List ℕ → Option (List ℕ)) → List ℕ → L (List ℕ)
open_vault none key = fail service_unavailable
open_vault (some decrypt) key = decrypted (decrypt key)

unfoldable pub or_default : Text → Option Text → Text
or_default name none = name
or_default name (some other) = other

abbrev pub target_of : ServerProfile → Host → List (ℕ × ℕ) → List ℕ → TerminalSession → SshPtyTarget
target_of profile host pins pem session = record {
  hostname = host.hostname;
  port = host.port;
  username = or_default host.default_username profile.username_override;
  accept_pins = pins;
  cols = session.cols;
  rows = session.rows;
  private_key_pem = pem;
}

unfoldable pub bridged : Services → ℕ → ℕ → ℕ → Result SshPtyError ℕ → L TerminalSession
bridged services user_id session_id now (ok handle) =
    ask (start_live_pty user_id session_id handle now)
bridged services user_id session_id now (err e) =
    let (error, category) = map_pty_start_error e in
    tell (record_pty_start_failed user_id session_id (services.text category) now) >> fail error

-- The row, the call of the bridge, and what follows it. `id` is the UUID that the database draws.
unfoldable pub start_session :
    Services
    → ℕ
    → ℕ
    → ℕ
    → CreateTerminalSessionRequest
    → ServerProfile
    → Host
    → List (ℕ × ℕ)
    → List ℕ
    → L TerminalSession
start_session services user_id id now req profile host pins pem = do
  session ← ask (
      create_session id now (record {
        owner_id = user_id;
        server_profile_id = profile.id;
        cols = req.cols;
        rows = req.rows;
      }))
  update (λ s. record s { started = target_of profile host pins pem session ∷ s.started })
  bridged services user_id session.id now (services.start (target_of profile host pins pem session))

unfoldable pub launch : Services → ℕ → ℕ → ℕ → CreateTerminalSessionRequest → L TerminalSession
launch services user_id id now req = do
  profile ← own_profile user_id req.server_profile_id
  refuse_if (is_disabled profile) (conflict server_profile)
  host ← own_host user_id profile.host_id
  identity ← own_identity user_id profile.ssh_identity_id
  known ← select (λ s. keep_if (λ e. e.host_id == host.id) s.pins)
  some_pins (accept_pins known)
  check_quotas user_id
  pem ← open_vault services.decrypt identity.encrypted_private_key
  start_session services user_id id now req profile host (accept_pins known) pem
