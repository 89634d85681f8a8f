-- ===== src/Launch/Tests.antt =====
-- A backend with one profile and room for one live PTY of a user,
-- crates/relayterm-api/src/routes/v1/terminal_sessions.rs.
use relay_term.Prelude.{none, some, List, [], ◌∷◌, arith}
use relay_term.Prelude.Assoc.{count_if}
use relay_term.Prelude.Calls.{ok}
use relay_term.HostKeys.{KnownHostEntry}
use relay_term.Manager.{Manager}
use relay_term.Manager.Pty.{count_live_pty_for_user, count_live_pty_total}
use relay_term.Manager.Counts.{Within}
use relay_term.Launch.{ServerProfile, Host, SshIdentity, Services, Backend}
use relay_term.Launch.Serve.{Request, post_session, output, serve_all}
use relay_term.Launch.Served.{quotas_kept}
use relay_term.Launch.Create.{CreateTerminalSessionRequest, launch}
use relay_term.Launch.Asked.{AsksRightly, launch-AsksRightly}

abbrev a_profile : ServerProfile
a_profile = record {
  id = 3;
  owner_id = 1;
  name = 97 ∷ [];
  host_id = 4;
  ssh_identity_id = 6;
  username_override = none;
  tags = [];
  created_at = 1;
  updated_at = 1;
  last_connected_at = none;
  disabled_at = none;
}

abbrev a_host : Host
a_host = record {
  id = 4;
  owner_id = 1;
  display_name = 98 ∷ [];
  hostname = 99 ∷ [];
  port = 22;
  default_username = 100 ∷ [];
  created_at = 1;
  updated_at = 1;
}

abbrev an_identity : SshIdentity
an_identity = record {
  id = 6;
  owner_id = 1;
  name = 101 ∷ [];
  key_type = 1;
  public_key = 5 ∷ [];
  encrypted_private_key = 8 ∷ [];
  fingerprint_sha256 = 55;
  created_at = 1;
  last_used_at = none;
}

abbrev a_pin : KnownHostEntry
a_pin = record {
  id = 7;
  host_id = 4;
  key_type = 1;
  fingerprint_sha256 = 77;
  public_key = 9 ∷ [];
  first_seen_at = 1;
  trusted_at = some 2;
  revoked_at = none;
  revoked_by = none;
  revoked_reason_code = none;
  replaced_by_id = none;
}

abbrev empty_manager : Manager
empty_manager = record {
  settings = record {
    detach_ttl = 30;
    max_live_pty_per_user = 1;
    max_starting_per_user = 1;
    max_live_pty_per_deployment = 8;
    recording = none;
  };
  store = record { sessions = []; attachments = [] };
  events = [];
  runtimes = [];
  attachments = [];
  ended_recordings = [];
  faults = [];
}

abbrev a_backend : Backend
a_backend = record {
  profiles = (3, a_profile) ∷ [];
  hosts = (4, a_host) ∷ [];
  identities = (6, an_identity) ∷ [];
  pins = a_pin ∷ [];
  manager = empty_manager;
  started = [];
  faults = [];
}

abbrev some_services : Services
some_services = record {
  start = λ target. ok 2;
  decrypt = some (λ key. some key);
  text = λ category. [];
}

abbrev a_request : CreateTerminalSessionRequest
a_request = record { server_profile_id = 3; cols = 80; rows = 24 }

-- The second launch is refused.
abbrev two_launches : List Request
two_launches =
    post_session 1 20 5 a_request ∷ output 20 (9 ∷ []) ∷ post_session 1 21 6 a_request ∷ []

empty-Within : Within empty_manager
unfolding count_live_pty_for_user count_live_pty_total count_if
empty-Within = record { user = λ u. omega arith; total = omega arith }

quotas_kept_example : Within (serve_all some_services two_launches a_backend).manager
quotas_kept_example = quotas_kept some_services two_launches a_backend empty-Within

launch-AsksRightly_example :
    AsksRightly some_services 1 3 a_backend (launch some_services 1 20 5 a_request a_backend)
launch-AsksRightly_example = launch-AsksRightly some_services 1 20 5 a_request a_backend
