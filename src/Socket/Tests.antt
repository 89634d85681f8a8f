-- ===== src/Socket/Tests.antt =====
-- A client that comes back to a session with two chunks of output,
-- crates/relayterm-api/src/routes/v1/terminal_sessions.rs.
use relay_term.Prelude.{
  ℕ, ◌≡◌, refl, true, false, none, some, is_some, List, [], ◌∷◌, arith, ℕ_discrete,
}
use relay_term.Prelude.Assoc.{get}
use relay_term.Replay.{new, default_config, push_all, push, evict, over_limit, is_last}
use relay_term.Manager.{Manager, RuntimeEntry, LiveRuntime}
use relay_term.Manager
use relay_term.Manager.Pty.{done}
use relay_term.Manager.Replayed.{forward_all}
use relay_term.Socket.{SocketState, Peer, Outside}
use relay_term.Socket.Run.{Turn, output, broadcast, pty_frame, run}
use relay_term.Socket.Stream.{flowing}
use relay_term.Socket.Run.{attach_socket}
use relay_term.Socket.Unsent.{failing, unsent_answer_stays_live}
use relay_term.Manager.{runtime_view, live_of}
use relay_term.Manager.Attach.{detach_state, close_of}
use relay_term.Manager.Quiet.{quiet}
use relay_term.Sessions.{TerminalSession, find, is_closed}
use relay_term.Sessions
use relay_term.Socket.{Connection}
use relay_term.Socket.Resumed.{Resumes, stream-Resumes}

abbrev a_live : LiveRuntime
a_live = record {
  handle = 2;
  replay = new default_config;
  detach_close = none;
  recording = none;
  last_seq = 0;
}

abbrev an_entry : RuntimeEntry
an_entry = record {
  snapshot = record {
    id = 5;
    owner_id = 1;
    server_profile_id = 3;
    status = Manager.live;
    created_at = 10;
    cols = 80;
    rows = 24;
  };
  live = some a_live;
  next_seq = 1;
}

abbrev a_manager : Manager
a_manager = record {
  settings = record {
    detach_ttl = 30;
    max_live_pty_per_user = 4;
    max_starting_per_user = 2;
    max_live_pty_per_deployment = 8;
    recording = none;
  };
  store = record { sessions = []; attachments = [] };
  events = [];
  runtimes = (5, an_entry) ∷ [];
  attachments = [];
  ended_recordings = [];
  faults = [];
}

abbrev a_state : SocketState
a_state = record {
  attachment_id = 9;
  detached = false;
  closed = false;
  live = some [];
  replay_handshake_done = false;
  min_live_seq = 0;
}

abbrev a_peer : Peer
a_peer = record { user_id = 1; session_id = 5 }

abbrev outside : Outside
outside = record {
  now = 40;
  write_input = λ bytes handle. done;
  resize = λ cols rows handle. done;
  json = λ cols rows. [];
}

abbrev first_chunks : List (List ℕ)
first_chunks = (7 ∷ []) ∷ (8 ∷ []) ∷ []

-- The third frame is broadcast before the client asks, and the fourth after.
abbrev turns_before : List Turn
turns_before = output (9 ∷ []) ∷ broadcast ∷ []

abbrev turns_after : List Turn
turns_after = pty_frame ∷ output (10 ∷ []) ∷ broadcast ∷ pty_frame ∷ []

stream-Resumes_example :
    Resumes outside a_peer 1 3
      (record { seq = 2; bytes = 8 ∷ [] } ∷ record { seq = 3; bytes = 9 ∷ [] } ∷ [])
      turns_after
      (run outside a_peer turns_before
        (flowing (forward_all 5 first_chunks a_manager) [] [] [] a_state))
unfolding get ℕ_discrete push_all push evict over_limit is_last new
stream-Resumes_example =
    stream-Resumes outside a_peer 1 first_chunks turns_before turns_after a_manager [] a_state
      (an_entry, a_live, refl, refl, refl, refl) refl refl (refl, (refl, tt))
      (refl, (refl, (refl, (refl, tt)))) (omega arith) (omega arith) (omega arith)

abbrev a_session : TerminalSession
a_session = record {
  id = 5;
  owner_id = 1;
  server_profile_id = 3;
  status = Sessions.detached;
  cols = 80;
  rows = 24;
  created_at = 10;
  last_seen_at = 10;
  closed_at = none;
}

-- The close is due at 50.
abbrev waiting : Manager
waiting = record a_manager {
  store = record { sessions = (5, a_session) ∷ []; attachments = [] };
  runtimes =
      (
        5,
        record an_entry {
          live = some (record a_live {
            detach_close = some (record { detached_at = 20; expires_at = 50 });
          });
        },
      )
      ∷ [];
}

abbrev a_connection : Connection
a_connection = record {
  manager = waiting;
  socket = record { sent = []; faults = [] };
  state = a_state;
}

unsent_answer_stays_live_example :
    let tried = attach_socket outside a_peer 9 none (failing (quiet waiting) [] [] a_connection) in
    (tried.0 ≡ false)
    × (is_some (runtime_view 5 tried.1.manager) ≡ true)
    × (detach_state 5 tried.1.manager ≡ none)
unfolding find get ℕ_discrete is_closed detach_state close_of runtime_view live_of
unsent_answer_stays_live_example =
    unsent_answer_stays_live outside 5 1 9 none (record { detached_at = 20; expires_at = 50 })
      waiting a_session [] [] a_connection refl refl refl refl refl
