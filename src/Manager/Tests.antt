-- ===== src/Manager/Tests.antt =====
-- A manager with one live session and one client, crates/relayterm-terminal/src/manager.rs.
use relay_term.Prelude.{
  ℕ, ◌≤◌, ◌≡◌, ◌≢◌, ap, sym, ◌∙◌, refl, false, Option, none, some, List, [], ◌∷◌, ◌==◌, arith,
  ℕ_discrete,
}
use relay_term.Prelude.Assoc.{get, remove, any_if}
use relay_term.Sessions.{
  TerminalSession, TerminalSessionAttachment, find, find_attachment, mark, is_closed,
}
use relay_term.Sessions
use relay_term.Replay.{new, default_config, ok, push_all, evict, push, over_limit, is_last}
use relay_term.Manager.{
  Manager, RuntimeEntry, LiveRuntime, AttachmentRuntime, closed, client_requested, not_found,
  session_closed, runtime_view, live_of,
}
use relay_term.Manager
use relay_term.Manager.Lifecycle.{start_live_pty, close_session}
use relay_term.Manager.Attach.{
  attach_session, detach_attachment, resize_session, detach_state, close_of, expire_detach_close,
}
use relay_term.Manager.Pty.{replay_session}
use relay_term.Manager.Access.{denied, request, foreign_denied, closed_refused}
use relay_term.Manager.Close.{after_close, close_ends}
use relay_term.Manager.Reattach.{after_leave}
use relay_term.Manager.Leave.{after_teardown, last_detach_pending, teardown_then_leave_reopens}
use relay_term.Manager.Return.{after_return, return_cancels}
use relay_term.Manager.Quiet.{quiet}
use relay_term.Manager.Replayed.{forward_all, replay_resumes}

abbrev some_session : TerminalSession
some_session = record {
  id = 5;
  owner_id = 1;
  server_profile_id = 3;
  status = Sessions.active;
  cols = 80;
  rows = 24;
  created_at = 10;
  last_seen_at = 10;
  closed_at = none;
}

abbrev ended_session : TerminalSession
ended_session = record some_session { id = 6; status = Sessions.closed; closed_at = some 11 }

abbrev some_attachment : TerminalSessionAttachment
some_attachment = record {
  id = 9;
  session_id = 5;
  attached_at = 12;
  detached_at = none;
  client_info = none;
  remote_addr = none;
  last_seen_seq = none;
}

abbrev some_live : LiveRuntime
some_live = record {
  handle = 2;
  replay = new default_config;
  detach_close = none;
  recording = none;
  last_seq = 0;
}

abbrev some_entry : RuntimeEntry
some_entry = record {
  snapshot = record {
    id = 5;
    owner_id = 1;
    server_profile_id = 3;
    status = Manager.live;
    created_at = 10;
    cols = 80;
    rows = 24;
  };
  live = some some_live;
  next_seq = 1;
}

abbrev some_client : AttachmentRuntime
some_client = record {
  id = 9;
  session_id = 5;
  owner_id = 1;
  attached_at = 12;
  client_info = none;
  remote_addr = none;
}

abbrev some_manager : Manager
some_manager = record {
  settings = record {
    detach_ttl = 30;
    max_live_pty_per_user = 8;
    max_starting_per_user = 4;
    max_live_pty_per_deployment = 64;
    recording = none;
  };
  store = record {
    sessions = (5, some_session) ∷ (6, ended_session) ∷ [];
    attachments = (9, some_attachment) ∷ [];
  };
  events = [];
  runtimes = (5, some_entry) ∷ [];
  attachments = (9, some_client) ∷ [];
  ended_recordings = [];
  faults = [];
}

find_5 : find 5 some_manager.store ≡ some some_session
unfolding find get ℕ_discrete
find_5 = refl

view_5 : runtime_view 5 some_manager ≡ some some_live
unfolding runtime_view live_of get ℕ_discrete
view_5 = refl

attachment_9 : find_attachment 9 some_manager.store ≡ some some_attachment
unfolding find_attachment get ℕ_discrete
attachment_9 = refl

nobody_else : any_if (λ a. a.session_id == 5) (remove ℕ_discrete 9 some_manager.attachments) ≡ false
unfolding any_if remove ℕ_discrete
nobody_else = refl

owner_or_zero : Option TerminalSession → ℕ
owner_or_zero none = 0
owner_or_zero (some s) = s.owner_id

not_hers : (s : TerminalSession) → find 5 some_manager.store ≡ some s → s.owner_id ≢ 2
unfolding owner_or_zero
not_hers s e q = omega (arith, ap owner_or_zero (sym find_5 ∙ e))

find_6 : find 6 some_manager.store ≡ some ended_session
unfolding find get ℕ_discrete
find_6 = refl

closed_refused_example :
    ((handle : ℕ) → start_live_pty 1 6 handle 20 some_manager ≡ denied session_closed some_manager)
    × ((attachment_id : ℕ) (client_info remote_addr : Option (List ℕ))
        → attach_session attachment_id 20 (request 1 6 client_info remote_addr) some_manager
          ≡ denied session_closed some_manager)
    × ((cols rows : ℕ) (json : List ℕ)
        → Manager.min_dim ≤ cols
        → cols ≤ Manager.max_dim
        → Manager.min_dim ≤ rows
        → rows ≤ Manager.max_dim
        → resize_session 1 6 cols rows json some_manager ≡ denied session_closed some_manager)
unfolding is_closed
closed_refused_example = closed_refused 1 6 20 some_manager (ended_session, find_6, refl, refl)

foreign_denied_example :
    ((handle : ℕ) → start_live_pty 2 5 handle 20 some_manager ≡ denied not_found some_manager)
    × (close_session 5 2 20 some_manager ≡ denied not_found some_manager)
    × ((attachment_id : ℕ) (client_info remote_addr : Option (List ℕ))
        → attach_session attachment_id 20 (request 2 5 client_info remote_addr) some_manager
          ≡ denied not_found some_manager)
    × ((attachment_id : ℕ) (seen : Option ℕ)
        → detach_attachment 2 5 attachment_id seen 20 some_manager ≡ denied not_found some_manager)
    × ((cols rows : ℕ) (json : List ℕ)
        → Manager.min_dim ≤ cols
        → cols ≤ Manager.max_dim
        → Manager.min_dim ≤ rows
        → rows ≤ Manager.max_dim
        → resize_session 2 5 cols rows json some_manager ≡ denied not_found some_manager)
foreign_denied_example = foreign_denied 2 5 20 some_manager not_hers

close_ends_example :
    (find 5 (after_close 5 1 20 some_manager).store
      ≡ some (mark Sessions.closed (some 20) 20 some_session))
    × ((after_close 5 1 20 some_manager).events
        ≡ record { session_id = 5; kind = closed; payload = client_requested } ∷ [])
    × (get ℕ_discrete 5 (after_close 5 1 20 some_manager).runtimes ≡ none)
    × (any_if (λ a. a.session_id == 5) (after_close 5 1 20 some_manager).attachments ≡ false)
unfolding is_closed
close_ends_example = close_ends 5 1 20 some_manager some_session find_5 refl refl

last_detach_pending_example :
    (find 5 (after_leave 1 5 9 (some 4) 20 some_manager).store
      ≡ some (mark Sessions.detached none 20 some_session))
    × (detach_state 5 (after_leave 1 5 9 (some 4) 20 some_manager)
        ≡ some (record { detached_at = 20; expires_at = 50 }))
last_detach_pending_example =
    last_detach_pending 1 5 9 20 (some 4) some_manager some_session some_attachment some_live find_5
      refl refl (attachment_9, refl, refl) (nobody_else, view_5) refl

teardown_then_leave_reopens_example :
    (find 5 (after_teardown 1 5 none 19 some_manager).store
      ≡ some (mark Sessions.closed (some 19) 19 some_session))
    × (find 5 (after_leave 1 5 9 none 20 (after_teardown 1 5 none 19 some_manager)).store
        ≡ some (mark Sessions.detached none 20 (mark Sessions.closed (some 19) 19 some_session)))
unfolding is_closed
teardown_then_leave_reopens_example =
    teardown_then_leave_reopens 1 5 9 19 20 none none some_manager some_session some_attachment
      some_live find_5 refl refl refl (attachment_9, refl, refl) (nobody_else, view_5)

replay_resumes_example :
    replay_session 5 (some 1) (forward_all 5 ((7 ∷ []) ∷ (8 ∷ []) ∷ []) some_manager)
    ≡ some (ok (record { frames = record { seq = 2; bytes = 8 ∷ [] } ∷ []; latest_seq = 2 }))
unfolding get ℕ_discrete push_all push evict over_limit is_last new
replay_resumes_example =
    replay_resumes 5 1 ((7 ∷ []) ∷ (8 ∷ []) ∷ []) some_manager
      (some_entry, some_live, refl, refl, refl, refl) (omega arith) (omega arith)

-- The client has left, and the close is due at 50.
abbrev waiting_manager : Manager
waiting_manager = record some_manager {
  runtimes =
      (
        5,
        record some_entry {
          live = some (record some_live {
            detach_close = some (record { detached_at = 20; expires_at = 50 });
          });
        },
      )
      ∷ [];
  attachments = [];
}

due_at_50 :
    detach_state 5 (quiet waiting_manager) ≡ some (record { detached_at = 20; expires_at = 50 })
unfolding detach_state close_of runtime_view live_of get ℕ_discrete
due_at_50 = refl

return_cancels_example :
    (detach_state 5 (after_return 10 25 (request 1 5 none none) waiting_manager) ≡ none)
    × (find 5 (after_return 10 25 (request 1 5 none none) waiting_manager).store
        ≡ some (mark Sessions.active none 25 some_session))
    × (expire_detach_close 5 1 50 (after_return 10 25 (request 1 5 none none) waiting_manager)
        ≡ (Manager.ok tt, after_return 10 25 (request 1 5 none none) waiting_manager))
unfolding is_closed
return_cancels_example =
    return_cancels 1 5 10 25 50 none none (record { detached_at = 20; expires_at = 50 })
      waiting_manager some_session find_5 refl refl refl due_at_50
