-- ===== src/Manager/Lifecycle.antt =====
-- Sessions are created, started and closed, crates/relayterm-terminal/src/manager.rs.
-- The PTY's handle and the ids of new rows come from outside and are arguments, as is the time.
use relay_term.Prelude.{
  ℕ, Bool, true, false, not, Option, none, some, List, ◌∷◌, if◌then◌else◌, ◌==◌, ℕ_discrete,
}
use relay_term.Prelude.Assoc.{get, insert, remove, modify, retain}
use relay_term.Sessions.{TerminalSession, is_closed, create, find, session_row}
use relay_term.Sessions
use relay_term.Replay.{default_config}
use relay_term.Replay
use relay_term.Recording.{RecordingWriterConfig, Accepts}
use relay_term.Recording.Producer.{Recorder, enabled, shut_down}
use relay_term.Manager.{
  TerminalSessionRuntime, LiveRuntime, RuntimeEntry, AttachmentRuntime, created_stub,
  client_requested, ssh_start_failed, created, closed, Manager, not_found, session_closed,
  invalid_cols, invalid_rows, M, after, ◌>>=◌, ◌>>◌, pure, fail, update, read, ignore_error, call,
  owned_session, update_status, create_event, validate_dim,
}
use relay_term.Manager

pub record CreateRequest : Type 0 where
  pub owner_id : ℕ
  pub server_profile_id : ℕ
  pub cols : ℕ
  pub rows : ℕ

pub record CloseOutcome : Type 0 where
  pub session : TerminalSession
  pub already_closed : Bool

abbrev pub starting_row : ℕ → ℕ → CreateRequest → TerminalSession
starting_row id now req = session_row id now (record {
  owner_id = req.owner_id;
  server_profile_id = req.server_profile_id;
  status = Sessions.starting;
  cols = req.cols;
  rows = req.rows;
})

abbrev pub new_entry : TerminalSession → RuntimeEntry
new_entry s = record {
  snapshot = record {
    id = s.id;
    owner_id = s.owner_id;
    server_profile_id = s.server_profile_id;
    status = Manager.starting;
    created_at = s.created_at;
    cols = s.cols;
    rows = s.rows;
  };
  live = none;
  next_seq = 1;
}

unfoldable pub insert_row : ℕ → ℕ → CreateRequest → M TerminalSession
insert_row id now req = call (λ m. (
  Manager.ok (starting_row id now req),
  record m {
    store =
        create id now
          (record {
            owner_id = req.owner_id;
            server_profile_id = req.server_profile_id;
            status = Sessions.starting;
            cols = req.cols;
            rows = req.rows;
          })
          m.store;
  },
))

unfoldable pub register : TerminalSession → M (Unit {0})
register s = update (λ m. record m { runtimes = insert ℕ_discrete s.id (new_entry s) m.runtimes })

-- `id` is the UUID that the database draws.
unfoldable pub create_session : ℕ → ℕ → CreateRequest → M TerminalSession
create_session id now req = do
  validate_dim invalid_cols req.cols
  validate_dim invalid_rows req.rows
  session ← insert_row id now req
  create_event session.id created (created_stub session.cols session.rows)
  register session
  pure session

unfoldable pub if_open : TerminalSession → M (Unit {0})
if_open s = if is_closed s.status then fail session_closed else pure tt

-- `RecordingRuntime::writer_for`, or the disabled writer.
unfoldable pub writer_for : Manager → Option Recorder
writer_for m = elim m.settings.recording [ none ↦ none | some r ↦ some enabled ]

abbrev pub candidate : ℕ → Manager → LiveRuntime
candidate handle m = record {
  handle = handle;
  replay = Replay.new default_config;
  detach_close = none;
  recording = writer_for m;
  last_seq = 0;
}

unfoldable pub go_live : LiveRuntime → RuntimeEntry → RuntimeEntry
go_live l e = record e { snapshot = record e.snapshot { status = Manager.live }; live = some l }

-- The runtime's entry must be there.
unfoldable pub if_registered : Option RuntimeEntry → M (Unit {0})
if_registered none = fail not_found
if_registered (some e) = pure tt

unfoldable pub registered : ℕ → M (Unit {0})
registered id m = if_registered (get ℕ_discrete id m.runtimes) m

unfoldable pub install : ℕ → ℕ → M (Unit {0})
install id handle = do
  registered id
  update
      (λ m. record m { runtimes = modify ℕ_discrete id (go_live (candidate handle m)) m.runtimes })

unfoldable pub start_live_pty : ℕ → ℕ → ℕ → ℕ → M TerminalSession
start_live_pty owner_id id handle now = do
  session ← owned_session owner_id id
  if_open session
  registered id
  update_status id Sessions.active none now
  updated ← owned_session owner_id id
  install id handle
  pure updated

unfoldable pub end_runtime : RuntimeEntry → RuntimeEntry
end_runtime e = record e { snapshot = record e.snapshot { status = Manager.ended }; live = none }

unfoldable pub not_of_session : ℕ → ℕ → AttachmentRuntime → Bool
not_of_session session_id key a = not (a.session_id == session_id)

unfoldable pub drop_attachments : ℕ → M (Unit {0})
drop_attachments id =
    update (λ m. record m { attachments = retain (not_of_session id) m.attachments })

unfoldable pub drop_runtime : ℕ → M (Unit {0})
drop_runtime id = update (λ m. record m { runtimes = remove ℕ_discrete id m.runtimes })

unfoldable pub finish_failed : ℕ → List ℕ → ℕ → TerminalSession → M (Unit {0})
finish_failed id category now session = if is_closed session.status then pure tt else do
  update_status id Sessions.closed (some now) now
  ignore_error (create_event id closed (ssh_start_failed category))
  drop_attachments id
  drop_runtime id

-- The registry is changed before the owner is looked at.
unfoldable pub record_pty_start_failed : ℕ → ℕ → List ℕ → ℕ → M (Unit {0})
record_pty_start_failed owner_id id category now = do
  update (λ m. record m { runtimes = modify ℕ_discrete id end_runtime m.runtimes })
  session ← owned_session owner_id id
  finish_failed id category now session

-- The recording's writer is shut down with the last number of the forwarder.
unfoldable pub end_recording :
    Option (RecordingWriterConfig × Accepts) → ℕ → ℕ → Option Recorder → M (Unit {0})
end_recording settings id last_seq none m = (Manager.ok tt, m)
end_recording none id last_seq (some r) m = (Manager.ok tt, m)
end_recording (some (c, accepts)) id last_seq (some r) m = (
  Manager.ok tt,
  record m { ended_recordings = (id, shut_down c accepts last_seq r) ∷ m.ended_recordings },
)

unfoldable pub shutdown_live : ℕ → Option LiveRuntime → M (Unit {0})
shutdown_live id none m = (Manager.ok tt, m)
shutdown_live id (some l) m = end_recording m.settings.recording id l.last_seq l.recording m

-- The entry is taken out of the registry, and its runtime, if it is live, is shut down.
unfoldable pub shutdown_runtime : ℕ → Option RuntimeEntry → M (Unit {0})
shutdown_runtime id none = pure tt
shutdown_runtime id (some e) = shutdown_live id e.live

unfoldable pub remove_runtime : ℕ → M (Unit {0})
remove_runtime id = do
  removed ← read (λ m. get ℕ_discrete id m.runtimes)
  drop_runtime id
  shutdown_runtime id removed

unfoldable pub close_open : ℕ → ℕ → ℕ → M CloseOutcome
close_open id owner_id now = do
  update_status id Sessions.closed (some now) now
  create_event id closed client_requested
  updated ← owned_session owner_id id
  remove_runtime id
  drop_attachments id
  pure (record { session = updated; already_closed = false })

unfoldable pub close_closed : ℕ → TerminalSession → M CloseOutcome
close_closed id session = do
  remove_runtime id
  pure (record { session = session; already_closed = true })

unfoldable pub close_session : ℕ → ℕ → ℕ → M CloseOutcome
close_session id owner_id now = do
  session ← owned_session owner_id id
  if is_closed session.status then close_closed id session else close_open id owner_id now
