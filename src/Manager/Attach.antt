-- ===== src/Manager/Attach.antt =====
-- Clients attach, detach and come back, crates/relayterm-terminal/src/manager.rs. `expire_detach_close`
-- is the step of the task that `schedule_detach_close` spawns; `cancel_pending_close` aborts that task
-- by taking its entry.
use relay_term.Prelude.{
  ℕ, ◌+◌, max, Bool, true, false, not, ◌&&◌, Option, none, some, List, if◌then◌else◌, ◌==◌, is_some,
  ℕ_discrete,
}
use relay_term.Prelude.Assoc.{insert, remove, modify, any_if}
use relay_term.Sessions.{
  TerminalSession, TerminalSessionAttachment, is_closed, find_attachment, create_attachment,
}
use relay_term.Sessions
use relay_term.Recording.{MarkerPayload, given}
use relay_term.Recording
use relay_term.Recording.Producer.{record_marker}
use relay_term.Manager.{
  DetachInfo, LiveRuntime, RuntimeEntry, AttachmentRuntime, attached_by, reattached_by, detached_by,
  resized_to, attached, reattached, detached, resized, Manager, M, after, ◌>>=◌, ◌>>◌, pure, fail,
  update, read, ignore_error, call, owned_session, attachment_of, update_status, update_detached,
  create_event, live_of, runtime_view, validate_dim, invalid_cols, invalid_rows,
}
use relay_term.Manager
use relay_term.Manager.Lifecycle.{if_open, close_session}

pub record AttachRequest : Type 0 where
  pub owner_id : ℕ
  pub session_id : ℕ
  pub client_info : Option (List ℕ)
  pub remote_addr : Option (List ℕ)

pub record AttachOutcome : Type 0 where
  pub session : TerminalSession
  pub attachment : TerminalSessionAttachment
  pub live : Option LiveRuntime

pub record DetachSessionOutcome : Type 0 where
  pub session : TerminalSession
  pub attachment : TerminalSessionAttachment
  pub already_detached : Bool

pub record DetachOutcome : Type 0 where
  pub detach : DetachSessionOutcome
  pub detached_pending_close : Option DetachInfo

unfoldable pub map_live : (LiveRuntime → LiveRuntime) → Option LiveRuntime → Option LiveRuntime
map_live f none = none
map_live f (some l) = some (f l)

unfoldable pub change_live : (LiveRuntime → LiveRuntime) → RuntimeEntry → RuntimeEntry
change_live f e = record e { live = map_live f e.live }

unfoldable pub no_close : LiveRuntime → LiveRuntime
no_close l = record l { detach_close = none }

unfoldable pub close_of : Option LiveRuntime → Option DetachInfo
close_of none = none
close_of (some l) = l.detach_close

-- When the session of `id` is to be closed, if it is.
unfoldable pub detach_state : ℕ → Manager → Option DetachInfo
detach_state id m = close_of (runtime_view id m)

-- Was there a close to cancel?
unfoldable pub cancel_pending_close : ℕ → M Bool
cancel_pending_close id = do
  pending ← read (detach_state id)
  update (λ m. record m { runtimes = modify ℕ_discrete id (change_live no_close) m.runtimes })
  pure (is_some pending)

abbrev pub attachment_row : ℕ → ℕ → AttachRequest → TerminalSessionAttachment
attachment_row id now req = record {
  id = id;
  session_id = req.session_id;
  attached_at = now;
  detached_at = none;
  client_info = req.client_info;
  remote_addr = req.remote_addr;
  last_seen_seq = none;
}

unfoldable pub insert_attachment : ℕ → ℕ → AttachRequest → M TerminalSessionAttachment
insert_attachment id now req = call (λ m. (
  Manager.ok (attachment_row id now req),
  record m {
    store = create_attachment id now req.session_id req.client_info req.remote_addr m.store;
  },
))

unfoldable pub note_return : ℕ → ℕ → ℕ → Bool → M (Unit {0})
note_return session_id attachment_id now false = pure tt
note_return session_id attachment_id now true = do
  update_status session_id Sessions.active none now
  ignore_error (create_event session_id reattached (reattached_by attachment_id))

unfoldable pub register_attachment : TerminalSession → TerminalSessionAttachment → M (Unit {0})
register_attachment s a = update (λ m. record m {
  attachments =
      insert ℕ_discrete a.id
        (record {
          id = a.id;
          session_id = s.id;
          owner_id = s.owner_id;
          attached_at = a.attached_at;
          client_info = a.client_info;
          remote_addr = a.remote_addr;
        })
        m.attachments;
})

-- `id` is the UUID that the database draws for the attachment.
unfoldable pub attach_session : ℕ → ℕ → AttachRequest → M AttachOutcome
attach_session id now req = do
  session ← owned_session req.owner_id req.session_id
  if_open session
  was_detached_pending_close ← cancel_pending_close session.id
  attachment ← insert_attachment id now (record req { session_id = session.id })
  live_view ← read (runtime_view session.id)
  create_event session.id attached
      (attached_by attachment.id req.client_info req.remote_addr (is_some live_view))
  note_return session.id attachment.id now was_detached_pending_close
  register_attachment session attachment
  pure (record { session = session; attachment = attachment; live = live_view })

unfoldable pub unregister : ℕ → M (Unit {0})
unregister attachment_id =
    update (λ m. record m { attachments = remove ℕ_discrete attachment_id m.attachments })

unfoldable pub detach_new : TerminalSession → ℕ → Option ℕ → ℕ → M DetachSessionOutcome
detach_new session attachment_id last_seen_seq now = do
  update_detached attachment_id now last_seen_seq
  create_event session.id detached (detached_by attachment_id last_seen_seq)
  updated ← attachment_of session.id attachment_id
  unregister attachment_id
  pure (record { session = session; attachment = updated; already_detached = false })

unfoldable pub detach_again :
    TerminalSession → TerminalSessionAttachment → ℕ → M DetachSessionOutcome
detach_again session attachment attachment_id = do
  unregister attachment_id
  pure (record { session = session; attachment = attachment; already_detached = true })

unfoldable pub detach_session : ℕ → ℕ → ℕ → Option ℕ → ℕ → M DetachSessionOutcome
detach_session owner_id session_id attachment_id last_seen_seq now = do
  session ← owned_session owner_id session_id
  attachment ← attachment_of session.id attachment_id
  if is_some attachment.detached_at
      then detach_again session attachment attachment_id
      else detach_new session attachment_id last_seen_seq now

-- Is the session live, and nobody attached to it?
unfoldable pub left_alone : ℕ → Manager → Bool
left_alone session_id m =
    not (any_if (λ a. a.session_id == session_id) m.attachments)
    && is_some (runtime_view session_id m)

unfoldable pub pending_at : Manager → ℕ → DetachInfo
pending_at m now = record { detached_at = now; expires_at = now + m.settings.detach_ttl }

-- A close that is already pending is kept.
unfoldable pub keep_or_set : DetachInfo → LiveRuntime → LiveRuntime
keep_or_set info l = record l {
  detach_close = elim l.detach_close [ none ↦ some info | some kept ↦ some kept ];
}

unfoldable pub schedule_detach_close : ℕ → ℕ → M (Option DetachInfo)
schedule_detach_close session_id now = do
  ignore_error (update_status session_id Sessions.detached none now)
  update (λ m. record m {
    runtimes =
        modify ℕ_discrete session_id (change_live (keep_or_set (pending_at m now))) m.runtimes;
  })
  read (detach_state session_id)

unfoldable pub detach_attachment : ℕ → ℕ → ℕ → Option ℕ → ℕ → M DetachOutcome
detach_attachment owner_id session_id attachment_id last_seen_seq now = do
  detach ← detach_session owner_id session_id attachment_id last_seen_seq now
  alone ← read (left_alone session_id)
  pending ←
      if not detach.already_detached && alone
      then schedule_detach_close session_id now
      else pure none
  pure (record { detach = detach; detached_pending_close = pending })

-- The timer of a pending close fires.
unfoldable pub expire_detach_close : ℕ → ℕ → ℕ → M (Unit {0})
expire_detach_close session_id owner_id now = do
  pending ← read (detach_state session_id)
  if is_some pending then ignore_error (close_session session_id owner_id now) else pure tt

unfoldable pub set_size : ℕ → ℕ → RuntimeEntry → RuntimeEntry
set_size cols rows e = record e { snapshot = record e.snapshot { cols = cols; rows = rows } }

-- The `resized` marker of the recording; `json` is the text of the new size.
unfoldable pub note_size : List ℕ → LiveRuntime → LiveRuntime
note_size json l = record l {
  recording = elim l.recording [
    | none ↦ none
    | some r ↦ some (record_marker Recording.resized (max l.last_seq 1) (given json) r)
  ];
}

unfoldable pub resize_session : ℕ → ℕ → ℕ → ℕ → List ℕ → M TerminalSession
resize_session owner_id session_id cols rows json = do
  validate_dim invalid_cols cols
  validate_dim invalid_rows rows
  session ← owned_session owner_id session_id
  if_open session
  update (λ m. record m {
    runtimes =
        modify ℕ_discrete session.id (λ e. change_live (note_size json) (set_size cols rows e))
          m.runtimes;
  })
  create_event session.id resized (resized_to cols rows)
  pure session
