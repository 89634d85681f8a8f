-- ===== src/Manager/Reattach.antt =====
-- The last client leaves and may come back within the time to live of a detached session,
-- crates/relayterm-terminal/src/manager.rs.
use relay_term.Prelude.{
  ℕ, ◌≡◌, refl, ap, ◌∙◌, true, false, Option, none, some, ◌∷◌, ◌==◌, is_some, ℕ_discrete,
}
use relay_term.Prelude.Assoc.{get, remove, modify, any_if, get-modify_self}
use mathlib.Core.Option
use relay_term.Sessions.{
  TerminalSession, TerminalSessionAttachment, find, find_attachment, mark, is_closed, detach_row,
  coalesce,
}
use relay_term.Sessions
use relay_term.Sessions.Rows.{with_status, with_detached, find_attachment-with_detached}
use relay_term.Manager.{
  Manager, ok, detached, detached_by, after, DetachInfo, LiveRuntime, RuntimeEntry, runtime_view,
  live_of,
}
use relay_term.Manager.Attach.{
  map_live, change_live, close_of, detach_new, detach_session, unregister, left_alone, pending_at,
  keep_or_set, schedule_detach_close, detach_attachment,
}
use relay_term.Manager.Quiet.{
  quiet, update_status-quiet, create_event-quiet, owned_session-quiet, update_detached-quiet,
  attachment_of-quiet,
}

live_of-change :
    (f : LiveRuntime → LiveRuntime) (o : Option RuntimeEntry)
    → live_of (Option.map (change_live f) o) ≡ map_live f (live_of o)
unfolding live_of change_live map_live
live_of-change f none = refl
live_of-change f (some e) = refl

-- What a change of the live part does to the view of the session.
pub view-change :
    (id : ℕ) (f : LiveRuntime → LiveRuntime) (m m' : Manager)
    → m'.runtimes ≡ modify ℕ_discrete id (change_live f) m.runtimes
    → runtime_view id m' ≡ map_live f (runtime_view id m)
unfolding runtime_view
view-change id f m m' e =
    ap (λ r. live_of (get ℕ_discrete id r)) e
    ∙ ap live_of (get-modify_self ℕ_discrete id (change_live f) m.runtimes)
    ∙ live_of-change f (get ℕ_discrete id m.runtimes)

-- A client's attachment to the session of `s`, which it has not left yet.
abbrev pub AttachedTo : ℕ → TerminalSession → TerminalSessionAttachment → Manager → Type 0
AttachedTo attachment_id s a m =
    (find_attachment attachment_id m.store ≡ some a)
    × (a.session_id ≡ s.id)
    × (is_some a.detached_at ≡ false)

-- The manager after a first detach.
abbrev pub detached_manager : ℕ → ℕ → Option ℕ → ℕ → Manager → Manager
detached_manager session_id attachment_id seen now m = record m {
  store = with_detached attachment_id now seen m.store;
  events =
      record { session_id = session_id; kind = detached; payload = detached_by attachment_id seen }
      ∷ m.events;
  attachments = remove ℕ_discrete attachment_id m.attachments;
}

detach_row-session :
    (now : ℕ) (seen : Option ℕ) (a : TerminalSessionAttachment)
    → (detach_row now seen a).session_id ≡ a.session_id
unfolding detach_row
detach_row-session now seen a = refl

pub detach_session-quiet :
    (owner_id session_id attachment_id now : ℕ) (seen : Option ℕ) (m : Manager)
    (s : TerminalSession) (a : TerminalSessionAttachment)
    → find session_id m.store ≡ some s
    → s.owner_id ≡ owner_id
    → AttachedTo attachment_id s a m
    → detach_session owner_id session_id attachment_id seen now (quiet m) ≡ (
      ok (record { session = s; attachment = detach_row now seen a; already_detached = false }),
      detached_manager s.id attachment_id seen now (quiet m),
    )
unfolding detach_session detach_new after unregister
detach_session-quiet owner_id session_id attachment_id now seen m s a e mine (found, of_s, fresh) =
    let told = record (quiet m) {
      store = with_detached attachment_id now seen m.store;
      events =
          record { session_id = s.id; kind = detached; payload = detached_by attachment_id seen }
          ∷ m.events;
    } in
    rw
      (
        owned_session-quiet owner_id session_id m s e mine,
        detach_session,
        attachment_of-quiet s.id attachment_id m a found of_s,
        fresh,
        detach_new,
        update_detached-quiet attachment_id now seen m a found,
        create_event-quiet s.id detached (detached_by attachment_id seen)
            (record m { store = told.store }),
        attachment_of-quiet s.id attachment_id told (detach_row now seen a)
            (find_attachment-with_detached attachment_id now seen m.store a found)
            (detach_row-session now seen a ∙ of_s),
      )
      refl

-- The manager after the last detach from a live session.
abbrev pub pending_manager : ℕ → ℕ → Option ℕ → ℕ → Manager → Manager
pending_manager session_id attachment_id seen now m = record m {
  store =
      with_status session_id Sessions.detached none now
        (with_detached attachment_id now seen m.store);
  events =
      record { session_id = session_id; kind = detached; payload = detached_by attachment_id seen }
      ∷ m.events;
  attachments = remove ℕ_discrete attachment_id m.attachments;
  runtimes = modify ℕ_discrete session_id (change_live (keep_or_set (pending_at m now))) m.runtimes;
}

-- Nobody else is attached, and the session is live.
abbrev pub LastOne : ℕ → ℕ → LiveRuntime → Manager → Type 0
LastOne session_id attachment_id l m =
    (any_if (λ a. a.session_id == session_id) (remove ℕ_discrete attachment_id m.attachments)
      ≡ false)
    × (runtime_view session_id m ≡ some l)

left_alone-LastOne :
    (session_id attachment_id now : ℕ) (seen : Option ℕ) (l : LiveRuntime) (m : Manager)
    → LastOne session_id attachment_id l m
    → left_alone session_id (detached_manager session_id attachment_id seen now (quiet m)) ≡ true
unfolding left_alone runtime_view
left_alone-LastOne session_id attachment_id now seen l m (alone, view) = rw (alone, view) refl

pub detach_attachment-last :
    (owner_id session_id attachment_id now : ℕ) (seen : Option ℕ) (m : Manager)
    (s : TerminalSession) (a : TerminalSessionAttachment) (l : LiveRuntime)
    → find session_id m.store ≡ some s
    → s.id ≡ session_id
    → s.owner_id ≡ owner_id
    → AttachedTo attachment_id s a m
    → LastOne session_id attachment_id l m
    → (detach_attachment owner_id session_id attachment_id seen now (quiet m)).1
      ≡ pending_manager session_id attachment_id seen now (quiet m)
unfolding detach_attachment schedule_detach_close after find remove pending_at
detach_attachment-last owner_id session_id attachment_id now seen m s a l e is_id mine att last =
    rw
      (
        detach_session-quiet owner_id session_id attachment_id now seen m s a e mine att,
        is_id,
        left_alone-LastOne session_id attachment_id now seen l m last,
        schedule_detach_close,
        update_status-quiet session_id Sessions.detached none now
            (detached_manager session_id attachment_id seen now m) s e,
      )
      refl

pub set-close :
    (info : DetachInfo) (l : LiveRuntime) (o : Option LiveRuntime)
    → o ≡ some l
    → l.detach_close ≡ none
    → close_of (map_live (keep_or_set info) o) ≡ some info
unfolding close_of map_live keep_or_set
set-close info l none e h = absurd (cc e)
set-close info l (some k) e h = cc (e, h)

-- The manager after the last client has left.
abbrev pub after_leave : ℕ → ℕ → ℕ → Option ℕ → ℕ → Manager → Manager
after_leave owner_id session_id attachment_id seen now m =
    (detach_attachment owner_id session_id attachment_id seen now (quiet m)).1
