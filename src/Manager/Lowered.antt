-- ===== src/Manager/Lowered.antt =====
-- Each handler of crates/relayterm-terminal/src/manager.rs but `start_live_pty` leaves no more live PTYs
-- than there were; that one adds at most one, of the owner of the entry.
use relay_term.Prelude.{
  ℕ, ◌≡◌, refl, sym, Bool, true, false, Option, none, some, List, is_some, ℕ_discrete,
}
use mathlib.Core.Bool.{true≢false}
use relay_term.Prelude.Assoc.{modify}
use relay_term.Sessions.{TerminalSession, is_closed}
use relay_term.Sessions
use relay_term.Manager.{
  Manager, RuntimeEntry, LiveRuntime, ClosedReason, update, ignore_error, update_status,
}
use relay_term.Manager.Lifecycle.{
  CreateRequest, create_session, new_entry, register, end_runtime, finish_failed,
  record_pty_start_failed, drop_runtime, end_recording, shutdown_live, shutdown_runtime,
  remove_runtime, close_open, close_closed, close_session,
}
use relay_term.Manager.Attach.{
  AttachRequest, change_live, map_live, cancel_pending_close, insert_attachment, note_return,
  register_attachment, attach_session, keep_or_set, pending_at, schedule_detach_close,
  detach_attachment, expire_detach_close, set_size, note_size, resize_session,
}
use relay_term.Manager.Pty.{stamp, on_live, forward, end_row, tear_down}
use relay_term.Manager.Registry.{
  Still, SameRegistry, still_rules, Still-update, Still-call, Still-read, Still-owned_session,
  Still-if_open, Still-validate_dim, Still-insert_row, Still-create_event, Still-update_status,
  Still-drop_attachments, Still-detach_session,
}
use relay_term.Manager.Counts.{
  Fewer, Lowers, Lowers-Still, Lowers-if, Lowers-ignore, Lowers-bind, Lowers-update, Tame,
  modify-Fewer, remove-Fewer, insert-Fewer,
}

ruleset lowers_rules = (
  Lowers-bind, Lowers-if, Lowers-ignore, Lowers-Still, still_rules, Still-owned_session,
  Still-if_open, Still-validate_dim, Still-insert_row, Still-create_event, Still-update_status,
  Still-drop_attachments,
)

-- A change of the live runtime, if there is one.
change_live-Tame : (f : LiveRuntime → LiveRuntime) → Tame (change_live f)
unfolding change_live map_live
change_live-Tame f = record { owner = λ e. refl; live = λ e h. go e.live h }
  where
    go : (o : Option LiveRuntime) → is_some (map_live f o) ≡ true → is_some o ≡ true
    go none h = h
    go (some l) h = refl

Lowers-modify :
    (id : ℕ) (f : RuntimeEntry → RuntimeEntry)
    → Tame f
    → Lowers (update (λ m. record m { runtimes = modify ℕ_discrete id f m.runtimes }))
Lowers-modify id f t = Lowers-update _ (λ m. modify-Fewer id f m t)

Lowers-register : (s : TerminalSession) → Lowers (register s)
unfolding register
Lowers-register s = Lowers-update _ (λ m. insert-Fewer s.id (new_entry s) m refl)

pub Lowers-create_session : (id now : ℕ) (req : CreateRequest) → Lowers (create_session id now req)
unfolding create_session
Lowers-create_session id now req = search (lowers_rules, Lowers-register) depth 12

Lowers-drop_runtime : (id : ℕ) → Lowers (drop_runtime id)
unfolding drop_runtime
Lowers-drop_runtime id = Lowers-update _ (remove-Fewer id)

Lowers-finish_failed :
    (id : ℕ) (category : List ℕ) (now : ℕ) (s : TerminalSession)
    → Lowers (finish_failed id category now s)
unfolding finish_failed
Lowers-finish_failed id category now s = search (lowers_rules, Lowers-drop_runtime) depth 12

end_runtime-Tame : Tame end_runtime
unfolding end_runtime
end_runtime-Tame = record { owner = λ e. refl; live = λ e h. absurd (true≢false (sym h)) }

pub Lowers-record_pty_start_failed :
    (owner_id id : ℕ) (category : List ℕ) (now : ℕ)
    → Lowers (record_pty_start_failed owner_id id category now)
unfolding record_pty_start_failed
Lowers-record_pty_start_failed owner_id id category now =
    search (lowers_rules, Lowers-modify, end_runtime-Tame, Lowers-finish_failed) depth 12

-- The end of a recording.
Still-shutdown_runtime : (id : ℕ) (o : Option RuntimeEntry) → Still (shutdown_runtime id o)
unfolding shutdown_runtime shutdown_live end_recording
Still-shutdown_runtime id none = search still_rules
Still-shutdown_runtime id (some e) = record { at = λ m. go e.live m }
  where
    go : (o : Option LiveRuntime) (m : Manager) → SameRegistry m (shutdown_live id o m).1
    go none m = (refl, refl)
    go (some l) m = kept m.settings.recording l.recording
      where
        kept : (c : Option _) (r : Option _) → SameRegistry m (end_recording c id l.last_seq r m).1
        kept c none = (refl, refl)
        kept none (some r) = (refl, refl)
        kept (some c) (some r) = (refl, refl)

Lowers-remove_runtime : (id : ℕ) → Lowers (remove_runtime id)
unfolding remove_runtime
Lowers-remove_runtime id =
    search (lowers_rules, Lowers-drop_runtime, Still-shutdown_runtime) depth 12

pub Lowers-close_session : (id owner_id now : ℕ) → Lowers (close_session id owner_id now)
unfolding close_session close_open close_closed
Lowers-close_session id owner_id now = search (lowers_rules, Lowers-remove_runtime) depth 12

no_close_rule : (id : ℕ) → Lowers (cancel_pending_close id)
unfolding cancel_pending_close
no_close_rule id = search (lowers_rules, Lowers-modify, change_live-Tame) depth 12

Still-insert_attachment : (id now : ℕ) (req : AttachRequest) → Still (insert_attachment id now req)
unfolding insert_attachment
Still-insert_attachment id now req = Still-call _ (record { at = λ m. (refl, refl) })

Still-note_return : (session_id id now : ℕ) (b : Bool) → Still (note_return session_id id now b)
unfolding note_return
Still-note_return session_id id now false = search still_rules
Still-note_return session_id id now true =
    search (still_rules, Still-update_status, Still-create_event)

Still-register_attachment : (s : TerminalSession) (a : _) → Still (register_attachment s a)
unfolding register_attachment
Still-register_attachment s a = Still-update _ (λ m. (refl, refl))

pub Lowers-attach_session : (id now : ℕ) (req : AttachRequest) → Lowers (attach_session id now req)
unfolding attach_session
Lowers-attach_session id now req =
    search
      (
        lowers_rules, no_close_rule, Still-insert_attachment, Still-note_return,
        Still-register_attachment,
      )
      depth 14

Lowers-schedule : (id now : ℕ) → Lowers (schedule_detach_close id now)
unfolding schedule_detach_close
Lowers-schedule id now =
    Lowers-bind (ignore_error (update_status id Sessions.detached none now)) _
      (Lowers-ignore _ (Lowers-Still _ (Still-update_status id Sessions.detached none now)))
      λ _. Lowers-bind _ _ modified λ _. Lowers-Still _ (Still-read _)
  where
    modified : Lowers (
        update (λ m. record m {
          runtimes = modify ℕ_discrete id (change_live (keep_or_set (pending_at m now))) m.runtimes;
        }))
    modified = Lowers-update _ (λ m. modify-Fewer id _ m (change_live-Tame _))

pub Lowers-detach_attachment :
    (owner_id session_id id : ℕ) (seen : Option ℕ) (now : ℕ)
    → Lowers (detach_attachment owner_id session_id id seen now)
unfolding detach_attachment
Lowers-detach_attachment owner_id session_id id seen now =
    search (lowers_rules, Still-detach_session, Lowers-schedule) depth 12

pub Lowers-expire :
    (session_id owner_id now : ℕ) → Lowers (expire_detach_close session_id owner_id now)
unfolding expire_detach_close
Lowers-expire session_id owner_id now = search (lowers_rules, Lowers-close_session) depth 12

resized-Tame :
    (cols rows : ℕ) (json : List ℕ)
    → Tame (λ e. change_live (note_size json) (set_size cols rows e))
unfolding set_size
resized-Tame cols rows json = record {
  owner = λ e. (change_live-Tame (note_size json)).owner (set_size cols rows e);
  live = λ e h. (change_live-Tame (note_size json)).live (set_size cols rows e) h;
}

pub Lowers-resize_session :
    (owner_id id cols rows : ℕ) (json : List ℕ) → Lowers (resize_session owner_id id cols rows json)
unfolding resize_session
Lowers-resize_session owner_id id cols rows json =
    search (lowers_rules, Lowers-modify, resized-Tame) depth 14

pub forward-Fewer : (id : ℕ) (bytes : List ℕ) (m : Manager) → Fewer m (forward id bytes m)
unfolding forward stamp on_live
forward-Fewer id bytes m = modify-Fewer id _ m (stamp-Tame m.settings.recording)
  where
    stamp-Tame : (c : Option _) → Tame (stamp c bytes)
    stamp-Tame c = record { owner = λ e. refl; live = λ e h. go e.next_seq e.live h }
      where
        go :
            (n : ℕ) (o : Option LiveRuntime)
            → is_some (on_live c n bytes o) ≡ true
            → is_some o ≡ true
        go n none h = h
        go n (some l) h = refl

Still-end_row :
    (id owner_id : ℕ) (reason : Option ClosedReason) (now : ℕ) (o : Option TerminalSession)
    → Still (end_row id owner_id reason now o)
unfolding end_row
Still-end_row id owner_id reason now none = search still_rules
Still-end_row id owner_id reason now (some s) =
    search (still_rules, Still-update_status, Still-create_event)

pub Lowers-tear_down :
    (id owner_id : ℕ) (reason : Option ClosedReason) (now : ℕ)
    → Lowers (tear_down id owner_id reason now)
unfolding tear_down
Lowers-tear_down id owner_id reason now = search (lowers_rules, Still-end_row) depth 12
