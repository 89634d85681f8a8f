-- ===== src/Socket/Unsent.antt =====
-- The answer to an attach cannot be sent: what stays of the session's close,
-- crates/relayterm-api/src/routes/v1/terminal_sessions.rs.
use relay_term.Prelude.{
  ℕ, ◌≡◌, ◌∙◌, refl, sym, ap, Bool, true, false, Option, none, some, List, [], ◌∷◌, is_some,
  ℕ_discrete,
}
use mathlib.Core.Bool.{true≢false}
use relay_term.Prelude.Assoc.{get}
use relay_term.Sessions.{TerminalSession, is_closed, find}
use relay_term.Manager.{
  Manager, LiveRuntime, RuntimeEntry, DetachInfo, ok, runtime_view, live_of, M,
}
use relay_term.Manager
use relay_term.Manager.Attach.{
  AttachRequest, AttachOutcome, attach_session, detach_state, close_of, map_live, no_close,
}
use relay_term.Manager.Access.{request}
use relay_term.Manager.Quiet.{quiet}
use relay_term.Manager.Return.{after_return, return_cancels, attach_session-Returned}
use relay_term.Manager.Reattach.{view-change}
use relay_term.Manager.Registry.{Still-detach_session, SameRegistry}
use relay_term.Socket.{Connection, Peer, Outside, Sent, send, put, send_error}
use relay_term.Socket.Run.{attach_socket, greet, acknowledged, cut_client_info}

-- The first send of the connection fails.
abbrev pub failing : Manager → List Sent → List Bool → Connection → Connection
failing m sent rest c = record c {
  manager = m;
  socket = record { sent = sent; faults = true ∷ rest };
}

-- Whatever the attach answered, the loop does not start, and the registry is left as the attach left it.
greet_failed :
    (out : Outside) (p : Peer) (r : Manager.Result AttachOutcome) (m : Manager) (sent : List Sent)
    (rest : List Bool) (c : Connection)
    → ((greet out p r (failing m sent rest c)).0 ≡ false)
      × SameRegistry m (greet out p r (failing m sent rest c)).1.manager
unfolding greet acknowledged send put send_error
greet_failed out p (Manager.err e) m sent [] c = (refl, (refl, refl))
greet_failed out p (Manager.err e) m sent (false ∷ rest) c = (refl, (refl, refl))
greet_failed out p (Manager.err e) m sent (true ∷ rest) c = (refl, (refl, refl))
greet_failed out p (Manager.ok outcome) m sent rest c =
    (refl, (Still-detach_session p.user_id p.session_id outcome.attachment.id none out.now).at m)

is_due-live :
    (o : Option LiveRuntime) (info : DetachInfo) → close_of o ≡ some info → is_some o ≡ true
unfolding close_of
is_due-live none info e = absurd (true≢false (sym (ap is_some e)))
is_due-live (some l) info e = refl

map_live-some :
    (f : LiveRuntime → LiveRuntime) (o : Option LiveRuntime) → is_some (map_live f o) ≡ is_some o
unfolding map_live
map_live-some f none = refl
map_live-some f (some l) = refl

-- The owner of an open session comes back while its close is pending, and no call of the repositories
-- fails, but the answer cannot be sent: the loop does not start, the session is still live, and no close
-- of it is pending any more.
pub unsent_answer_stays_live :
    (out : Outside) (id owner_id attachment_id : ℕ) (client_info : Option (List ℕ))
    (info : DetachInfo) (m : Manager) (s : TerminalSession) (sent : List Sent) (rest : List Bool)
    (c : Connection)
    → find id m.store ≡ some s
    → s.id ≡ id
    → s.owner_id ≡ owner_id
    → is_closed s.status ≡ false
    → detach_state id (quiet m) ≡ some info
    → let tried =
        attach_socket out
          (record { user_id = owner_id; session_id = id })
          attachment_id
          client_info
          (failing (quiet m) sent rest c) in
      (tried.0 ≡ false)
      × (is_some (runtime_view id tried.1.manager) ≡ true)
      × (detach_state id tried.1.manager ≡ none)
unfolding attach_socket detach_state runtime_view
unsent_answer_stays_live out id owner_id attachment_id client_info info m s sent rest c e is_id mine
      still due =
    let p : Peer = record { user_id = owner_id; session_id = id } in
    let req : AttachRequest = request owner_id id (cut_client_info client_info) none in
    let left : Manager = after_return attachment_id out.now req m in
    let (store, runtimes, faults) =
      attach_session-Returned owner_id id attachment_id out.now (cut_client_info client_info) none
        info m s e is_id mine still due in
    let (free, row, expired) =
      return_cancels owner_id id attachment_id out.now out.now (cut_client_info client_info) none
        info m s e is_id mine still due in
    let (stopped, (settings, same)) =
      greet_failed out p (attach_session attachment_id out.now req (quiet m)).0 left sent rest c in
    (
      stopped,
      ap (λ r. is_some (live_of (get ℕ_discrete id r))) same
          ∙ ap is_some (view-change id no_close m left runtimes)
          ∙ map_live-some no_close (runtime_view id m)
          ∙ is_due-live (runtime_view id m) info due,
      ap (λ r. close_of (live_of (get ℕ_discrete id r))) same ∙ free,
    )
