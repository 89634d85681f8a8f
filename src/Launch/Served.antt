-- ===== src/Launch/Served.antt =====
-- The ceilings on live PTYs hold whatever the backend serves,
-- crates/relayterm-api/src/routes/v1/terminal_sessions.rs and crates/relayterm-terminal/src/manager.rs.
use relay_term.Prelude.{List, [], ◌∷◌}
use relay_term.Manager.Counts.{Within, Fewer-Within, Lowers-Still}
use relay_term.Manager.Registry.{Still-detach_session}
use relay_term.Manager.Lowered.{
  Lowers-close_session, Lowers-attach_session, Lowers-detach_attachment, Lowers-expire,
  Lowers-resize_session, Lowers-tear_down, forward-Fewer,
}
use relay_term.Launch.{Services, Backend}
use relay_term.Launch.Serve.{
  Request, post_session, close, attach, detach, detach_row, resize, expire, output, end_output,
  serve, serve_all,
}
use relay_term.Launch.Quota.{Bounded, launch-Bounded, ask-Bounded}

serve-Bounded :
    (services : Services) (r : Request) (s : Backend) → Bounded s → Bounded (serve services r s)
unfolding serve Bounded
serve-Bounded services (post_session user_id id now req) s w =
    launch-Bounded services user_id id now req s w
serve-Bounded services (close id user_id now) s w =
    (ask-Bounded _ (Lowers-close_session id user_id now)).at s w
serve-Bounded services (attach id now req) s w =
    (ask-Bounded _ (Lowers-attach_session id now req)).at s w
serve-Bounded services (detach user_id session_id id seen now) s w =
    (ask-Bounded _ (Lowers-detach_attachment user_id session_id id seen now)).at s w
serve-Bounded services (detach_row user_id session_id id seen now) s w =
    (ask-Bounded _ (Lowers-Still _ (Still-detach_session user_id session_id id seen now))).at s w
serve-Bounded services (resize user_id id cols rows json) s w =
    (ask-Bounded _ (Lowers-resize_session user_id id cols rows json)).at s w
serve-Bounded services (expire id user_id now) s w =
    (ask-Bounded _ (Lowers-expire id user_id now)).at s w
serve-Bounded services (output id bytes) s w =
    Fewer-Within s.manager _ (forward-Fewer id bytes s.manager) w
serve-Bounded services (end_output id user_id reason now) s w =
    (ask-Bounded _ (Lowers-tear_down id user_id reason now)).at s w

-- While no user has more live PTYs than the ceiling for a user, and the deployment not more than its own,
-- this stays so, whatever launches, closes, attaches, detaches, resizes, timers, output and ends of output
-- the backend serves one after the other, and whichever call of a repository, of the vault or of the bridge
-- fails.
pub quotas_kept :
    (services : Services) (requests : List Request) (s : Backend)
    → Within s.manager
    → Within (serve_all services requests s).manager
unfolding serve_all Bounded
quotas_kept services [] s w = w
quotas_kept services (r ∷ rs) s w =
    quotas_kept services rs (serve services r s) (serve-Bounded services r s w)
