-- ===== src/Sessions/Tests.antt =====
-- A start of the backend over a small table, crates/relayterm-db/src/repositories/terminal_session.rs.
use relay_term.Prelude.{ℕ, ◌≡◌, refl, Bool, true, false, none, some, List, [], ◌∷◌, ℕ_discrete}
use relay_term.Prelude.Assoc.{get, Distinct}
use relay_term.Prelude.Calls.{ok, err, On, pure, read, update, after, ◌>>=◌}
use relay_term.Sessions.{TerminalSession, active, closed, mark}
use relay_term.Sessions.Reconcile.{
  StartupTables, StartupDb, database, next_fault, later_faults, statement, rolled_back, transaction,
  is_orphan, orphans, close_row, larger, max_seq_end, has_marker, add_marker, closing_marker,
  close_orphan, close_orphans, reconcile,
}
use relay_term.Sessions.Startup.{Starts, startup_closes, startup_twice}

abbrev open_row : TerminalSession
open_row = record {
  id = 5;
  owner_id = 1;
  server_profile_id = 3;
  status = active;
  cols = 80;
  rows = 24;
  created_at = 10;
  last_seen_at = 10;
  closed_at = none;
}

abbrev two_rows : List (ℕ × TerminalSession)
two_rows =
    (5, open_row) ∷ (6, record open_row { id = 6; status = closed; closed_at = some 11 }) ∷ []

abbrev a_table : StartupTables
a_table = record { sessions = two_rows; events = []; chunks = (5, 38) ∷ (5, 40) ∷ []; markers = [] }

abbrev a_start : List Bool → StartupDb
a_start faults = record { tables = a_table; faults = faults }

two_rows-Distinct : Distinct ℕ_discrete two_rows
unfolding get ℕ_discrete
two_rows-Distinct = (refl, (refl, tt))

startup_closes_example :
    Starts 30 31 5 40 a_table
      (reconcile 30 31 (a_start [])).0
      (reconcile 30 31 (a_start [])).1.tables
startup_closes_example = startup_closes 30 31 5 40 (a_start []) two_rows-Distinct

-- Only the row that was open is reported.
returned :
    (reconcile 30 31 (a_start [])).0 ≡ ok (record { session_id = 5; previous_status = active } ∷ [])
unfolding reconcile transaction rolled_back ◌>>=◌ after statement next_fault pure later_faults read
    close_orphans orphans is_orphan close_orphan update closing_marker max_seq_end larger add_marker
    close_row has_marker mark
returned = refl

startup_twice_example :
    let left = (reconcile 30 31 (a_start [])).1.tables in
    let again = reconcile 60 61 (record { tables = left; faults = [] }) in
    (again.1.tables ≡ left) × On again.0 (λ reported. reported ≡ [])
startup_twice_example =
    startup_twice 30 31 60 61 [] (a_start [])
      (record { session_id = 5; previous_status = active } ∷ []) returned

-- It gets a marker at its last number.
one_marker : (reconcile 30 31 (a_start [])).1.tables.markers ≡ (5, 40) ∷ []
unfolding reconcile transaction rolled_back ◌>>=◌ after statement next_fault pure later_faults read
    close_orphans orphans is_orphan close_orphan update closing_marker max_seq_end larger add_marker
    close_row has_marker mark
one_marker = refl

-- The insert of the event fails.
event_fails :
    reconcile 30 31 (a_start (false ∷ false ∷ false ∷ true ∷ [])) ≡ (err database, a_start [])
unfolding reconcile transaction rolled_back ◌>>=◌ after statement next_fault pure later_faults read
    close_orphans orphans is_orphan close_orphan update closing_marker max_seq_end larger add_marker
    close_row has_marker mark
event_fails = refl
