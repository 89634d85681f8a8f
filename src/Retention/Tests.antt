-- ===== src/Retention/Tests.antt =====
-- Purges and sweeps of a small database, crates/relayterm-terminal/src/retention.rs.
use relay_term.Prelude.{
  ℕ, ◌*◌, ◌≡◌, refl, inr, true, false, Option, none, some, [], ◌∷◌, arith, ℕ_discrete,
}
use relay_term.Prelude.Assoc.{get}
use relay_term.Sessions.{TerminalSession, active, closed}
use relay_term.Corpus.{
  TerminalRecordingChunk, Tables, Db, day, expired, expired_at, expired_row, statement, next_fault,
  later_faults, after, transaction, rolled_back, sum_bytes,
}
use relay_term.Corpus.Purge.{
  purge_for_retention, purge_closed, delete_recording, chunk_aggregate, count_markers,
}
use relay_term.Corpus.Listing.{
  list_eligible_for_retention, eligible, candidate, is_recorded, order_by, insert_by,
}
use relay_term.Corpus.Purged.{PurgesAll, purge_atomic}
use relay_term.Retention.{
  nothing_swept, run_recording_retention_sweep, sweep_listed, sweep_all, sweep_on, count_purge,
}
use relay_term.Retention.Relation.{Trims, sweep-Trims}
use relay_term.Retention.Accounts.{Accounts, sweep-Accounts}
use relay_term.Retention.Backlog.{sound}
use relay_term.Retention.Counts.{backlog}
use relay_term.Retention.Ticks.{ticks, worker_drains}
use relay_term.Retention.Worker.{RecordingRetentionPeriodicConfig, taken, run_worker}

abbrev closed_session : ℕ → Option ℕ → TerminalSession
closed_session id at = record {
  id = id;
  owner_id = 1;
  server_profile_id = 3;
  status = closed;
  cols = 80;
  rows = 24;
  created_at = 1;
  last_seen_at = 1;
  closed_at = at;
}

abbrev two_bytes : ℕ → TerminalRecordingChunk
two_bytes session = record {
  id = 40;
  terminal_session_id = session;
  seq_start = 1;
  seq_end = 2;
  byte_len = 2;
  payload = 104 ∷ 105 ∷ [];
  created_at = 5;
}

-- Session 5 was closed at 10, session 6 at 4, session 7 is open.
abbrev three_recordings : Tables
three_recordings = record {
  sessions =
      (5, closed_session 5 (some 10))
      ∷ (6, closed_session 6 (some 4))
      ∷ (7, record (closed_session 7 none) { status = active })
      ∷ [];
  chunks = two_bytes 5 ∷ two_bytes 6 ∷ two_bytes 5 ∷ two_bytes 7 ∷ [];
  markers = [];
  audits = [];
}

-- The second statement fails.
abbrev shaky : Db
shaky = record { tables = three_recordings; faults = false ∷ true ∷ [] }

abbrev steady : Db
steady = record { tables = three_recordings; faults = [] }

purge_atomic_example :
    PurgesAll 30
      (31 * day)
      5
      6
      three_recordings
      (purge_for_retention 30 (31 * day) 5 steady).0
      (purge_for_retention 30 (31 * day) 5 steady).1.tables
purge_atomic_example = purge_atomic 30 (31 * day) 5 6 steady

sweep-Trims_example :
    Trims 30
      (31 * day)
      three_recordings
      (run_recording_retention_sweep 30 10 (31 * day) shaky).1.tables
sweep-Trims_example = sweep-Trims 30 10 (31 * day) shaky

sweep-Accounts_example :
    Accounts
      (run_recording_retention_sweep 30 10 (31 * day) (sound three_recordings)).0
      three_recordings
      (run_recording_retention_sweep 30 10 (31 * day) (sound three_recordings)).1.tables
sweep-Accounts_example = sweep-Accounts 30 10 (31 * day) (sound three_recordings)

abbrev one_each : RecordingRetentionPeriodicConfig
one_each = record { retention_days = 30; batch_size = 1; interval = 3600 }

worker_drains_example :
    backlog 30
      (31 * day)
      (run_worker one_each (ticks 2 (31 * day) (some taken)) (sound three_recordings)).1.tables
    ≡ []
unfolding get eligible candidate expired_at is_recorded ℕ_discrete
worker_drains_example =
    worker_drains one_each (31 * day) 2 (some taken) three_recordings refl (inr refl)
      (refl, (refl, (refl, tt))) (omega arith)

-- The oldest session goes first, and one more is left for the next sweep.
oldest_first :
    (run_recording_retention_sweep 30 1 (31 * day) (sound three_recordings)).0
    ≡ record nothing_swept {
      candidate_count = 1;
      purged_sessions = 1;
      chunks_purged = 1;
      bytes_purged = 2;
      batch_truncated = true;
    }
unfolding run_recording_retention_sweep list_eligible_for_retention statement next_fault
    later_faults sweep_listed sweep_all sweep_on count_purge purge_for_retention transaction
    rolled_back after purge_closed delete_recording expired expired_row expired_at get eligible
    candidate is_recorded order_by insert_by chunk_aggregate count_markers sum_bytes ℕ_discrete
oldest_first = refl
