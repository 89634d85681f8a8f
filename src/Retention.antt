-- ===== src/Retention.antt =====
-- The retention sweep, crates/relayterm-terminal/src/retention.rs, and its periodic worker,
-- crates/relayterm-terminal/src/retention_worker.rs, over the tables of Corpus, with the advisory lock
-- of crates/relayterm-db/src/repositories/retention_advisory_lock.rs.
-- The sums of the summary are natural numbers: no table holds 2 ^ 63 rows.
pub mod Rule
pub mod Worker
mod Tests
pub mod Relation
pub mod Counts
pub mod Backlog
pub mod Drain
pub mod Ticks
pub mod Accounts
use relay_term.Prelude.{
  ℕ, ◌+◌, Bool, true, false, not, ◌&&◌, ◌||◌, Option, none, some, List, [], ◌∷◌, if◌then◌else◌,
  ◌==◌, length,
}
use relay_term.Corpus.{
  Db, Result, ok, err, RepositoryError, not_found, conflict, validation, database, next_fault,
  later_faults,
}
use relay_term.Corpus.Purge.{PurgedRecordingSummary, purge_for_retention}
use relay_term.Corpus.Listing.{list_eligible_for_retention}

pub record RecordingRetentionSweepSummary : Type 0 where
  pub candidate_count : ℕ
  pub purged_sessions : ℕ
  pub chunks_purged : ℕ
  pub markers_purged : ℕ
  pub bytes_purged : ℕ
  pub errors : ℕ
  pub batch_truncated : Bool

abbrev pub nothing_swept : RecordingRetentionSweepSummary
nothing_swept = record {
  candidate_count = 0;
  purged_sessions = 0;
  chunks_purged = 0;
  markers_purged = 0;
  bytes_purged = 0;
  errors = 0;
  batch_truncated = false;
}

unfoldable pub is_empty : RecordingRetentionSweepSummary → Bool
is_empty s = (s.candidate_count == 0) && (s.errors == 0)

-- The aggregates after one purge.
unfoldable pub count_purge :
    Option PurgedRecordingSummary → RecordingRetentionSweepSummary → RecordingRetentionSweepSummary
count_purge none s = s
count_purge (some p) s = record s {
  purged_sessions = s.purged_sessions + 1;
  chunks_purged = s.chunks_purged + p.chunk_count;
  markers_purged = s.markers_purged + p.marker_count;
  bytes_purged = s.bytes_purged + p.bytes_purged;
}

-- One answer of the loop: the loop goes on with the next candidate, or stops at the error.
unfoldable pub sweep_on :
    Result (Option PurgedRecordingSummary)
    → RecordingRetentionSweepSummary
    → Db
    → (RecordingRetentionSweepSummary → RecordingRetentionSweepSummary × Db)
    → RecordingRetentionSweepSummary × Db
sweep_on (ok purge) s db next = next (count_purge purge s)
sweep_on (err e) s db next = (record s { errors = 1; batch_truncated = false }, db)

-- The loop over the candidates.
unfoldable pub sweep_all :
    ℕ → ℕ → List ℕ → RecordingRetentionSweepSummary → Db → RecordingRetentionSweepSummary × Db
sweep_all days now [] s db = (s, db)
sweep_all days now (id ∷ ids) s db =
    let run = purge_for_retention days now id db in
    sweep_on run.0 s run.1 (λ next. sweep_all days now ids next run.1)

unfoldable pub sweep_listed : ℕ → ℕ → ℕ → Result (List ℕ) → Db → RecordingRetentionSweepSummary × Db
sweep_listed days batch_size now (err e) db = (record nothing_swept { errors = 1 }, db)
sweep_listed days batch_size now (ok candidates) db =
    sweep_all days now candidates
      (record nothing_swept {
        candidate_count = length candidates;
        batch_truncated = length candidates == batch_size;
      })
      db

unfoldable pub run_recording_retention_sweep : ℕ → ℕ → ℕ → Db → RecordingRetentionSweepSummary × Db
run_recording_retention_sweep days batch_size now db =
    let run = list_eligible_for_retention days now batch_size db in
    sweep_listed days batch_size now run.0 run.1

unfoldable pub run_recording_retention_startup_sweep :
    ℕ → ℕ → ℕ → Db → RecordingRetentionSweepSummary × Db
run_recording_retention_startup_sweep = run_recording_retention_sweep

-- The tag of a log line.
pub data ErrorKind : Type 0 where
  not_found_kind conflict_kind validation_kind database_kind : ErrorKind

unfoldable pub repository_error_kind : RepositoryError → ErrorKind
repository_error_kind not_found = not_found_kind
repository_error_kind conflict = conflict_kind
repository_error_kind validation = validation_kind
repository_error_kind database = database_kind
