-- ===== src/Retention/Worker.antt =====
-- The periodic worker, crates/relayterm-terminal/src/retention_worker.rs, and its advisory lock,
-- crates/relayterm-db/src/repositories/retention_advisory_lock.rs.
-- The clock's reading at a tick is an argument of the tick. What the pool and the lock server answer
-- is an argument too: `LockAnswer` has the four cases of `run_with_lock`.
use relay_term.Prelude.{
  ℕ, ◌+◌, Bool, true, false, not, ◌||◌, Option, none, some, List, [], ◌∷◌, if◌then◌else◌, ◌==◌,
}
use relay_term.Corpus.{Db}
use relay_term.Retention.{
  RecordingRetentionSweepSummary, nothing_swept, run_recording_retention_sweep,
}

pub record RecordingRetentionPeriodicConfig : Type 0 where
  pub retention_days : ℕ
  pub batch_size : ℕ
  pub interval : ℕ

unfoldable pub periodic_worker_config_if_enabled :
    Bool → Bool → ℕ → ℕ → ℕ → Option RecordingRetentionPeriodicConfig
periodic_worker_config_if_enabled cleanup_enabled periodic_sweep_enabled sweep_interval_seconds days
      batch_size =
    if not cleanup_enabled || (not periodic_sweep_enabled || (sweep_interval_seconds == 0))
    then none
    else some (record {
      retention_days = days;
      batch_size = batch_size;
      interval = sweep_interval_seconds;
    })

pub data LockAnswer : Type 0 where
  unreachable held_elsewhere taken unlock_failed : LockAnswer

pub data AdvisoryLockOutcome : Type 0 where
  acquired skipped lock_failed : AdvisoryLockOutcome

-- `run_with_lock`: the outcome, the summary that the work has put into its slot, and the database.
unfoldable pub run_with_lock :
    LockAnswer
    → (Db → RecordingRetentionSweepSummary × Db)
    → Db
    → AdvisoryLockOutcome × Option RecordingRetentionSweepSummary × Db
run_with_lock unreachable work db = (lock_failed, none, db)
run_with_lock held_elsewhere work db = (skipped, none, db)
run_with_lock taken work db = (acquired, some (work db).0, (work db).1)
run_with_lock unlock_failed work db = (lock_failed, some (work db).0, (work db).1)

pub data RecordingRetentionTickOutcome : Type 0 where
  ran : RecordingRetentionSweepSummary → RecordingRetentionTickOutcome
  tick_skipped lock_error : RecordingRetentionTickOutcome

unfoldable pub or_default : Option RecordingRetentionSweepSummary → RecordingRetentionSweepSummary
or_default none = nothing_swept
or_default (some s) = s

unfoldable pub tick_outcome :
    AdvisoryLockOutcome → Option RecordingRetentionSweepSummary → RecordingRetentionTickOutcome
tick_outcome acquired slot = ran (or_default slot)
tick_outcome skipped slot = tick_skipped
tick_outcome lock_failed slot = lock_error

-- Without a lock the sweep runs at once.
unfoldable pub run_one_periodic_tick :
    Option LockAnswer → ℕ → ℕ → ℕ → Db → RecordingRetentionTickOutcome × Db
run_one_periodic_tick none days batch_size now db =
    let run = run_recording_retention_sweep days batch_size now db in (ran run.0, run.1)
run_one_periodic_tick (some answer) days batch_size now db =
    let run = run_with_lock answer (run_recording_retention_sweep days batch_size now) db in
    (tick_outcome run.0 run.1, run.2)

-- What wakes the worker: the shutdown channel has a new value or is closed, or the ticker fires at
-- the given time. The channel is looked at first.
pub data Wake : Type 0 where
  shutdown_changed : Bool → Wake
  shutdown_closed : Wake
  tick : ℕ → Option LockAnswer → Wake

-- The worker's loop over what wakes it. The number of ticks that it ran comes with the database.
unfoldable pub run_worker : RecordingRetentionPeriodicConfig → List Wake → Db → ℕ × Db
run_worker cfg [] db = (0, db)
run_worker cfg (shutdown_changed true ∷ wakes) db = (0, db)
run_worker cfg (shutdown_changed false ∷ wakes) db = run_worker cfg wakes db
run_worker cfg (shutdown_closed ∷ wakes) db = (0, db)
run_worker cfg (tick now answer ∷ wakes) db =
    let run = run_one_periodic_tick answer cfg.retention_days cfg.batch_size now db in
    let rest = run_worker cfg wakes run.1 in (rest.0 + 1, rest.1)
