-- ===== src/Retention/Ticks.antt =====
-- The periodic worker empties the backlog, crates/relayterm-terminal/src/retention_worker.rs.
use relay_term.Prelude.{
  ℕ, zero, suc, ◌-◌, ◌*◌, ◌≤◌, ◌≡◌, ◌⊎◌, inl, inr, refl, ◌∙◌, sym, ap, subst, max, true, false,
  Option, none, some, List, [], ◌∷◌, ◌++◌, ltb, length, arith, ℕ_discrete,
}
use native.Mathlib.Nat.{suc-mul, zero-mul}
use relay_term.Prelude.Assoc.{Distinct}
use relay_term.Corpus.{Tables, Db, i32_max}
use relay_term.Retention.Backlog.{sound}
use relay_term.Retention.Counts.{backlog}
use relay_term.Retention.Drain.{sweep-drains}
use relay_term.Retention.{run_recording_retention_sweep}
use relay_term.Retention.Worker.{
  RecordingRetentionPeriodicConfig, LockAnswer, taken, Wake, tick, shutdown_changed,
  shutdown_closed, run_with_lock, run_one_periodic_tick, run_worker,
}

-- The ticks of a worker that has no lock to take, or gets it.
abbrev pub Granted : Option LockAnswer → Type 0
Granted answer = (answer ≡ none) ⊎ (answer ≡ some taken)

abbrev pub ticks : ℕ → ℕ → Option LockAnswer → List Wake
ticks zero now answer = []
ticks (suc k) now answer = tick now answer ∷ ticks k now answer

tick-runs :
    (answer : Option LockAnswer) (days batch_size now : ℕ) (db : Db)
    → Granted answer
    → (run_one_periodic_tick answer days batch_size now db).1
      ≡ (run_recording_retention_sweep days batch_size now db).1
unfolding run_one_periodic_tick run_with_lock
tick-runs answer days batch_size now db (inl e) = rw e refl
tick-runs answer days batch_size now db (inr e) = rw e refl

module _ (cfg : RecordingRetentionPeriodicConfig) (now : ℕ)
    (small : ltb i32_max cfg.retention_days ≡ false) (answer : Option LockAnswer)
    (granted : Granted answer) where
  ticks-drain :
      (k : ℕ) (t : Tables)
      → Distinct ℕ_discrete t.sessions
      → (left : Tables) × ((run_worker cfg (ticks k now answer) (sound t)).1 ≡ sound left)
        × (length (backlog cfg.retention_days now left)
            ≤ length (backlog cfg.retention_days now t) - k * max cfg.batch_size 1)
  unfolding run_worker
  ticks-drain zero t d = (t, refl, omega (arith, zero-mul (max cfg.batch_size 1)))
  ticks-drain (suc k) t d =
      let (next, ends, same, fewer) =
        sweep-drains cfg.retention_days now small cfg.batch_size t d in
      let (left, later, few) = ticks-drain k next (subst (Distinct ℕ_discrete) (sym same) d) in
      (
        left,
        ap (λ db. (run_worker cfg (ticks k now answer) db).1)
              (tick-runs answer cfg.retention_days cfg.batch_size now (sound t) granted ∙ ends)
            ∙ later,
        omega (arith, few, fewer, suc-mul k (max cfg.batch_size 1)),
      )

empty_list : {A : Type 0} (xs : List A) → length xs ≤ 0 → xs ≡ []
empty_list [] h = refl
empty_list (x ∷ xs) h = absurd (omega arith)

-- When no statement fails and the lock is free or there is none, k ticks at one time leave no session
-- that a sweep may purge, if k batches (of at least 1) are as many as there were such sessions. The
-- number of days fits an `i32`, and no id stands twice in the table of sessions.
pub worker_drains :
    (cfg : RecordingRetentionPeriodicConfig) (now k : ℕ) (answer : Option LockAnswer) (t : Tables)
    → ltb i32_max cfg.retention_days ≡ false
    → Granted answer
    → Distinct ℕ_discrete t.sessions
    → length (backlog cfg.retention_days now t) ≤ k * max cfg.batch_size 1
    → backlog cfg.retention_days now (run_worker cfg (ticks k now answer) (sound t)).1.tables ≡ []
worker_drains cfg now k answer t small granted d enough =
    let (left, ends, few) = ticks-drain cfg now small answer granted k t d in
    rw ends (empty_list _ (omega (arith, few, enough)))

-- After a shutdown the worker touches nothing.
pub run_worker-stopped :
    (cfg : RecordingRetentionPeriodicConfig) (before after : List Wake) (w : Wake) (db : Db)
    → (w ≡ shutdown_changed true) ⊎ (w ≡ shutdown_closed)
    → run_worker cfg (before ++ w ∷ after) db ≡ run_worker cfg before db
unfolding run_worker
run_worker-stopped cfg [] after w db (inl e) = rw e refl
run_worker-stopped cfg [] after w db (inr e) = rw e refl
run_worker-stopped cfg (shutdown_changed true ∷ before) after w db h = refl
run_worker-stopped cfg (shutdown_changed false ∷ before) after w db h =
    run_worker-stopped cfg before after w db h
run_worker-stopped cfg (shutdown_closed ∷ before) after w db h = refl
run_worker-stopped cfg (tick now answer ∷ before) after w db h =
    rw (run_worker-stopped cfg before after w _ h) refl
