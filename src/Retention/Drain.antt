-- ===== src/Retention/Drain.antt =====
-- Sweeps without failures empty the backlog, crates/relayterm-terminal/src/retention.rs and
-- crates/relayterm-terminal/src/retention_worker.rs.
use relay_term.Prelude.{
  ℕ, ◌+◌, ◌≤◌, ◌≡◌, refl, min, max, Bool, true, false, Option, none, some, List, [], ◌∷◌, ltb, ◌==◌,
  take, length, length-take, arith, ℕ_discrete,
}
use relay_term.Prelude.Assoc.{get, Distinct}
use relay_term.Corpus.{
  Tables, ok, statement, next_fault, later_faults, i32_max, expired, expired_row,
}
use relay_term.Corpus.Purge.{PurgedRecordingSummary, delete_chunks, delete_markers, insert_audit}
use relay_term.Corpus.Listing.{closed_first, order_by, is_recorded, list_eligible_for_retention}
use relay_term.Corpus.Outcome.{purged, summary_of}
use relay_term.Retention.Counts.{
  backlog, occurrences, ids_of, length-ids_of, occurrences-order_by, length-order_by,
  occurrences-take-le, occurrences-deleted, length-one_deleted, listed, listed_once,
}
use relay_term.Retention.Backlog.{sound, purge_lem, eligible-purged}
use relay_term.Retention.{
  RecordingRetentionSweepSummary, nothing_swept, count_purge, sweep_on, sweep_all, sweep_listed,
  run_recording_retention_sweep,
}

listed-positive :
    (o : Option ℕ) (recorded : Bool)
    → 1 ≤ listed o recorded
    → ((at : ℕ) × (o ≡ some at)) × (recorded ≡ true)
unfolding listed
listed-positive none recorded h = absurd (omega arith)
listed-positive (some at) true h = ((at, refl), refl)
listed-positive (some at) false h = absurd (omega arith)

listed-le : (o : Option ℕ) (recorded : Bool) → listed o recorded ≤ 1
unfolding listed
listed-le none recorded = omega arith
listed-le (some at) true = omega arith
listed-le (some at) false = omega arith

occurrences-cons_self : (id : ℕ) (ids : List ℕ) → occurrences id (id ∷ ids) ≡ occurrences id ids + 1
occurrences-cons_self id ids = ground arith

module _ (days now : ℕ) (small : ltb i32_max days ≡ false) where
  abbrev Waiting : List ℕ → Tables → Type 0
  Waiting ids t = (j : ℕ) → occurrences j ids ≤ occurrences j (ids_of (backlog days now t))

  next_listed :
      (id : ℕ) (ids : List ℕ) (t : Tables)
      → Distinct ℕ_discrete t.sessions
      → Waiting (id ∷ ids) t
      → 1 ≤ listed (expired days now id t) (is_recorded id t)
  unfolding expired
  next_listed id ids t d w =
      omega (arith, w id, occurrences-cons_self id ids, listed_once days now t id t.sessions d)

  -- No session stands twice in the backlog.
  backlog_once :
      (id : ℕ) (t : Tables)
      → Distinct ℕ_discrete t.sessions
      → occurrences id (ids_of (backlog days now t)) ≤ 1
  backlog_once id t d = omega (
    arith,
    listed_once days now t id t.sessions d,
    listed-le (expired_row days now (get ℕ_discrete id t.sessions)) (is_recorded id t),
  )

  module _ (ids : List ℕ) (s : PurgedRecordingSummary) (t : Tables) where
    abbrev id : ℕ
    id = s.terminal_session_id

    -- One purge takes its session off the backlog.
    Waiting-later :
        Distinct ℕ_discrete t.sessions → Waiting (id ∷ ids) t → Waiting ids (purged days s t)
    unfolding insert_audit delete_chunks delete_markers
    Waiting-later d w j = rw (eligible-purged days s t now t.sessions) (elim (ℕ_discrete j id) [
      | yes p ↦ rw p (omega (arith, w id, occurrences-cons_self id ids, backlog_once id t d))
      | no n ↦ rw (occurrences-deleted j id (backlog days now t) n) (omega (arith, w j))
    ])

    backlog-purged :
        Distinct ℕ_discrete t.sessions
        → Waiting (id ∷ ids) t
        → length (backlog days now (purged days s t)) + 1 ≡ length (backlog days now t)
    unfolding insert_audit delete_chunks delete_markers
    backlog-purged d w = rw (eligible-purged days s t now t.sessions) (
        omega (
          arith,
          length-one_deleted id (backlog days now t),
          w id,
          occurrences-cons_self id ids,
          backlog_once id t d,
        ))

  sweep_all-drains :
      (ids : List ℕ) (s : RecordingRetentionSweepSummary) (t : Tables)
      → Distinct ℕ_discrete t.sessions
      → Waiting ids t
      → (left : Tables) × ((sweep_all days now ids s (sound t)).1 ≡ sound left)
        × (left.sessions ≡ t.sessions)
        × (length (backlog days now left) + length ids ≡ length (backlog days now t))
  unfolding sweep_all sweep_on insert_audit delete_chunks delete_markers
  sweep_all-drains [] s t d w = (t, refl, refl, omega arith)
  sweep_all-drains (id ∷ ids) s t d w =
      let ((at, e), recorded) = listed-positive _ _ (next_listed id ids t d w) in
      let done : PurgedRecordingSummary = summary_of id at now t in
      let (left, ends, same, fewer) =
        sweep_all-drains ids (count_purge (some done) s) (purged days done t) d
          (Waiting-later ids done t d w) in
      (
        left,
        rw (purge_lem days now id at t small e recorded) ends,
        same,
        omega (arith, fewer, backlog-purged ids done t d w),
      )

  abbrev batch : ℕ → Tables → List (ℕ × ℕ)
  batch limit t = take (max limit 1) (order_by closed_first (backlog days now t))

  list_eligible_lem :
      (limit : ℕ) (t : Tables)
      → list_eligible_for_retention days now limit (sound t)
        ≡ (ok (ids_of (batch limit t)), sound t)
  unfolding list_eligible_for_retention statement next_fault later_faults
  list_eligible_lem limit t = rw small refl

  batch-Waiting : (limit : ℕ) (t : Tables) → Waiting (ids_of (batch limit t)) t
  batch-Waiting limit t j = omega (
    arith,
    occurrences-take-le j (max limit 1) (order_by closed_first (backlog days now t)),
    occurrences-order_by closed_first j (backlog days now t),
  )

  length-batch :
      (limit : ℕ) (t : Tables)
      → length (ids_of (batch limit t)) ≡ min (max limit 1) (length (backlog days now t))
  length-batch limit t = omega (
    arith,
    length-ids_of (batch limit t),
    length-take (max limit 1) (order_by closed_first (backlog days now t)),
    length-order_by closed_first (backlog days now t),
  )

  -- A sweep without failures takes a batch off the backlog, or all of it.
  pub sweep-drains :
      (limit : ℕ) (t : Tables)
      → Distinct ℕ_discrete t.sessions
      → (left : Tables) × ((run_recording_retention_sweep days limit now (sound t)).1 ≡ sound left)
        × (left.sessions ≡ t.sessions)
        × (length (backlog days now left) + min (max limit 1) (length (backlog days now t))
            ≡ length (backlog days now t))
  unfolding run_recording_retention_sweep sweep_listed
  sweep-drains limit t d =
      let (left, ends, same, fewer) =
        sweep_all-drains (ids_of (batch limit t))
          (record nothing_swept {
            candidate_count = length (ids_of (batch limit t));
            batch_truncated = length (ids_of (batch limit t)) == limit;
          })
          t d (batch-Waiting limit t) in
      (left, rw (list_eligible_lem limit t) ends, same, omega (arith, fewer, length-batch limit t))
