-- ===== src/Retention/Relation.antt =====
-- What a sweep does to the tables, whichever statements fail, crates/relayterm-terminal/src/retention.rs.
use relay_term.Prelude.{
  ℕ, ◌≡◌, ◌⊎◌, subst, inl, inr, refl, sym, ◌∙◌, ap, Option, none, some, List, [], ℕ_discrete,
}
use relay_term.Prelude.Assoc.{get}
use relay_term.Corpus.{Tables, Db, Result, ok, err, chunks_of, markers_of, expired}
use relay_term.Corpus.Reads.{list_eligible-tables}
use relay_term.Corpus.Deleted.{keep_if-deleted, keep_if-other}
use relay_term.Corpus.Listing.{list_eligible_for_retention}
use relay_term.Corpus.Purge.{PurgedRecordingSummary, delete_chunks, delete_markers, insert_audit}
use relay_term.Corpus.Outcome.{Purges, purged}
use relay_term.Corpus.Purged.{Due, expired-Due}
use relay_term.Retention.Rule.{LoopRule, sweep_all-R}
use relay_term.Retention.{sweep_listed, run_recording_retention_sweep}

-- The rows of one session: all there, or all gone, and gone only for a session closed long enough ago.
abbrev pub Kept : ℕ → Tables → Tables → Type 0
Kept id t after =
    (chunks_of id after.chunks ≡ chunks_of id t.chunks)
    × (markers_of id after.markers ≡ markers_of id t.markers)

abbrev pub Emptied : ℕ → ℕ → ℕ → Tables → Tables → Type 0
Emptied days now id t after =
    ((at : ℕ) × Due days now id t at)
    × (chunks_of id after.chunks ≡ [])
    × (markers_of id after.markers ≡ [])

pub record Trims (days now : ℕ) (t after : Tables) : Type 0 where
  pub sessions_same : after.sessions ≡ t.sessions
  pub each : (id : ℕ) → Kept id t after ⊎ Emptied days now id t after

module _ (days now : ℕ) where
  Trims-none : (t : Tables) → Trims days now t t
  Trims-none t = record { sessions_same = refl; each = λ id. inl (refl, refl) }

  Trims-purged :
      (at : ℕ) (s : PurgedRecordingSummary) (t : Tables)
      → expired days now s.terminal_session_id t ≡ some at
      → Trims days now t (purged days s t)
  unfolding insert_audit delete_chunks delete_markers
  Trims-purged at s t e = record {
    sessions_same = refl;
    each = λ j. elim (ℕ_discrete j s.terminal_session_id) [
      | yes p ↦ rw p (
          inr (
            (at, expired-Due _ _ _ _ t e),
            keep_if-deleted _ _ t.chunks,
            keep_if-deleted _ _ t.markers,
          ))
      | no n ↦ inl (keep_if-other _ _ _ t.chunks n, keep_if-other _ _ _ t.markers n)
    ];
  }

  Due-same :
      (id at : ℕ) (t u : Tables)
      → u.sessions ≡ t.sessions
      → Due days now id u at
      → Due days now id t at
  Due-same id at t u e (row, found, closed, past) =
      (row, ap (get ℕ_discrete id) (sym e) ∙ found, closed, past)

  Trims-then : (t u v : Tables) → Trims days now t u → Trims days now u v → Trims days now t v
  Trims-then t u v a b = record {
    sessions_same = b.sessions_same ∙ a.sessions_same;
    each = λ id. elim (b.each id) [
      | inr (found, c, m) ↦ inr ((found.0, Due-same id found.0 t u a.sessions_same found.1), c, m)
      | inl (chunks, markers) ↦ elim (a.each id) [
        | inl (c, m) ↦ inl (chunks ∙ c, markers ∙ m)
        | inr (found, c, m) ↦ inr (found, chunks ∙ c, markers ∙ m)
      ]
    ];
  }

  purge-Trims :
      (id : ℕ) (t after : Tables) (o : Option PurgedRecordingSummary)
      → Purges days now id t (ok o) after
      → Trims days now t after
  purge-Trims id t after none h = rw h (Trims-none t)
  purge-Trims id t after (some s) (e, rows, same, left) =
      rw left
        (Trims-purged s.closed_at s t (ap (λ x. expired days now x.terminal_session_id t) same ∙ e))

  Trims-rule : LoopRule days now (λ p q. Trims days now p.1 q.1)
  Trims-rule = record {
    stay = λ p. Trims-none p.1;
    stop = λ p. Trims-none p.1;
    go = λ p q r. Trims-then p.1 q.1 r.1;
    purge = λ id p o after. purge-Trims id p.1 after o;
  }

sweep_listed-Trims :
    (days batch_size now : ℕ) (r : Result (List ℕ)) (db : Db)
    → Trims days now db.tables (sweep_listed days batch_size now r db).1.tables
unfolding sweep_listed
sweep_listed-Trims days batch_size now (err e) db = Trims-none days now db.tables
sweep_listed-Trims days batch_size now (ok ids) db =
    sweep_all-R days now _ (Trims-rule days now) ids _ db

-- Whatever statement fails, a sweep changes no session, and it leaves the recording of each session
-- as it was, or it has removed the whole of it: all chunks and all markers. It removes that of a
-- session only when the session has a row that was closed at least the given number of days before.
pub sweep-Trims :
    (days batch_size now : ℕ) (db : Db)
    → Trims days now db.tables (run_recording_retention_sweep days batch_size now db).1.tables
unfolding run_recording_retention_sweep
sweep-Trims days batch_size now db =
    let run = list_eligible_for_retention days now batch_size db in
    subst (λ t. Trims days now t (sweep_listed days batch_size now run.0 run.1).1.tables)
      (list_eligible-tables days now batch_size db)
      (sweep_listed-Trims days batch_size now run.0 run.1)
