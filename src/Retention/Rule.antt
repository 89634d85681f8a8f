-- ===== src/Retention/Rule.antt =====
-- The rule of the sweep's loop, crates/relayterm-terminal/src/retention.rs: what holds of every purge,
-- and of the stop at an error, holds of the loop.
use relay_term.Prelude.{ℕ, false, Option, List, [], ◌∷◌}
use relay_term.Corpus.{Tables, Db, Result, ok, err}
use relay_term.Corpus.Purge.{PurgedRecordingSummary}
use relay_term.Corpus.Outcome.{Purges, purge_for_retention-Purges}
use relay_term.Retention.{RecordingRetentionSweepSummary, count_purge, sweep_on, sweep_all}

abbrev pub Point : Type 0
Point = RecordingRetentionSweepSummary × Tables

abbrev pub stopped : RecordingRetentionSweepSummary → RecordingRetentionSweepSummary
stopped s = record s { errors = 1; batch_truncated = false }

-- A relation of summaries and tables that every step of the loop keeps.
pub record LoopRule (days now : ℕ) (R : Point → Point → Type 0) : Type 0 where
  pub stay : (p : Point) → R p p
  pub stop : (p : Point) → R p (stopped p.0, p.1)
  pub go : (p q r : Point) → R p q → R q r → R p r
  pub purge :
      (id : ℕ) (p : Point) (o : Option PurgedRecordingSummary) (after : Tables)
      → Purges days now id p.1 (ok o) after
      → R p (count_purge o p.0, after)

module _ (days now : ℕ) (R : Point → Point → Type 0) (rule : LoopRule days now R) where
  sweep_on-R :
      (id : ℕ) (r : Result (Option PurgedRecordingSummary)) (s : RecordingRetentionSweepSummary)
      (t : Tables) (db : Db)
      (next : RecordingRetentionSweepSummary → RecordingRetentionSweepSummary × Db)
      → Purges days now id t r db.tables
      → ((later : RecordingRetentionSweepSummary)
          → R (later, db.tables) ((next later).0, (next later).1.tables))
      → R (s, t) ((sweep_on r s db next).0, (sweep_on r s db next).1.tables)
  unfolding sweep_on
  sweep_on-R id (err e) s t db next same h = rw same (rule.stop (s, t))
  sweep_on-R id (ok o) s t db next done h =
      rule.go _ _ _ (rule.purge id (s, t) o db.tables done) (h (count_purge o s))

  pub sweep_all-R :
      (ids : List ℕ) (s : RecordingRetentionSweepSummary) (db : Db)
      → R (s, db.tables) ((sweep_all days now ids s db).0, (sweep_all days now ids s db).1.tables)
  unfolding sweep_all
  sweep_all-R [] s db = rule.stay (s, db.tables)
  sweep_all-R (id ∷ ids) s db =
      sweep_on-R id _ s db.tables _ _ (purge_for_retention-Purges days now id db)
        λ later. sweep_all-R ids later _
