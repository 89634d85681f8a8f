-- ===== src/Retention/Accounts.antt =====
-- The numbers of a sweep's summary, crates/relayterm-terminal/src/retention.rs.
use relay_term.Prelude.{
  ℕ, ◌+◌, ◌≡◌, ◌∙◌, subst, refl, Option, none, some, List, [], ◌∷◌, ◌==◌, keep_if, not, length,
  arith,
}
use relay_term.Corpus.{TerminalRecordingChunk, Tables, Db, Result, ok, err, sum_bytes, chunks_of}
use relay_term.Corpus.Deleted.{length-deleted}
use relay_term.Corpus.Reads.{list_eligible-tables}
use relay_term.Corpus.Listing.{list_eligible_for_retention}
use relay_term.Corpus.Purge.{
  PurgedRecordingSummary, chunk_aggregate, count_markers, delete_chunks, delete_markers,
  insert_audit,
}
use relay_term.Corpus.Outcome.{Purges}
use relay_term.Retention.Rule.{Point, LoopRule, sweep_all-R}
use relay_term.Retention.{
  RecordingRetentionSweepSummary, nothing_swept, count_purge, sweep_listed,
  run_recording_retention_sweep,
}

sum_bytes-deleted :
    (id : ℕ) (cs : List TerminalRecordingChunk)
    → sum_bytes (keep_if (λ c. not (c.terminal_session_id == id)) cs) + sum_bytes (chunks_of id cs)
      ≡ sum_bytes cs
unfolding sum_bytes
sum_bytes-deleted id [] = refl
sum_bytes-deleted id (c ∷ cs) = ground (arith, sum_bytes-deleted id cs)

-- What has left the tables is what the summary has gained.
pub record Balanced (p q : Point) : Type 0 where
  pub chunks : length q.1.chunks + q.0.chunks_purged ≡ length p.1.chunks + p.0.chunks_purged
  pub markers : length q.1.markers + q.0.markers_purged ≡ length p.1.markers + p.0.markers_purged
  pub bytes : sum_bytes q.1.chunks + q.0.bytes_purged ≡ sum_bytes p.1.chunks + p.0.bytes_purged
  pub audits : length q.1.audits + p.0.purged_sessions ≡ length p.1.audits + q.0.purged_sessions

module _ (days now : ℕ) where
  Balanced-purge :
      (id : ℕ) (p : Point) (o : Option PurgedRecordingSummary) (after : Tables)
      → Purges days now id p.1 (ok o) after
      → Balanced p (count_purge o p.0, after)
  unfolding count_purge insert_audit delete_chunks delete_markers chunk_aggregate count_markers
  Balanced-purge id (s, t) none after h =
      rw h (record { chunks = refl; markers = refl; bytes = refl; audits = refl })
  Balanced-purge id (s, t) (some done) after (e, rows, same, left) =
      rw (left, same)
        (record {
          chunks = omega (arith, length-deleted (λ c. c.terminal_session_id) id t.chunks);
          markers = omega (arith, length-deleted (λ m. m.terminal_session_id) id t.markers);
          bytes = omega (arith, sum_bytes-deleted id t.chunks);
          audits = omega arith;
        })

  Balanced-rule : LoopRule days now Balanced
  Balanced-rule = record {
    stay = λ p. record { chunks = refl; markers = refl; bytes = refl; audits = refl };
    stop = λ p. record { chunks = refl; markers = refl; bytes = refl; audits = refl };
    go = λ p q r a b. record {
      chunks = b.chunks ∙ a.chunks;
      markers = b.markers ∙ a.markers;
      bytes = b.bytes ∙ a.bytes;
      audits = omega (arith, a.audits, b.audits);
    };
    purge = Balanced-purge;
  }

-- The numbers of a summary against the tables before and after.
abbrev pub Accounts : RecordingRetentionSweepSummary → Tables → Tables → Type 0
Accounts s t after =
    (length after.chunks + s.chunks_purged ≡ length t.chunks)
    × (length after.markers + s.markers_purged ≡ length t.markers)
    × (sum_bytes after.chunks + s.bytes_purged ≡ sum_bytes t.chunks)
    × (length after.audits ≡ length t.audits + s.purged_sessions)

sweep_listed-Accounts :
    (days batch_size now : ℕ) (r : Result (List ℕ)) (db : Db)
    → let run = sweep_listed days batch_size now r db in Accounts run.0 db.tables run.1.tables
unfolding sweep_listed
sweep_listed-Accounts days batch_size now (err e) db =
    (omega arith, omega arith, omega arith, omega arith)
sweep_listed-Accounts days batch_size now (ok ids) db =
    let b =
      sweep_all-R days now Balanced (Balanced-rule days now) ids
        (record nothing_swept {
          candidate_count = length ids;
          batch_truncated = length ids == batch_size;
        })
        db in
    (
      omega (arith, b.chunks),
      omega (arith, b.markers),
      omega (arith, b.bytes),
      omega (arith, b.audits),
    )

-- Whatever statement fails, the summary of a sweep is exact: the chunks, the markers and the bytes that
-- have left the tables are those that it counts, and there is one new audit row for each session that
-- it counts.
pub sweep-Accounts :
    (days batch_size now : ℕ) (db : Db)
    → let run = run_recording_retention_sweep days batch_size now db in
      Accounts run.0 db.tables run.1.tables
unfolding run_recording_retention_sweep
sweep-Accounts days batch_size now db =
    let run = list_eligible_for_retention days now batch_size db in
    let swept = sweep_listed days batch_size now run.0 run.1 in
    subst (λ t. Accounts swept.0 t swept.1.tables) (list_eligible-tables days now batch_size db)
      (sweep_listed-Accounts days batch_size now run.0 run.1)
