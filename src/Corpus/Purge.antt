-- ===== src/Corpus/Purge.antt =====
-- The purge of one session, `purge_for_retention` in
-- crates/relayterm-db/src/repositories/terminal_recording.rs.
use relay_term.Prelude.{
  ℕ, not, ◌&&◌, Option, none, some, ◌∷◌, if◌then◌else◌, ltb, ◌==◌, keep_if, length,
}
use relay_term.Corpus.{
  PurgeAudit, Tables, M, ◌>>=◌, ◌>>◌, pure, fail, validation, select, execute, transaction, i32_max,
  expired, chunks_of, markers_of, sum_bytes,
}

pub record PurgedRecordingSummary : Type 0 where
  pub terminal_session_id : ℕ
  pub chunk_count : ℕ
  pub marker_count : ℕ
  pub bytes_purged : ℕ
  pub closed_at : ℕ
  pub purged_at : ℕ

-- `COUNT(*)` and `COALESCE(SUM(byte_len), 0)` of the chunks of a session.
unfoldable pub chunk_aggregate : ℕ → Tables → ℕ × ℕ
chunk_aggregate id t = (length (chunks_of id t.chunks), sum_bytes (chunks_of id t.chunks))

unfoldable pub count_markers : ℕ → Tables → ℕ
count_markers id t = length (markers_of id t.markers)

unfoldable pub delete_markers : ℕ → Tables → Tables
delete_markers id t = record t {
  markers = keep_if (λ m. not (m.terminal_session_id == id)) t.markers;
}

unfoldable pub delete_chunks : ℕ → Tables → Tables
delete_chunks id t = record t { chunks = keep_if (λ c. not (c.terminal_session_id == id)) t.chunks }

unfoldable pub insert_audit : PurgeAudit → Tables → Tables
insert_audit audit t = record t { audits = audit ∷ t.audits }

abbrev pub audit_of : ℕ → PurgedRecordingSummary → PurgeAudit
audit_of days s = record {
  target_id = s.terminal_session_id;
  chunk_count = s.chunk_count;
  marker_count = s.marker_count;
  bytes_purged = s.bytes_purged;
  retention_days = days;
  closed_at = s.closed_at;
  purged_at = s.purged_at;
}

-- The writes of the transaction and its commit.
unfoldable pub delete_recording : ℕ → PurgedRecordingSummary → M (Option PurgedRecordingSummary)
delete_recording days s = do
  execute (delete_markers s.terminal_session_id)
  execute (delete_chunks s.terminal_session_id)
  execute (insert_audit (audit_of days s))
  execute (λ t. t)
  pure (some s)

unfoldable pub purge_closed : ℕ → ℕ → ℕ → Option ℕ → M (Option PurgedRecordingSummary)
purge_closed days now id none = pure none
purge_closed days now id (some closed_at) = do
  aggregate ← select (chunk_aggregate id)
  marker_count ← select (count_markers id)
  if (aggregate.0 == 0) && (marker_count == 0)
      then pure none
      else delete_recording days (record {
        terminal_session_id = id;
        chunk_count = aggregate.0;
        marker_count = marker_count;
        bytes_purged = aggregate.1;
        closed_at = closed_at;
        purged_at = now;
      })

unfoldable pub purge_for_retention : ℕ → ℕ → ℕ → M (Option PurgedRecordingSummary)
purge_for_retention days now id =
    if ltb i32_max days
    then fail validation
    else transaction (do
      select (λ t. tt)
      closed_at ← select (expired days now id)
      purge_closed days now id closed_at)
