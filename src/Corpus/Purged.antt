-- ===== src/Corpus/Purged.antt =====
-- The purge of one session against the rows of every session,
-- crates/relayterm-db/src/repositories/terminal_recording.rs.
use relay_term.Prelude.{
  ℕ, ◌+◌, ◌*◌, ◌≤◌, ◌<◌, ◌≡◌, ◌∙◌, refl, sym, ap, subst, inl, inr, ◌⊎◌, Bool-cases, true, Option,
  none, some, [], ◌∷◌, leb, is_some, length, arith, ℕ_discrete,
}
use mathlib.Core.Bool.{true≢false}
use relay_term.Prelude.Assoc.{get}
use relay_term.Sessions.{TerminalSession}
use relay_term.Corpus.{
  Tables, Db, Result, ok, err, expired, expired_row, expired_at, day, chunks_of, markers_of,
  sum_bytes,
}
use relay_term.Corpus.Listing.{is_recorded}
use relay_term.Corpus.Deleted.{keep_if-deleted, keep_if-other}
use relay_term.Corpus.Purge.{
  PurgedRecordingSummary, audit_of, chunk_aggregate, count_markers, delete_markers, delete_chunks,
  insert_audit, purge_for_retention,
}
use relay_term.Corpus.Outcome.{Purges, purged, purge_for_retention-Purges}

value_of : Option ℕ → ℕ
value_of none = 0
value_of (some n) = n

-- The session has a row, closed at `at`, and the given days had gone by at `now`.
abbrev pub Due : ℕ → ℕ → ℕ → Tables → ℕ → Type 0
Due days now id t at =
    (row : TerminalSession) × (get ℕ_discrete id t.sessions ≡ some row)
    × (row.closed_at ≡ some at)
    × (at + days * (86400 * 1000000) ≤ now)

-- What a purge of one session takes, told by the rows of each session `j`.
pub record Removed (id j : ℕ) (t after : Tables) : Type 0 where
  pub sessions_same : after.sessions ≡ t.sessions
  pub no_chunks : chunks_of id after.chunks ≡ []
  pub no_markers : markers_of id after.markers ≡ []
  pub others :
      (id ≡ j)
      ⊎ ((chunks_of j after.chunks ≡ chunks_of j t.chunks)
          × (markers_of j after.markers ≡ markers_of j t.markers))

-- The result of a purge of `id` and the tables that it leaves, seen from the session `j`.
abbrev pub PurgesAll :
    ℕ → ℕ → ℕ → ℕ → Tables → Result (Option PurgedRecordingSummary) → Tables → Type 0
PurgesAll days now id j t (err e) after = after ≡ t
PurgesAll days now id j t (ok none) after = after ≡ t
PurgesAll days now id j t (ok (some s)) after =
    Due days now id t s.closed_at
    × (0 < length (chunks_of id t.chunks) + length (markers_of id t.markers))
    × (s ≡ record {
      terminal_session_id = id;
      chunk_count = length (chunks_of id t.chunks);
      marker_count = length (markers_of id t.markers);
      bytes_purged = sum_bytes (chunks_of id t.chunks);
      closed_at = s.closed_at;
      purged_at = now;
    })
    × (after.audits
        ≡ record {
          target_id = id;
          chunk_count = length (chunks_of id t.chunks);
          marker_count = length (markers_of id t.markers);
          bytes_purged = sum_bytes (chunks_of id t.chunks);
          retention_days = days;
          closed_at = s.closed_at;
          purged_at = now;
        }
          ∷ t.audits)
    × Removed id j t after

module _ (days now id at : ℕ) (t : Tables) where
  due :
      (row : TerminalSession) (closed_at : ℕ)
      → get ℕ_discrete id t.sessions ≡ some row
      → row.closed_at ≡ some closed_at
      → leb (closed_at + days * day) now ≡ true
      → some closed_at ≡ some at
      → Due days now id t at
  unfolding value_of
  due row closed_at e f x same =
      let past : closed_at + days * (86400 * 1000000) ≤ now = ground arith in
      (row, e, f ∙ same, subst (λ n. n + days * (86400 * 1000000) ≤ now) (ap value_of same) past)

pub expired-Due :
    (days now id at : ℕ) (t : Tables) → expired days now id t ≡ some at → Due days now id t at
unfolding expired expired_row expired_at
expired-Due days now id at t h = row_due (get ℕ_discrete id t.sessions) refl h
  where
    row_due :
        (o : Option TerminalSession)
        → get ℕ_discrete id t.sessions ≡ o
        → expired_row days now o ≡ some at
        → Due days now id t at
    row_due none e h = absurd (true≢false (ap is_some (sym h)))
    row_due (some row) e h = closed_due row.closed_at refl h
      where
        closed_due :
            (c : Option ℕ)
            → row.closed_at ≡ c
            → expired_at days now c ≡ some at
            → Due days now id t at
        closed_due none f h = absurd (true≢false (ap is_some (sym h)))
        closed_due (some closed_at) f h = elim (Bool-cases (leb (closed_at + days * day) now)) [
          | inl x ↦ due days now id at t row closed_at e f x (rw x at h)
          | inr x ↦ absurd (true≢false (ap is_some (sym (rw x at h))))
        ]

recorded_some :
    (id : ℕ) (t : Tables)
    → is_recorded id t ≡ true
    → 0 < length (chunks_of id t.chunks) + length (markers_of id t.markers)
unfolding is_recorded
recorded_some id t h = ground arith

purged-Removed :
    (days j : ℕ) (s : PurgedRecordingSummary) (t : Tables)
    → Removed s.terminal_session_id j t (purged days s t)
unfolding insert_audit delete_chunks delete_markers
purged-Removed days j s t = record {
  sessions_same = refl;
  no_chunks = keep_if-deleted _ _ t.chunks;
  no_markers = keep_if-deleted _ _ t.markers;
  others = elim (ℕ_discrete j s.terminal_session_id) [
    | yes p ↦ inl (sym p)
    | no n ↦ inr (keep_if-other _ _ _ t.chunks n, keep_if-other _ _ _ t.markers n)
  ];
}

-- Each of the outcomes in the words of the statements is one in the words of the rows.
Purges-PurgesAll :
    (days now id j : ℕ) (t after : Tables) (r : Result (Option PurgedRecordingSummary))
    → Purges days now id t r after
    → PurgesAll days now id j t r after
unfolding chunk_aggregate count_markers insert_audit delete_chunks delete_markers
Purges-PurgesAll days now id j t after (err e) h = h
Purges-PurgesAll days now id j t after (ok none) h = h
Purges-PurgesAll days now id j t after (ok (some s)) (closed, rows, same, left) = (
  expired-Due days now id s.closed_at t closed,
  recorded_some id t rows,
  same,
  ap (λ u. u.audits) left ∙ ap (λ x. audit_of days x ∷ t.audits) same,
  rw left (
      subst (λ i. Removed i j t (purged days s t)) (ap (λ x. x.terminal_session_id) same)
        (purged-Removed days j s t)),
)

-- Whatever statement fails, a purge of a session either leaves all tables as they were, or it removes
-- all chunks and markers of that session, no chunk and no marker of another session `j`, and no session,
-- and adds one audit row with their number and their bytes. It removes them only when the session has a
-- row that was closed at least the given days before, and has chunks or markers.
pub purge_atomic :
    (days now id j : ℕ) (db : Db)
    → let run = purge_for_retention days now id db in
      PurgesAll days now id j db.tables run.0 run.1.tables
purge_atomic days now id j db =
    Purges-PurgesAll days now id j db.tables _ _ (purge_for_retention-Purges days now id db)
