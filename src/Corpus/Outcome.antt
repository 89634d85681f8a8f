-- ===== src/Corpus/Outcome.antt =====
-- What one purge leaves, whichever statement fails, crates/relayterm-db/src/repositories/terminal_recording.rs.
use relay_term.Prelude.{
  ℕ, ◌≡◌, refl, inl, inr, ◌⊎◌, Bool, Bool-cases, true, false, not, ◌&&◌, Option, none, some, List,
  ltb, ◌==◌, ap,
}
use relay_term.Corpus.{
  Tables, Db, Result, ok, err, M, after, ◌>>=◌, statement, next_fault, later_faults, rolled_back,
  transaction, expired, database, i32_max,
}
use relay_term.Corpus.Purge.{
  PurgedRecordingSummary, chunk_aggregate, count_markers, delete_markers, delete_chunks,
  insert_audit, audit_of, delete_recording, purge_closed, purge_for_retention,
}
use relay_term.Corpus.Listing.{is_recorded}

-- What holds of a result that is not an error.
abbrev pub On : {A : Type 0} → Result A → (A → Type 0) → Type 0
On (ok a) P = P a
On (err e) P = Unit

abbrev Holds : {A : Type 0} → (A → Db → Type 0) → Result A × Db → Type 0
Holds P r = On r.0 (λ a. P a r.1)

module _ {A : Type 0} where
  statement-cases :
      (f : Tables → A × Tables) (db : Db)
      → (statement f db ≡ (err database, record db { faults = later_faults db.faults }))
        ⊎ (statement f db ≡ (
          ok (f db.tables).0,
          record { tables = (f db.tables).1; faults = later_faults db.faults },
        ))
  unfolding statement
  statement-cases f db = elim (Bool-cases (next_fault db.faults)) [
    | inl e ↦ inl (rw (e, statement) refl)
    | inr e ↦ inr (rw (e, statement) refl)
  ]

  -- A chain of statements goes on where the first one has left the tables.
  statement-then :
      {B : Type 0} (f : Tables → A × Tables) (g : A → M B) (db : Db) (P : B → Db → Type 0)
      → ((faults : List Bool)
          → Holds P (g (f db.tables).0 (record { tables = (f db.tables).1; faults = faults })))
      → Holds P ((statement f >>= g) db)
  unfolding after
  statement-then f g db P h = elim (statement-cases f db) [
    | inl e ↦ rw e tt
    | inr e ↦ rw e (h (later_faults db.faults))
  ]

-- The tables when the rows of a session are gone.
abbrev pub purged : ℕ → PurgedRecordingSummary → Tables → Tables
purged days s t =
    insert_audit (audit_of days s)
      (delete_chunks s.terminal_session_id (delete_markers s.terminal_session_id t))

abbrev pub summary_of : ℕ → ℕ → ℕ → Tables → PurgedRecordingSummary
summary_of id closed_at now t = record {
  terminal_session_id = id;
  chunk_count = (chunk_aggregate id t).0;
  marker_count = count_markers id t;
  bytes_purged = (chunk_aggregate id t).1;
  closed_at = closed_at;
  purged_at = now;
}

-- The result of a purge and the tables that it leaves.
abbrev pub Purges : ℕ → ℕ → ℕ → Tables → Result (Option PurgedRecordingSummary) → Tables → Type 0
Purges days now id t (err e) after = after ≡ t
Purges days now id t (ok none) after = after ≡ t
Purges days now id t (ok (some s)) after =
    (expired days now id t ≡ some s.closed_at)
    × (is_recorded id t ≡ true)
    × (s ≡ summary_of id s.closed_at now t)
    × (after ≡ purged days s t)

delete_recording-Holds :
    (days : ℕ) (s : PurgedRecordingSummary) (t : Tables) (faults : List Bool)
    (P : Option PurgedRecordingSummary → Db → Type 0)
    → ((later : List Bool) → P (some s) (record { tables = purged days s t; faults = later }))
    → Holds P (delete_recording days s (record { tables = t; faults = faults }))
unfolding delete_recording
delete_recording-Holds days s t faults P h =
    statement-then _ _ _ P
      λ _. statement-then _ _ _ P λ _. statement-then _ _ _ P λ _. statement-then _ _ _ P h

module _ (days now id : ℕ) (t : Tables) where
  PurgeEnds : Option PurgedRecordingSummary → Db → Type 0
  PurgeEnds r db = Purges days now id t (ok r) db.tables

  recorded :
      (((chunk_aggregate id t).0 == 0) && (count_markers id t == 0)) ≡ false
      → is_recorded id t ≡ true
  unfolding is_recorded chunk_aggregate count_markers
  recorded e = ap not e

  purge_closed-Holds :
      (found : Option ℕ) (faults : List Bool)
      → expired days now id t ≡ found
      → Holds PurgeEnds (purge_closed days now id found (record { tables = t; faults = faults }))
  unfolding purge_closed PurgeEnds
  purge_closed-Holds none faults e = refl
  purge_closed-Holds (some closed_at) faults e = statement-then _ _ _ PurgeEnds λ _.
      statement-then _ _ _ PurgeEnds λ _.
        elim (Bool-cases (((chunk_aggregate id t).0 == 0) && (count_markers id t == 0))) [
          | inl none_left ↦ rw none_left refl
          | inr some_left ↦ rw some_left (
              delete_recording-Holds days (summary_of id closed_at now t) t _ PurgeEnds
                λ _. (e, recorded some_left, refl, refl))
        ]

  rolled_back-Purges :
      (r : Result (Option PurgedRecordingSummary)) (db : Db)
      → Holds PurgeEnds (r, db)
      → Purges days now id t r (rolled_back t r db).tables
  unfolding rolled_back PurgeEnds
  rolled_back-Purges (ok none) db h = h
  rolled_back-Purges (ok (some s)) db h = h
  rolled_back-Purges (err e) db h = refl

  transaction-Purges :
      (c : M (Option PurgedRecordingSummary)) (faults : List Bool)
      → Holds PurgeEnds (c (record { tables = t; faults = faults }))
      → let run = transaction c (record { tables = t; faults = faults }) in
        Purges days now id t run.0 run.1.tables
  unfolding transaction
  transaction-Purges c faults h = rolled_back-Purges _ _ h

-- What each statement leads to, in the words of the statements.
pub purge_for_retention-Purges :
    (days now id : ℕ) (db : Db)
    → let run = purge_for_retention days now id db in
      Purges days now id db.tables run.0 run.1.tables
unfolding purge_for_retention
purge_for_retention-Purges days now id db = elim (Bool-cases (ltb i32_max days)) [
  | inl e ↦ rw e refl
  | inr e ↦ rw e (
      transaction-Purges days now id db.tables _ db.faults (
        statement-then _ _ _ (PurgeEnds days now id db.tables) λ _.
          statement-then _ _ _ (PurgeEnds days now id db.tables)
            λ faults. purge_closed-Holds days now id db.tables _ faults refl))
]
