-- ===== src/Retention/Backlog.antt =====
-- One purge without failures and the listing after it, crates/relayterm-db/src/repositories/terminal_recording.rs.
use relay_term.Prelude.{
  ℕ, ◌≡◌, ◌≢◌, refl, sym, inl, inr, Bool, Bool-cases, true, false, not, ◌&&◌, Option, none, some,
  List, [], ◌∷◌, ltb, ◌==◌, keep_if, arith, ℕ_discrete,
}
use relay_term.Sessions.{TerminalSession}
use relay_term.Corpus.{
  Tables, Db, ok, statement, next_fault, later_faults, after, transaction, rolled_back, i32_max,
  expired,
}
use relay_term.Corpus.Deleted.{keep_if-deleted, keep_if-other}
use relay_term.Corpus.Purge.{
  PurgedRecordingSummary, chunk_aggregate, count_markers, delete_markers, delete_chunks,
  insert_audit, delete_recording, purge_closed, purge_for_retention,
}
use relay_term.Corpus.Listing.{candidate, eligible, is_recorded}
use relay_term.Corpus.Outcome.{purged, summary_of}

abbrev pub sound : Tables → Db
sound t = record { tables = t; faults = [] }

not-true : (b : Bool) → not b ≡ true → b ≡ false
not-true true h = sym h
not-true false h = refl

has_rows :
    (id : ℕ) (t : Tables)
    → is_recorded id t ≡ true
    → ((chunk_aggregate id t).0 == 0 && (count_markers id t == 0)) ≡ false
unfolding is_recorded chunk_aggregate count_markers
has_rows id t h = not-true _ h

pub purge_lem :
    (days now id at : ℕ) (t : Tables)
    → ltb i32_max days ≡ false
    → expired days now id t ≡ some at
    → is_recorded id t ≡ true
    → purge_for_retention days now id (sound t)
      ≡ (ok (some (summary_of id at now t)), sound (purged days (summary_of id at now t) t))
unfolding purge_for_retention transaction rolled_back statement after next_fault later_faults
    purge_closed delete_recording
purge_lem days now id at t small e recorded = rw (small, e, has_rows id t recorded) refl

module _ (days : ℕ) (s : PurgedRecordingSummary) (t : Tables) where
  is_recorded-purged_self : is_recorded s.terminal_session_id (purged days s t) ≡ false
  unfolding is_recorded insert_audit delete_chunks delete_markers
  is_recorded-purged_self =
      rw
        (
          keep_if-deleted (λ c. c.terminal_session_id) s.terminal_session_id t.chunks,
          keep_if-deleted (λ m. m.terminal_session_id) s.terminal_session_id t.markers,
        )
        refl

  is_recorded-purged_other :
      (j : ℕ) → j ≢ s.terminal_session_id → is_recorded j (purged days s t) ≡ is_recorded j t
  unfolding is_recorded insert_audit delete_chunks delete_markers
  is_recorded-purged_other j n =
      rw
        (
          keep_if-other (λ c. c.terminal_session_id) s.terminal_session_id j t.chunks n,
          keep_if-other (λ m. m.terminal_session_id) s.terminal_session_id j t.markers n,
        )
        refl

  abbrev other : ℕ × ℕ → Bool
  other c = not (c.0 == s.terminal_session_id)

  candidate-purged :
      (now id : ℕ) (o : Option ℕ) (rest : List (ℕ × ℕ))
      → candidate days now (purged days s t) id o (keep_if other rest)
        ≡ keep_if other (candidate days now t id o rest)
  unfolding candidate
  candidate-purged now id none rest = refl
  candidate-purged now id (some at) rest = elim (ℕ_discrete id s.terminal_session_id) [
    | yes p ↦
        rw (p, is_recorded-purged_self)
          (elim (Bool-cases (is_recorded s.terminal_session_id t)) [
            | inl e ↦ rw e (ground arith)
            | inr e ↦ rw e refl
          ])
    | no n ↦
        rw (is_recorded-purged_other id n)
          (elim (Bool-cases (is_recorded id t)) [ inl e ↦ rw e (ground arith) | inr e ↦ rw e refl ])
  ]

  -- The listing loses the session, and only that.
  pub eligible-purged :
      (now : ℕ) (rows : List (ℕ × TerminalSession))
      → eligible days now (purged days s t) rows ≡ keep_if other (eligible days now t rows)
  unfolding eligible candidate
  eligible-purged now [] = refl
  eligible-purged now ((id, row) ∷ rows) =
      rw (eligible-purged now rows) (candidate-purged now id _ _)
