-- ===== src/Corpus/Deleted.antt =====
-- `DELETE ... WHERE terminal_session_id = id` on a table whose rows name a session,
-- crates/relayterm-db/src/repositories/terminal_recording.rs.
use relay_term.Prelude.{ℕ, ◌+◌, ◌≡◌, ◌≢◌, refl, not, List, [], ◌∷◌, ◌==◌, keep_if, length, arith}

module _ {A : Type 0} (session : A → ℕ) where
  pub keep_if-deleted :
      (id : ℕ) (rows : List A)
      → keep_if (λ r. session r == id) (keep_if (λ r. not (session r == id)) rows) ≡ []
  keep_if-deleted id [] = refl
  keep_if-deleted id (r ∷ rows) = ground (arith, keep_if-deleted id rows)

  pub keep_if-other :
      (id j : ℕ) (rows : List A)
      → j ≢ id
      → keep_if (λ r. session r == j) (keep_if (λ r. not (session r == id)) rows)
        ≡ keep_if (λ r. session r == j) rows
  keep_if-other id j [] h = refl
  keep_if-other id j (r ∷ rows) h = ground (arith, keep_if-other id j rows h)

  pub length-deleted :
      (id : ℕ) (rows : List A)
      → length (keep_if (λ r. not (session r == id)) rows)
          + length (keep_if (λ r. session r == id) rows)
        ≡ length rows
  length-deleted id [] = refl
  length-deleted id (r ∷ rows) = ground (arith, length-deleted id rows)
