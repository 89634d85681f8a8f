-- ===== src/Retention/Counts.antt =====
-- How often a session stands in the listing of candidates, crates/relayterm-db/src/repositories/terminal_recording.rs.
use relay_term.Prelude.{
  ℕ, sym, zero, suc, inl, inr, Bool-cases, ◌+◌, ◌≤◌, ◌≡◌, ◌≢◌, ◌∙◌, refl, Bool, not, Option, none,
  some, List, [], ◌∷◌, map, take, if◌then◌else◌, ◌==◌, keep_if, length, arith, ℕ_discrete,
}
use relay_term.Prelude.Assoc.{get, Distinct, get-nil, get-cons_self, get-cons_ne}
use relay_term.Sessions.{TerminalSession}
use relay_term.Corpus.{Tables, expired_at, expired_row}
use relay_term.Corpus.Listing.{insert_by, order_by, candidate, eligible, is_recorded}

-- The sessions that a sweep may purge.
abbrev pub backlog : ℕ → ℕ → Tables → List (ℕ × ℕ)
backlog days now t = eligible days now t t.sessions

abbrev pub occurrences : ℕ → List ℕ → ℕ
occurrences j [] = 0
occurrences j (id ∷ ids) = (if id == j then 1 else 0) + occurrences j ids

abbrev pub ids_of : List (ℕ × ℕ) → List ℕ
ids_of cs = map (λ c. c.0) cs

pub length-ids_of : (cs : List (ℕ × ℕ)) → length (ids_of cs) ≡ length cs
length-ids_of [] = refl
length-ids_of (c ∷ cs) = omega (arith, length-ids_of cs)

module _ (before : ℕ × ℕ → ℕ × ℕ → Bool) where
  occurrences-insert_by :
      (j : ℕ) (c : ℕ × ℕ) (cs : List (ℕ × ℕ))
      → occurrences j (ids_of (insert_by before c cs)) ≡ occurrences j (ids_of (c ∷ cs))
  unfolding insert_by
  occurrences-insert_by j c [] = refl
  occurrences-insert_by j c (d ∷ cs) = ground (arith, occurrences-insert_by j c cs)

  pub occurrences-order_by :
      (j : ℕ) (cs : List (ℕ × ℕ))
      → occurrences j (ids_of (order_by before cs)) ≡ occurrences j (ids_of cs)
  unfolding order_by
  occurrences-order_by j [] = refl
  occurrences-order_by j (c ∷ cs) =
      ground (arith, occurrences-insert_by j c (order_by before cs), occurrences-order_by j cs)

  length-insert_by :
      (c : ℕ × ℕ) (cs : List (ℕ × ℕ)) → length (insert_by before c cs) ≡ length cs + 1
  unfolding insert_by
  length-insert_by c [] = omega arith
  length-insert_by c (d ∷ cs) = ground (arith, length-insert_by c cs)

  pub length-order_by : (cs : List (ℕ × ℕ)) → length (order_by before cs) ≡ length cs
  unfolding order_by
  length-order_by [] = refl
  length-order_by (c ∷ cs) =
      ground (arith, length-insert_by c (order_by before cs), length-order_by cs)

pub occurrences-take-le :
    (j n : ℕ) (cs : List (ℕ × ℕ)) → occurrences j (ids_of (take n cs)) ≤ occurrences j (ids_of cs)
occurrences-take-le j zero cs = omega arith
occurrences-take-le j (suc n) [] = omega arith
occurrences-take-le j (suc n) (c ∷ cs) = omega (arith, occurrences-take-le j n cs)

pub occurrences-deleted :
    (j id : ℕ) (cs : List (ℕ × ℕ))
    → j ≢ id
    → occurrences j (ids_of (keep_if (λ c. not (c.0 == id)) cs)) ≡ occurrences j (ids_of cs)
occurrences-deleted j id [] h = refl
occurrences-deleted j id (c ∷ cs) h = ground (arith, occurrences-deleted j id cs h)

pub length-one_deleted :
    (id : ℕ) (cs : List (ℕ × ℕ))
    → length (keep_if (λ c. not (c.0 == id)) cs) + occurrences id (ids_of cs) ≡ length cs
length-one_deleted id [] = refl
length-one_deleted id (c ∷ cs) = ground (arith, length-one_deleted id cs)

-- 1 for a session that the listing may name, 0 for another.
unfoldable pub listed : Option ℕ → Bool → ℕ
listed none recorded = 0
listed (some at) recorded = if recorded then 1 else 0

module _ (days now : ℕ) (t : Tables) where
  candidate_self :
      (id : ℕ) (o : Option ℕ) (rest : List (ℕ × ℕ))
      → occurrences id (ids_of (candidate days now t id o rest))
        ≡ listed o (is_recorded id t) + occurrences id (ids_of rest)
  unfolding candidate listed
  candidate_self id none rest = omega arith
  candidate_self id (some at) rest = elim (Bool-cases (is_recorded id t)) [
    | inl e ↦ rw e (ground arith)
    | inr e ↦ rw e (omega arith)
  ]

  candidate_other :
      (id k : ℕ) (o : Option ℕ) (rest : List (ℕ × ℕ))
      → k ≢ id
      → occurrences id (ids_of (candidate days now t k o rest)) ≡ occurrences id (ids_of rest)
  unfolding candidate
  candidate_other id k none rest h = refl
  candidate_other id k (some at) rest h = elim (Bool-cases (is_recorded k t)) [
    | inl e ↦ rw e (ground arith)
    | inr e ↦ rw e refl
  ]

  unlisted :
      (id : ℕ) (rows : List (ℕ × TerminalSession))
      → get ℕ_discrete id rows ≡ none
      → occurrences id (ids_of (eligible days now t rows)) ≡ 0
  unfolding get eligible
  unlisted id [] h = refl
  unlisted id ((k, row) ∷ rows) h = ground (
    arith,
    candidate_other id k (expired_at days now row.closed_at) (eligible days now t rows),
    unlisted id rows,
  )

  pub listed_once :
      (id : ℕ) (rows : List (ℕ × TerminalSession))
      → Distinct ℕ_discrete rows
      → occurrences id (ids_of (eligible days now t rows))
        ≡ listed (expired_row days now (get ℕ_discrete id rows)) (is_recorded id t)
  unfolding eligible expired_row listed
  listed_once id [] h = rw (get-nil {V = TerminalSession} ℕ_discrete id) refl
  listed_once id ((k, row) ∷ rows) h = elim (ℕ_discrete k id) [
    | yes p ↦
        rw (p, get-cons_self ℕ_discrete id row rows)
          (omega (
            arith,
            candidate_self id (expired_at days now row.closed_at) (eligible days now t rows),
            unlisted id rows (rw (sym p) h.0),
          ))
    | no n ↦
        rw (get-cons_ne ℕ_discrete k id row rows n)
          (candidate_other id k _ _ n ∙ listed_once id rows h.1)
  ]
