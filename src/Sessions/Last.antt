-- ===== src/Sessions/Last.antt =====
-- The last number of the chunks of a session, `MAX(seq_end)` in
-- crates/relayterm-db/src/repositories/terminal_session.rs.
use relay_term.Prelude.{
  ℕ, ◌≡◌, ◌∙◌, refl, sym, ap, subst, inl, inr, Bool, Bool-cases, true, false, ◌&&◌, Option, none,
  some, List, [], ◌∷◌, if◌then◌else◌, ltb, leb, max, ◌==◌, arith, ℕ_discrete,
}
use relay_term.Sessions.Reconcile.{larger, max_seq_end}

-- A chunk of the session `j` ends at `n`.
unfoldable pub ends_at : ℕ → ℕ → List (ℕ × ℕ) → Bool
ends_at j n [] = false
ends_at j n ((k, m) ∷ rest) =
    let later = ends_at j n rest in if (k == j) && (m == n) then true else later

-- No chunk of the session `j` ends after `n`.
unfoldable pub none_after : ℕ → ℕ → List (ℕ × ℕ) → Bool
none_after j n [] = true
none_after j n ((k, m) ∷ rest) =
    let later = none_after j n rest in if (k == j) && ltb n m then false else later

abbrev pub is_last_chunk : ℕ → ℕ → List (ℕ × ℕ) → Bool
is_last_chunk j n chunks = ends_at j n chunks && none_after j n chunks

abbrev pub is_max_seq_end : ℕ → Option ℕ → Bool
is_max_seq_end n none = false
is_max_seq_end n (some m) = m == n

-- What the largest number tells of every number.
abbrev Largest : ℕ → ℕ → Option ℕ → List (ℕ × ℕ) → Type 0
Largest j n none chunks = (ends_at j n chunks ≡ false) × (none_after j n chunks ≡ true)
Largest j n (some m) chunks =
    (ends_at j m chunks ≡ true)
    × ((ends_at j n chunks && ltb m n) ≡ false)
    × (none_after j n chunks ≡ leb m n)

module _ (j n k s : ℕ) (rest : List (ℕ × ℕ)) where
  other_session :
      (o : Option ℕ) → (k == j) ≡ false → Largest j n o rest → Largest j n o ((k, s) ∷ rest)
  unfolding ends_at none_after
  other_session none e (a, b) = rw e (a, b)
  other_session (some m) e (a, b, c) = rw e (a, b, c)

  one_chunk_more :
      (o : Option ℕ)
      → (k == j) ≡ true
      → Largest j n o rest
      → Largest j n (larger s o) ((k, s) ∷ rest)
  unfolding ends_at none_after larger
  one_chunk_more none e (a, b) = rw (e, a, b) (ground arith, ground arith, ground arith)
  one_chunk_more (some m) e (a, b, c) = elim (Bool-cases (leb s m)) [
    | inl x ↦
        let large : max s m ≡ m = ground arith in
        rw (e, large)
          (
            ground (arith, ap (λ x. ends_at j x rest) large ∙ a),
            ground (arith, b, c, x),
            ground (arith, b, c, x),
          )
    | inr x ↦
        let large : max s m ≡ s = ground arith in
        rw (e, large) (ground arith, ground (arith, b, c, x), ground (arith, b, c, x))
  ]

max_seq_end-Largest : (j n : ℕ) (chunks : List (ℕ × ℕ)) → Largest j n (max_seq_end j chunks) chunks
unfolding max_seq_end ends_at none_after
max_seq_end-Largest j n [] = (refl, refl)
max_seq_end-Largest j n ((k, s) ∷ rest) = elim (Bool-cases (k == j)) [
  | inr e ↦
      subst (λ o. Largest j n o ((k, s) ∷ rest)) (sym (max_other e))
        (other_session j n k s rest (max_seq_end j rest) e (max_seq_end-Largest j n rest))
  | inl e ↦
      subst (λ o. Largest j n o ((k, s) ∷ rest)) (sym (max_own e))
        (one_chunk_more j n k s rest (max_seq_end j rest) e (max_seq_end-Largest j n rest))
]
  where
    max_other : (k == j) ≡ false → max_seq_end j ((k, s) ∷ rest) ≡ max_seq_end j rest
    max_other e = rw e refl

    max_own : (k == j) ≡ true → max_seq_end j ((k, s) ∷ rest) ≡ larger s (max_seq_end j rest)
    max_own e = rw e refl

pub max_seq_end_last :
    (j n : ℕ) (chunks : List (ℕ × ℕ))
    → is_max_seq_end n (max_seq_end j chunks) ≡ is_last_chunk j n chunks
max_seq_end_last j n chunks = of (max_seq_end j chunks) (max_seq_end-Largest j n chunks)
  where
    of : (o : Option ℕ) → Largest j n o chunks → is_max_seq_end n o ≡ is_last_chunk j n chunks
    of none (a, b) = ground (arith, a, b)
    of (some m) (a, b, c) = elim (ℕ_discrete m n) [
      | yes e ↦ ground (arith, ap (λ x. ends_at j x chunks) (sym e) ∙ a, c, e)
      | no x ↦ ground (arith, b, c, x)
    ]
