-- ===== src/Corpus/Reads.antt =====
-- The listing of candidates changes no table, crates/relayterm-db/src/repositories/terminal_recording.rs.
use relay_term.Prelude.{ℕ, ◌≡◌, refl, inl, inr, Bool-cases, ltb}
use relay_term.Corpus.{Tables, Db, statement, next_fault, i32_max, select}
use relay_term.Corpus.Listing.{list_eligible_for_retention}

select-tables : {A : Type 0} (f : Tables → A) (db : Db) → (select f db).1.tables ≡ db.tables
unfolding statement
select-tables f db = elim (Bool-cases (next_fault db.faults)) [
  | inl e ↦ rw (statement, e) refl
  | inr e ↦ rw (statement, e) refl
]

pub list_eligible-tables :
    (days now limit : ℕ) (db : Db)
    → (list_eligible_for_retention days now limit db).1.tables ≡ db.tables
unfolding list_eligible_for_retention
list_eligible-tables days now limit db = elim (Bool-cases (ltb i32_max days)) [
  | inl e ↦ rw e refl
  | inr e ↦ rw e (select-tables _ db)
]
