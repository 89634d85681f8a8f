-- ===== src/Auth/Tables.antt =====
-- What the repositories of users, passwords and login sessions share, over the constraints of
-- apps/backend/migrations, and the insert of crates/relayterm-db/src/repositories/audit_event.rs.
use relay_term.Prelude.{ℕ, Bool, Option, none, some, List, [], ◌∷◌, if◌then◌else◌}
use relay_term.Prelude.Calls.{Calls, pure, fail, read, update, ◌>>=◌, ◌>>◌}
use relay_term.Auth.{
  AuditEvent, Server, RepositoryError, missing_row, violated_constraint, statement,
}

abbrev pub Db : Type 0 → Type 0
Db A = Calls Server RepositoryError A

-- The first row that passes a test.
unfoldable pub find_row {ℓ} : {V : Type ℓ} → (V → Bool) → List (ℕ × V) → Option V
find_row p [] = none
find_row p ((id, v) ∷ rows) = let rest = find_row p rows in if p v then some v else rest

-- An insert that the table's constraints may refuse.
unfoldable pub insert_unless : {A : Type 0} → (Server → Bool) → (Server → Server) → A → Db A
insert_unless refused change row =
    statement
      (read refused >>= λ r. if r then fail violated_constraint else update change >> pure row)

-- An update of the row of an id, which may be missing.
unfoldable pub update_row : (Server → Bool) → (Server → Server) → Db (Unit {0})
update_row present change =
    statement (read present >>= λ p. if p then update change else fail missing_row)

-- The audit event is one more row.
unfoldable pub append_audit : AuditEvent → Db (Unit {0})
append_audit event = statement (update (λ s. record s { audits = event ∷ s.audits }))
