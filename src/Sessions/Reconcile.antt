-- ===== src/Sessions/Reconcile.antt =====
-- `reconcile_orphaned_on_startup`, crates/relayterm-db/src/repositories/terminal_session.rs: no PTY
-- outlives the process, so the rows that are still open are closed in one transaction.
-- A statement fails when `faults` says so, and a transaction that ends in an error leaves the tables as
-- they were. The rows are those of the table in the order of their ids. A chunk of a recording is known by
-- its session and its last number, a `closed` marker by its session and its number; its payload, which
-- repeats that of the event, is left out.
use relay_term.Prelude.{
  ℕ, Bool, true, false, ◌&&◌, Option, none, some, List, [], ◌∷◌, ◌++◌, if◌then◌else◌, ◌==◌, max,
}
use relay_term.Prelude.Calls.{Calls, Result, ok, err, pure, read, update, ◌>>=◌, ◌>>◌}
use relay_term.Sessions.{
  TerminalSession, TerminalSessionStatus, starting, active, detached, closed, mark,
}

pub record ReconciledTerminalSession : Type 0 where
  pub session_id : ℕ
  pub previous_status : TerminalSessionStatus

-- The `closed` event with the reason `startup_reconciliation`.
pub record StartupEvent : Type 0 where
  pub session_id : ℕ
  pub previous_status : TerminalSessionStatus
  pub reconciled_at : ℕ

pub record StartupTables : Type 0 where
  pub sessions : List (ℕ × TerminalSession)
  pub events : List StartupEvent
  pub chunks : List (ℕ × ℕ)
  pub markers : List (ℕ × ℕ)

pub record StartupDb : Type 0 where
  pub tables : StartupTables
  pub faults : List Bool

pub data StartupError : Type 0 where
  database : StartupError

abbrev pub Startup : Type 0 → Type 0
Startup A = Calls StartupDb StartupError A

unfoldable pub next_fault : List Bool → Bool
next_fault [] = false
next_fault (f ∷ fs) = f

unfoldable pub later_faults : List Bool → List Bool
later_faults [] = []
later_faults (f ∷ fs) = fs

abbrev pub after_statement : StartupDb → StartupDb
after_statement db = record db { faults = later_faults db.faults }

unfoldable pub statement : {A : Type 0} → Startup A → Startup A
statement c db =
    if next_fault db.faults then (err database, after_statement db) else c (after_statement db)

unfoldable pub rolled_back :
    {A : Type 0} → StartupTables → Result StartupError A → StartupDb → StartupDb
rolled_back t (ok a) db = db
rolled_back t (err e) db = record db { tables = t }

unfoldable pub transaction : {A : Type 0} → Startup A → Startup A
transaction c db = ((c db).0, rolled_back db.tables (c db).0 (c db).1)

-- `status IN ('starting', 'active', 'detached')`.
unfoldable pub is_orphan : TerminalSessionStatus → Bool
is_orphan starting = true
is_orphan active = true
is_orphan detached = true
is_orphan closed = false

unfoldable pub orphans : List (ℕ × TerminalSession) → List (ℕ × TerminalSessionStatus)
orphans [] = []
orphans ((id, row) ∷ rest) =
    let later = orphans rest in if is_orphan row.status then (id, row.status) ∷ later else later

-- `UPDATE ... WHERE id`.
unfoldable pub close_row : ℕ → ℕ → ℕ → List (ℕ × TerminalSession) → List (ℕ × TerminalSession)
close_row at now id [] = []
close_row at now id ((k, row) ∷ rest) =
    (k, if k == id then mark closed (some at) now row else row) ∷ close_row at now id rest

unfoldable pub larger : ℕ → Option ℕ → Option ℕ
larger n none = some n
larger n (some m) = some (max n m)

-- `MAX(seq_end)` of the chunks of a session.
unfoldable pub max_seq_end : ℕ → List (ℕ × ℕ) → Option ℕ
max_seq_end id [] = none
max_seq_end id ((k, seq_end) ∷ rest) =
    let later = max_seq_end id rest in if k == id then larger seq_end later else later

unfoldable pub has_marker : ℕ → ℕ → List (ℕ × ℕ) → Bool
has_marker id seq [] = false
has_marker id seq ((k, n) ∷ rest) =
    let later = has_marker id seq rest in if (k == id) && (n == seq) then true else later

-- `ON CONFLICT ... DO NOTHING`.
unfoldable pub add_marker : ℕ → ℕ → List (ℕ × ℕ) → List (ℕ × ℕ)
add_marker id seq markers = if has_marker id seq markers then markers else markers ++ (id, seq) ∷ []

unfoldable pub closing_marker : ℕ → Option ℕ → Startup (Unit {0})
closing_marker id none = pure tt
closing_marker id (some seq) = statement (
    update (λ db. record db {
      tables = record db.tables { markers = add_marker id seq db.tables.markers };
    }))

-- One turn of the loop.
unfoldable pub close_orphan : ℕ → ℕ → ℕ → TerminalSessionStatus → Startup ReconciledTerminalSession
close_orphan at now id previous_status = do
  statement (
      update (λ db. record db {
        tables = record db.tables { sessions = close_row at now id db.tables.sessions };
      }))
  statement (
      update (λ db. record db {
        tables = record db.tables {
          events =
              db.tables.events
              ++ record { session_id = id; previous_status = previous_status; reconciled_at = at }
                ∷ [];
        };
      }))
  last ← statement (read (λ db. max_seq_end id db.tables.chunks))
  closing_marker id last
  pure (record { session_id = id; previous_status = previous_status })

unfoldable pub close_orphans :
    ℕ → ℕ → List (ℕ × TerminalSessionStatus) → Startup (List ReconciledTerminalSession)
close_orphans at now [] = pure []
close_orphans at now ((id, previous_status) ∷ rest) = do
  this ← close_orphan at now id previous_status
  later ← close_orphans at now rest
  pure (this ∷ later)

-- `at` is the caller's time, `now` the database's.
unfoldable pub reconcile : ℕ → ℕ → Startup (List ReconciledTerminalSession)
reconcile at now = transaction (do
  statement (pure tt)
  candidates ← statement (read (λ db. orphans db.tables.sessions))
  reconciled ← close_orphans at now candidates
  statement (pure tt)
  pure reconciled)
