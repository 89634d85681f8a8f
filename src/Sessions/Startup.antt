-- ===== src/Sessions/Startup.antt =====
-- After a start of the backend no session is open, crates/relayterm-db/src/repositories/terminal_session.rs.
use relay_term.Prelude.{
  ℕ, ◌≡◌, ◌∙◌, refl, sym, ap, ap₂, subst, inl, inr, Bool, Bool-cases, true, false, ◌&&◌, ◌||◌,
  Option, none, some, List, [], ◌∷◌, ◌++◌, map, if◌then◌else◌, ℕ_discrete,
}
use mathlib.Core.Option
use mathlib.Core.Bool.{true≢false}
use relay_term.Prelude.Assoc.{get, Distinct}
use relay_term.Prelude.Calls.{Result, ok, err, On, Yields, Yields-then, pure, read}
use relay_term.Sessions.{TerminalSession, TerminalSessionStatus, is_closed, mark, closed}
use relay_term.Sessions.Reconcile.{
  ReconciledTerminalSession, StartupTables, StartupDb, StartupError, rolled_back, transaction,
  orphans, has_marker, close_orphans, reconcile,
}
use relay_term.Sessions.Last.{is_last_chunk, max_seq_end_last}
use relay_term.Sessions.Orphans.{
  close_open_row, open_now, none_open, get-close_listed, listed-open, is_orphan_open,
}
use relay_term.Sessions.Swept.{
  After, swept, event_of, reported, statement-Yields, close_orphans-Yields,
}

is_ok : {E A : Type 0} → Result E A → Bool
is_ok (ok a) = true
is_ok (err e) = false

err_ok : {E A : Type 0} (e : E) (a : A) → Path (Result E A) (err e) (ok a) → ⊥
unfolding is_ok
err_ok e a h = true≢false (sym (ap is_ok h))

-- The open sessions of a table, with the status of each.
abbrev pub open_sessions : List (ℕ × TerminalSession) → List (ℕ × TerminalSessionStatus)
open_sessions [] = []
open_sessions ((id, row) ∷ rest) =
    let later = open_sessions rest in
    if is_closed row.status then later else (id, row.status) ∷ later

-- What a start does to the session `j` and to its marker at the number `n`, and what it reports.
abbrev pub Starts :
    ℕ
    → ℕ
    → ℕ
    → ℕ
    → StartupTables
    → Result StartupError (List ReconciledTerminalSession)
    → StartupTables
    → Type 0
Starts at now j n t (err e) after = after ≡ t
Starts at now j n t (ok done) after =
    (done ≡ map reported (open_sessions t.sessions))
    × (get ℕ_discrete j after.sessions
        ≡ Option.map (close_open_row at now) (get ℕ_discrete j t.sessions))
    × (after.events ≡ t.events ++ map (event_of at) (open_sessions t.sessions))
    × (after.chunks ≡ t.chunks)
    × (has_marker j n after.markers ≡ (
        has_marker j n t.markers
        || (open_now (get ℕ_discrete j t.sessions) && is_last_chunk j n t.chunks)))

-- The same in the words of the statements.
abbrev Sweeps :
    ℕ
    → ℕ
    → StartupTables
    → Result StartupError (List ReconciledTerminalSession)
    → StartupTables
    → Type 0
Sweeps at now t (err e) after = after ≡ t
Sweeps at now t (ok done) after =
    (done ≡ map reported (orphans t.sessions)) × After at now (orphans t.sessions) t after

module _ (at now : ℕ) (t : StartupTables) where
  rolled_back-Sweeps :
      (r : Result StartupError (List ReconciledTerminalSession)) (d : StartupDb)
      → Yields (λ done d. Sweeps at now t (ok done) d.tables) (r, d)
      → Sweeps at now t r (rolled_back t r d).tables
  unfolding rolled_back
  rolled_back-Sweeps (ok done) d h = h
  rolled_back-Sweeps (err e) d h = refl

pub reconcile-Sweeps :
    (at now : ℕ) (db : StartupDb)
    → Sweeps at now db.tables (reconcile at now db).0 (reconcile at now db).1.tables
unfolding reconcile transaction pure read
reconcile-Sweeps at now db =
    let t : StartupTables = db.tables in
    let P : List ReconciledTerminalSession → StartupDb → Type 0 =
      λ done d. Sweeps at now t (ok done) d.tables in
    let Same : Unit {0} → StartupDb → Type 0 = λ _ d. d.tables ≡ t in
    let Selected : List (ℕ × TerminalSessionStatus) → StartupDb → Type 0 =
      λ cs d. (cs ≡ orphans t.sessions) × (d.tables ≡ t) in
    rolled_back-Sweeps at now t _ _ (
      Yields-then P Same _ _ db (statement-Yields Same _ db refl) λ _ a ha.
        Yields-then P Selected _ _ a
          (statement-Yields Selected _ a (ap (λ u. orphans u.sessions) ha, ha))
          λ cs b (selected, hb).
            Yields-then P P _ _ b
              (subst (λ l. Yields P (close_orphans at now l b)) (sym selected)
                (subst
                  (λ u.
                    Yields
                      (λ done d.
                        (done ≡ map reported (orphans t.sessions))
                        × After at now (orphans t.sessions) u d.tables)
                      (close_orphans at now (orphans t.sessions) b))
                  hb (close_orphans-Yields at now (orphans t.sessions) b)))
              λ done c hc.
                Yields-then P (λ _ d. P done d) _ _ c (statement-Yields (λ _ d. P done d) _ c hc)
                  λ _ d hd. hd)

orphans-open : (rows : List (ℕ × TerminalSession)) → orphans rows ≡ open_sessions rows
unfolding orphans
orphans-open [] = refl
orphans-open ((id, row) ∷ rest) = elim (Bool-cases (is_closed row.status)) [
  | inl e ↦ rw (is_orphan_open row.status, e) (orphans-open rest)
  | inr e ↦ rw (is_orphan_open row.status, e) (ap (λ l. (id, row.status) ∷ l) (orphans-open rest))
]

-- A selected row is closed, another one stays.
closed_or_same :
    (at now : ℕ) (o : Option TerminalSession) (b : Bool)
    → b ≡ open_now o
    → Option.map (λ row. if b then mark closed (some at) now row else row) o
      ≡ Option.map (close_open_row at now) o
unfolding mark
closed_or_same at now none b h = refl
closed_or_same at now (some row) b h = elim (Bool-cases (is_closed row.status)) [
  | inl e ↦ rw (h, e) refl
  | inr e ↦ rw (h, e) refl
]

Sweeps-Starts :
    (at now j n : ℕ) (t after : StartupTables)
    (r : Result StartupError (List ReconciledTerminalSession))
    → Distinct ℕ_discrete t.sessions
    → Sweeps at now t r after
    → Starts at now j n t r after
Sweeps-Starts at now j n t after (err e) distinct h = h
Sweeps-Starts at now j n t after (ok done) distinct (told, h) =
    let opens = orphans-open t.sessions in
    let selected = listed-open j t.sessions distinct in
    (
      told ∙ ap (map reported) opens,
      ap (get ℕ_discrete j) h.sessions
          ∙ get-close_listed at now (orphans t.sessions) j t.sessions
          ∙ closed_or_same at now (get ℕ_discrete j t.sessions) _ selected,
      h.events ∙ ap (λ l. t.events ++ map (event_of at) l) opens,
      h.chunks,
      h.markers j n
          ∙ ap₂ (λ b c. has_marker j n t.markers || (b && c)) selected
              (max_seq_end_last j n t.chunks),
    )

-- The ids of the sessions are distinct. Whichever statement fails, a start that fails leaves all tables as
-- they were. One that returns reports exactly the open sessions; it closes the row of an open session at the
-- time of the start and leaves a closed row as it was, adds no row and loses none; it adds one event for
-- each open session, and changes no chunk; and a `closed` marker of a session stands at a number just when it
-- did before, or the session was open and this is the last number of its chunks.
pub startup_closes :
    (at now j n : ℕ) (db : StartupDb)
    → Distinct ℕ_discrete db.tables.sessions
    → Starts at now j n db.tables (reconcile at now db).0 (reconcile at now db).1.tables
startup_closes at now j n db distinct =
    Sweeps-Starts at now j n db.tables _ _ distinct (reconcile-Sweeps at now db)

closed_all :
    (at now : ℕ) (t after : StartupTables)
    (r : Result StartupError (List ReconciledTerminalSession))
    (done : List ReconciledTerminalSession)
    → r ≡ ok done
    → Sweeps at now t r after
    → orphans after.sessions ≡ []
closed_all at now t after (ok found) done returned (told, h) =
    ap orphans h.sessions ∙ none_open at now (orphans t.sessions) t.sessions (λ k listed. listed)
closed_all at now t after (err e) done returned h = absurd (err_ok e done returned)

idle :
    (at now : ℕ) (t after : StartupTables)
    (r : Result StartupError (List ReconciledTerminalSession))
    → orphans t.sessions ≡ []
    → Sweeps at now t r after
    → (after ≡ t) × On r (λ reported. reported ≡ [])
unfolding swept
idle at now t after (err e) none_left h = (h, tt)
idle at now t after (ok done) none_left (told, h) =
    (h.whole ∙ ap (λ cs. swept at now cs t) none_left, told ∙ ap (map reported) none_left)

-- After a start that returned, a start at any later or earlier time, with any failing statements, changes no
-- table, and it reports no session unless it fails.
pub startup_twice :
    (at now at_again now_again : ℕ) (faults : List Bool) (db : StartupDb)
    (done : List ReconciledTerminalSession)
    → (reconcile at now db).0 ≡ ok done
    → let left = (reconcile at now db).1.tables in
      let again = reconcile at_again now_again (record { tables = left; faults = faults }) in
      (again.1.tables ≡ left) × On again.0 (λ reported. reported ≡ [])
startup_twice at now at_again now_again faults db done returned =
    let left : StartupTables = (reconcile at now db).1.tables in
    idle at_again now_again left _ _
      (closed_all at now db.tables left _ done returned (reconcile-Sweeps at now db))
      (reconcile-Sweeps at_again now_again (record { tables = left; faults = faults }))
