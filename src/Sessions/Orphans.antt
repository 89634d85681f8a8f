-- ===== src/Sessions/Orphans.antt =====
-- What the statements of the start-up select and change, row by row,
-- crates/relayterm-db/src/repositories/terminal_session.rs.
use relay_term.Prelude.{
  ℕ, ◌≡◌, ◌∙◌, refl, ap, ap₂, inl, inr, Bool, Bool-cases, true, false, not, ◌&&◌, ◌||◌, Option,
  none, some, List, [], ◌∷◌, ◌++◌, if◌then◌else◌, ◌==◌, arith, ℕ_discrete,
}
use mathlib.Core.Option
use relay_term.Prelude.Assoc.{get, Distinct}
use relay_term.Sessions.{
  TerminalSession, TerminalSessionStatus, starting, active, detached, closed, is_closed, mark,
}
use relay_term.Sessions.Reconcile.{is_orphan, orphans, close_row, has_marker, add_marker}

-- An open row is closed at the time of the start, and the database's clock is noted.
abbrev pub close_open_row : ℕ → ℕ → TerminalSession → TerminalSession
close_open_row at now row =
    if is_closed row.status
    then row
    else record row { status = closed; closed_at = some at; last_seen_at = now }

abbrev pub open_now : Option TerminalSession → Bool
open_now none = false
open_now (some row) = not (is_closed row.status)

unfoldable pub listed : ℕ → List (ℕ × TerminalSessionStatus) → Bool
listed k [] = false
listed k ((id, s) ∷ cs) = let later = listed k cs in if k == id then true else later

unfoldable pub close_listed :
    ℕ
    → ℕ
    → List (ℕ × TerminalSessionStatus)
    → List (ℕ × TerminalSession)
    → List (ℕ × TerminalSession)
close_listed at now cs [] = []
close_listed at now cs ((k, row) ∷ rest) =
    (k, if listed k cs then mark closed (some at) now row else row) ∷ close_listed at now cs rest

pub is_orphan_open : (s : TerminalSessionStatus) → is_orphan s ≡ not (is_closed s)
unfolding is_orphan is_closed
is_orphan_open starting = refl
is_orphan_open active = refl
is_orphan_open detached = refl
is_orphan_open closed = refl

module _ (at now : ℕ) where
  pub close_listed_nil : (rows : List (ℕ × TerminalSession)) → close_listed at now [] rows ≡ rows
  unfolding close_listed listed
  close_listed_nil [] = refl
  close_listed_nil ((k, row) ∷ rest) = ap (λ l. (k, row) ∷ l) (close_listed_nil rest)

  -- The updates of the candidates, one after the other, are one update.
  pub close_listed_cons :
      (id : ℕ) (s : TerminalSessionStatus) (cs : List (ℕ × TerminalSessionStatus))
      (rows : List (ℕ × TerminalSession))
      → close_listed at now cs (close_row at now id rows) ≡ close_listed at now ((id, s) ∷ cs) rows
  unfolding close_listed listed close_row mark
  close_listed_cons id s cs [] = refl
  close_listed_cons id s cs ((k, row) ∷ rest) = elim (Bool-cases (k == id)) [
    | inr e ↦ rw (e, close_listed_cons id s cs rest) refl
    | inl e ↦ elim (Bool-cases (listed k cs)) [
      | inl x ↦ rw (e, x, close_listed_cons id s cs rest) refl
      | inr x ↦ rw (e, x, close_listed_cons id s cs rest) refl
    ]
  ]

  marked_closed : (row : TerminalSession) → is_orphan (mark closed (some at) now row).status ≡ false
  unfolding mark is_orphan
  marked_closed row = refl

  -- When every open row is listed, no row is open afterwards.
  pub none_open :
      (cs : List (ℕ × TerminalSessionStatus)) (rows : List (ℕ × TerminalSession))
      → ((k : ℕ) → listed k (orphans rows) ≡ true → listed k cs ≡ true)
      → orphans (close_listed at now cs rows) ≡ []
  unfolding close_listed orphans listed
  none_open cs [] all = refl
  none_open cs ((k, row) ∷ rest) all = elim (Bool-cases (is_orphan row.status)) [
    | inl e ↦
        let here : listed k cs ≡ true = all k (rw e (ground arith)) in
        rw (here, marked_closed row) (none_open cs rest (λ j h. all j (rw e (ground (arith, h)))))
    | inr e ↦
        let later : orphans (close_listed at now cs rest) ≡ [] =
          none_open cs rest (λ j h. all j (rw e h)) in
        elim (Bool-cases (listed k cs)) [
          | inl x ↦ rw (x, marked_closed row) later
          | inr x ↦ rw (x, e) later
        ]
  ]

  pub get-close_listed :
      (cs : List (ℕ × TerminalSessionStatus)) (j : ℕ) (rows : List (ℕ × TerminalSession))
      → get ℕ_discrete j (close_listed at now cs rows)
        ≡ Option.map
            (λ row. if listed j cs then mark closed (some at) now row else row)
            (get ℕ_discrete j rows)
  unfolding close_listed get
  get-close_listed cs j [] = refl
  get-close_listed cs j ((k, row) ∷ rest) = ground (arith, get-close_listed cs j rest)

not_listed :
    (j : ℕ) (rows : List (ℕ × TerminalSession))
    → get ℕ_discrete j rows ≡ none
    → listed j (orphans rows) ≡ false
unfolding get orphans listed
not_listed j [] h = refl
not_listed j ((k, row) ∷ rest) h = ground (arith, not_listed j rest)

-- The ids of the rows are distinct, so a session is selected when its row is open.
pub listed-open :
    (j : ℕ) (rows : List (ℕ × TerminalSession))
    → Distinct ℕ_discrete rows
    → listed j (orphans rows) ≡ open_now (get ℕ_discrete j rows)
unfolding get orphans listed
listed-open j [] h = refl
listed-open j ((k, row) ∷ rest) h =
    ground (arith, listed-open j rest h.1, not_listed j rest, is_orphan_open row.status)

has_marker-append :
    (j n id seq : ℕ) (markers : List (ℕ × ℕ))
    → has_marker j n (markers ++ (id, seq) ∷ [])
      ≡ (has_marker j n markers || ((j == id) && (seq == n)))
unfolding has_marker
has_marker-append j n id seq [] = ground arith
has_marker-append j n id seq ((k, m) ∷ rest) = ground (arith, has_marker-append j n id seq rest)

pub or_false : (b : Bool) → b ≡ (b || false)
or_false true = refl
or_false false = refl

there_already :
    (j n id seq : ℕ) (markers : List (ℕ × ℕ))
    → has_marker id seq markers ≡ true
    → has_marker j n markers ≡ (has_marker j n markers || ((j == id) && (seq == n)))
there_already j n id seq markers h = elim (Bool-cases ((j == id) && (seq == n))) [
  | inl x ↦
      let one : j ≡ id = ground arith in
      let two : n ≡ seq = ground arith in
      let there : has_marker j n markers ≡ true = ap₂ (λ a b. has_marker a b markers) one two ∙ h in
      rw there refl
  | inr x ↦ rw x (or_false (has_marker j n markers))
]

pub has_marker-add :
    (j n id seq : ℕ) (markers : List (ℕ × ℕ))
    → has_marker j n (add_marker id seq markers)
      ≡ (has_marker j n markers || ((j == id) && (seq == n)))
unfolding add_marker
has_marker-add j n id seq markers = elim (Bool-cases (has_marker id seq markers)) [
  | inl e ↦ rw e (there_already j n id seq markers e)
  | inr e ↦ rw e (has_marker-append j n id seq markers)
]
