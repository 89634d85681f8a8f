-- ===== src/Sessions/Swept.antt =====
-- What the loop of the start-up leaves, crates/relayterm-db/src/repositories/terminal_session.rs.
use relay_term.Prelude.{
  ℕ, ◌≡◌, ◌∙◌, refl, sym, ap, ap₂, subst, inl, inr, Bool, Bool-cases, true, false, ◌&&◌, ◌||◌,
  Option, none, some, List, [], ◌∷◌, ◌++◌, map, if◌then◌else◌, ◌==◌, append-nil, append_assoc,
  arith,
}
use relay_term.Prelude.Calls.{Yields, Yields-then, pure, read, update}
use relay_term.Sessions.{TerminalSessionStatus}
use relay_term.Sessions.Reconcile.{
  ReconciledTerminalSession, StartupEvent, StartupTables, StartupDb, Startup, next_fault,
  after_statement, statement, close_row, max_seq_end, has_marker, add_marker, closing_marker,
  close_orphan, close_orphans,
}
use relay_term.Sessions.Last.{is_max_seq_end}
use relay_term.Sessions.Orphans.{
  listed, close_listed, close_listed_nil, close_listed_cons, has_marker-add, or_false,
}

abbrev pub event_of : ℕ → ℕ × TerminalSessionStatus → StartupEvent
event_of at c = record { session_id = c.0; previous_status = c.1; reconciled_at = at }

abbrev pub reported : ℕ × TerminalSessionStatus → ReconciledTerminalSession
reported c = record { session_id = c.0; previous_status = c.1 }

pub statement-Yields :
    {A : Type 0} (P : A → StartupDb → Type 0) (c : Startup A) (db : StartupDb)
    → Yields P (c (after_statement db))
    → Yields P (statement c db)
unfolding statement
statement-Yields P c db h = elim (Bool-cases (next_fault db.faults)) [
  | inl e ↦ rw (statement, e) tt
  | inr e ↦ rw (statement, e) h
]

abbrev with_marker : ℕ → Option ℕ → StartupTables → StartupTables
with_marker id none t = t
with_marker id (some seq) t = record t { markers = add_marker id seq t.markers }

abbrev with_event : ℕ → ℕ → TerminalSessionStatus → StartupTables → StartupTables
with_event at id s t = record t { events = t.events ++ event_of at (id, s) ∷ [] }

abbrev with_closed : ℕ → ℕ → ℕ → StartupTables → StartupTables
with_closed at now id t = record t { sessions = close_row at now id t.sessions }

-- One turn of the loop.
abbrev turned : ℕ → ℕ → ℕ → TerminalSessionStatus → StartupTables → StartupTables
turned at now id s t =
    with_marker id (max_seq_end id t.chunks) (with_event at id s (with_closed at now id t))

unfoldable pub swept : ℕ → ℕ → List (ℕ × TerminalSessionStatus) → StartupTables → StartupTables
swept at now [] t = t
swept at now ((id, s) ∷ cs) t = swept at now cs (turned at now id s t)

-- The tables when the sessions of `cs` are closed.
pub record After (at now : ℕ) (cs : List (ℕ × TerminalSessionStatus)) (t u : StartupTables)
    : Type 0 where
  pub sessions : u.sessions ≡ close_listed at now cs t.sessions
  pub events : u.events ≡ t.events ++ map (event_of at) cs
  pub chunks : u.chunks ≡ t.chunks
  pub markers :
      (j n : ℕ)
      → has_marker j n u.markers
        ≡ (has_marker j n t.markers || (listed j cs && is_max_seq_end n (max_seq_end j t.chunks)))
  pub whole : u ≡ swept at now cs t

with_marker-same :
    (id : ℕ) (o : Option ℕ) (t : StartupTables)
    → ((with_marker id o t).sessions ≡ t.sessions)
      × ((with_marker id o t).events ≡ t.events)
      × ((with_marker id o t).chunks ≡ t.chunks)
with_marker-same id none t = (refl, refl, refl)
with_marker-same id (some seq) t = (refl, refl, refl)

and_false : (b : Bool) → (b && false) ≡ false
and_false true = refl
and_false false = refl

has_marker-with :
    (j n id : ℕ) (o : Option ℕ) (t : StartupTables)
    → has_marker j n (with_marker id o t).markers
      ≡ (has_marker j n t.markers || ((j == id) && is_max_seq_end n o))
has_marker-with j n id none t =
    or_false (has_marker j n t.markers)
    ∙ ap (λ b. has_marker j n t.markers || b) (sym (and_false (j == id)))
has_marker-with j n id (some seq) t = has_marker-add j n id seq t.markers

-- `p` tells of one more candidate.
one_more :
    (h p l a b : Bool)
    → (p ≡ true → a ≡ b)
    → ((h || (p && a)) || (l && b)) ≡ (h || ((if p then true else l) && b))
one_more true p l a b f = refl
one_more false false l a b f = refl
one_more false true true a true f = rw (f refl) refl
one_more false true true a false f = rw (f refl) refl
one_more false true false a b f = rw (f refl) (sym (or_false b))

module _ (at now : ℕ) where
  After-none : (t : StartupTables) → After at now [] t t
  unfolding listed swept
  After-none t = record {
    sessions = sym (close_listed_nil at now t.sessions);
    events = sym (append-nil t.events);
    chunks = refl;
    markers = λ j n. or_false (has_marker j n t.markers);
    whole = refl;
  }

  closing_marker-Yields :
      (id : ℕ) (o : Option ℕ) (t : StartupTables) (d : StartupDb)
      → d.tables ≡ t
      → Yields (λ _ d. d.tables ≡ with_marker id o t) (closing_marker id o d)
  unfolding closing_marker pure update
  closing_marker-Yields id none t d h = h
  closing_marker-Yields id (some seq) t d h =
      statement-Yields (λ _ d. d.tables ≡ with_marker id (some seq) t) _ d
        (ap (with_marker id (some seq)) h)

  close_orphan-Yields :
      (id : ℕ) (s : TerminalSessionStatus) (db : StartupDb)
      → Yields
          (λ r d. (r ≡ reported (id, s)) × (d.tables ≡ turned at now id s db.tables))
          (close_orphan at now id s db)
  unfolding close_orphan update read pure
  close_orphan-Yields id s db =
      let t : StartupTables = db.tables in
      let P : ReconciledTerminalSession → StartupDb → Type 0 =
        λ r d. (r ≡ reported (id, s)) × (d.tables ≡ turned at now id s t) in
      let Row : Unit {0} → StartupDb → Type 0 = λ _ d. d.tables ≡ with_closed at now id t in
      let told : StartupTables = with_event at id s (with_closed at now id t) in
      let Told : Unit {0} → StartupDb → Type 0 = λ _ d. d.tables ≡ told in
      let Found : Option ℕ → StartupDb → Type 0 =
        λ o d. (o ≡ max_seq_end id t.chunks) × (d.tables ≡ told) in
      let Marked : Unit {0} → StartupDb → Type 0 = λ _ d. d.tables ≡ turned at now id s t in
      Yields-then P Row _ _ db (statement-Yields Row _ db refl) λ _ a ha.
        Yields-then P Told _ _ a (statement-Yields Told _ a (ap (with_event at id s) ha)) λ _ b hb.
          Yields-then P Found _ _ b
            (statement-Yields Found _ b (ap (λ u. max_seq_end id u.chunks) hb, hb))
            λ o c (found, hc).
              Yields-then P Marked _ _ c
                (subst
                  (λ x. Yields (λ _ d. d.tables ≡ with_marker id x told) (closing_marker id o c))
                  found (closing_marker-Yields id o told c hc))
                λ _ d hd. (refl, hd)

  turned-then :
      (id : ℕ) (s : TerminalSessionStatus) (cs : List (ℕ × TerminalSessionStatus))
      (t v : StartupTables)
      → After at now cs (turned at now id s t) v
      → After at now ((id, s) ∷ cs) t v
  unfolding listed swept
  turned-then id s cs t v h =
      let (rows, told, same) =
        with_marker-same id (max_seq_end id t.chunks)
          (with_event at id s (with_closed at now id t)) in
      record {
        sessions =
            h.sessions
            ∙ ap (close_listed at now cs) rows
            ∙ close_listed_cons at now id s cs t.sessions;
        events =
            h.events
            ∙ ap (λ l. l ++ map (event_of at) cs) told
            ∙ append_assoc t.events (event_of at (id, s) ∷ []) (map (event_of at) cs);
        chunks = h.chunks ∙ same;
        whole = h.whole;
        markers = λ j n.
            h.markers j n
            ∙ ap₂ (λ b l. b || (listed j cs && is_max_seq_end n (max_seq_end j l)))
                (has_marker-with j n id (max_seq_end id t.chunks)
                  (with_event at id s (with_closed at now id t)))
                same
            ∙ one_more (has_marker j n t.markers) (j == id) (listed j cs)
                (is_max_seq_end n (max_seq_end id t.chunks))
                (is_max_seq_end n (max_seq_end j t.chunks))
                (λ e.
                  let same_id : id ≡ j = ground arith in
                  ap (λ k. is_max_seq_end n (max_seq_end k t.chunks)) same_id);
      }

  pub close_orphans-Yields :
      (cs : List (ℕ × TerminalSessionStatus)) (db : StartupDb)
      → Yields
          (λ done d. (done ≡ map reported cs) × After at now cs db.tables d.tables)
          (close_orphans at now cs db)
  unfolding close_orphans pure
  close_orphans-Yields [] db = (refl, After-none db.tables)
  close_orphans-Yields ((id, s) ∷ cs) db =
      let P : List ReconciledTerminalSession → StartupDb → Type 0 = λ done d.
        (done ≡ map reported ((id, s) ∷ cs)) × After at now ((id, s) ∷ cs) db.tables d.tables in
      Yields-then P (λ r d. (r ≡ reported (id, s)) × (d.tables ≡ turned at now id s db.tables)) _ _
        db (close_orphan-Yields id s db)
        λ r a (this, ha).
          Yields-then P (λ done d. (done ≡ map reported cs) × After at now cs a.tables d.tables) _ _
            a (close_orphans-Yields cs a)
            λ done b (later, hb). (
              ap₂ (λ x l. x ∷ l) this later,
              turned-then id s cs db.tables b.tables
                  (subst (λ t. After at now cs t b.tables) ha hb),
            )
