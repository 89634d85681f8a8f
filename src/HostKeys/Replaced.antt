-- ===== src/HostKeys/Replaced.antt =====
-- What the statements of a replacement see and leave,
-- crates/relayterm-db/src/repositories/known_host_entry.rs and crates/relayterm-ssh/src/preflight.rs.
use relay_term.Prelude.{
  ℕ, ◌≡◌, refl, sym, ap, ◌∙◌, Bool, Bool-cases, true, false, ◌&&◌, inl, inr, Option, none, some,
  List, [], ◌∷◌, ◌++◌, map, ◌==◌, is_some, keep_if, arith,
}
use mathlib.Core.Bool.{true≢false}
use relay_term.Prelude.Calls.{Yields, Yields-then, pure, fail, read, update, after, ◌>>=◌}
use relay_term.HostKeys.{
  KnownHostRevocationReason, KnownHostEntry, CapturedHostKey, find_entry, any_entry, is_active,
  same_key,
}
use relay_term.HostKeys.Pins.{
  PinAudit, host_key_revoked, host_key_accepted, Tables, Db, Pin, statement, after_statement,
  next_fault, pinned,
}
use relay_term.HostKeys.Replace.{
  ReplaceActivePin, ReplacedKnownHostEntries, trusted_entry, revoke_entry, revoke_if_old,
  is_active_pin, expect_active, expect_absent, insert_trusted, replace_old,
}

-- The entries of one host.
abbrev pub of_host : ℕ → List KnownHostEntry → List KnownHostEntry
of_host host_id es = keep_if (λ e. e.host_id == host_id) es

-- The new key, as a probe of the server captures it.
abbrev pub captured : ReplaceActivePin → CapturedHostKey
captured input = record {
  key_type = input.new_key_type;
  fingerprint_sha256 = input.new_fingerprint_sha256;
  public_key = input.new_public_key;
}

abbrev pub matches : ReplaceActivePin → KnownHostEntry → Bool
matches input e = is_active e && same_key (captured input) e

module _ (id now : ℕ) (input : ReplaceActivePin) (old_id : ℕ) where
  abbrev pub change : KnownHostEntry → KnownHostEntry
  change = revoke_if_old id now input old_id

  -- An entry with another fingerprint is no match, changed or not.
  no_match :
      (e : KnownHostEntry)
      → pinned input.host_id input.new_fingerprint_sha256 e ≡ false
      → (change e).host_id == input.host_id ≡ true
      → matches input (change e) ≡ false
  unfolding is_active same_key revoke_entry
  no_match e h own = elim (Bool-cases (e.id == old_id)) [
    | inl t ↦ rw t refl
    | inr f ↦ rw f (ground (arith, h, (rw f at own)))
  ]

  pub only_new :
      (es : List KnownHostEntry)
      → (id == old_id) ≡ false
      → find_entry (pinned input.host_id input.new_fingerprint_sha256) es ≡ none
      → find_entry
          (matches input)
          (of_host input.host_id (map change (es ++ trusted_entry id now input ∷ [])))
        ≡ some (trusted_entry id now input)
  unfolding is_active same_key
  only_new [] fresh h = rw fresh (ground arith)
  only_new (e ∷ es) fresh h =
      elim (Bool-cases (pinned input.host_id input.new_fingerprint_sha256 e)) [
        | inl t ↦ absurd (true≢false (ap is_some (rw t at h)))
        | inr f ↦ elim (Bool-cases ((change e).host_id == input.host_id)) [
          | inl own ↦ rw (own, no_match e f own) (only_new es fresh (rw f at h))
          | inr other ↦ rw other (only_new es fresh (rw f at h))
        ]
      ]

pub statement-Yields :
    {A : Type 0} (P : A → Db → Type 0) (c : Pin A) (db : Db)
    → Yields P (c (after_statement db))
    → Yields P (statement c db)
unfolding statement
statement-Yields P c db h = elim (Bool-cases (next_fault db.faults)) [
  | inl e ↦ rw (statement, e) tt
  | inr e ↦ rw (statement, e) h
]

abbrev pub id_of : Option KnownHostEntry → ℕ
id_of none = 0
id_of (some e) = e.id

-- An entry that a search finds has an id that stands in the table.
pub found_other :
    (p : KnownHostEntry → Bool) (id : ℕ) (es : List KnownHostEntry) (old : KnownHostEntry)
    → find_entry p es ≡ some old
    → any_entry (λ e. e.id == id) es ≡ false
    → (id == old.id) ≡ false
found_other p id [] old found none_there = absurd (true≢false (sym (ap is_some found)))
found_other p id (e ∷ es) old found none_there = elim (Bool-cases (e.id == id)) [
  | inl t ↦ absurd (true≢false (rw t at none_there))
  | inr f ↦ elim (Bool-cases (p e)) [
    | inl t ↦ let same : e.id ≡ old.id = ap id_of (rw t at found) in ground (arith, f, same)
    | inr g ↦ found_other p id es old (rw g at found) (rw f at none_there)
  ]
]

-- An audit event of the replacement: which entry, and by which other.
abbrev pub event_of :
    (ℕ → ℕ → ℕ → ℕ → ℕ → ℕ → ℕ → KnownHostRevocationReason → PinAudit)
    → ℕ
    → ℕ
    → ReplaceActivePin
    → PinAudit
event_of kind entry other input =
    kind input.revoked_by input.host_id entry other input.expected_old_fingerprint
      input.new_fingerprint_sha256 input.new_key_type input.reason_code

-- The newest first.
abbrev pub both_events : ℕ → ReplaceActivePin → ℕ → List PinAudit
both_events id input old_id =
    event_of host_key_accepted id old_id input ∷ event_of host_key_revoked old_id id input ∷ []

module _ (id now : ℕ) (input : ReplaceActivePin) (t : Tables) where
  abbrev pub Reads : {A : Type 0} → (A → Type 0) → A → Db → Type 0
  Reads P a db = (db.tables ≡ t) × P a

  pub active_found :
      (o : Option KnownHostEntry) (db : Db)
      → Reads (λ o. o ≡ find_entry (is_active_pin input) t.entries) o db
      → Yields
          (Reads (λ e. find_entry (is_active_pin input) t.entries ≡ some e))
          (expect_active o db)
  unfolding expect_active pure fail
  active_found none db h = tt
  active_found (some e) db (same, h) = (same, sym h)

  pub absent_found :
      (o : Option KnownHostEntry) (db : Db)
      → Reads
          (λ o. o ≡ find_entry (pinned input.host_id input.new_fingerprint_sha256) t.entries)
          o
          db
      → Yields
          (Reads
            (λ _. find_entry (pinned input.host_id input.new_fingerprint_sha256) t.entries ≡ none))
          (expect_absent o db)
  unfolding expect_absent pure fail
  absent_found none db (same, h) = (same, sym h)
  absent_found (some e) db h = elim (Bool-cases (is_active e)) [ inl x ↦ rw x tt | inr x ↦ rw x tt ]

  pub inserted :
      (db : Db)
      → db.tables ≡ t
      → Yields
          (λ _ d.
            (any_entry (λ e. e.id == id) t.entries ≡ false)
            × (d.tables.entries ≡ t.entries ++ trusted_entry id now input ∷ [])
            × (d.tables.audits ≡ t.audits))
          (insert_trusted id now input db)
  unfolding insert_trusted ◌>>=◌ after read fail update
  inserted db same =
      let P : Unit {0} → Db → Type 0 = λ _ d.
        (any_entry (λ e. e.id == id) t.entries ≡ false)
        × (d.tables.entries ≡ t.entries ++ trusted_entry id now input ∷ [])
        × (d.tables.audits ≡ t.audits) in
      statement-Yields P _ db (elim (Bool-cases (any_entry (λ e. e.id == id) db.tables.entries)) [
        | inl e ↦ rw e tt
        | inr e ↦ rw e (
          ap (λ u. any_entry (λ x. x.id == id) u.entries) (sym same) ∙ e,
          ap (λ u. u.entries ++ trusted_entry id now input ∷ []) same,
          ap (λ u. u.audits) same,
        )
      ])

  -- The tables that a replacement of `old` leaves.
  pub replaced :
      (old : KnownHostEntry) (db : Db)
      → Yields
          (λ r d.
            (d.tables.entries ≡ map (revoke_if_old id now input old.id) db.tables.entries)
            × (d.tables.audits ≡ both_events id input old.id ++ db.tables.audits)
            × (r ≡ record {
              revoked_old = revoke_entry id now input old;
              trusted_new = trusted_entry id now input;
            }))
          (replace_old id now input old db)
  unfolding replace_old update pure
  replaced old db =
      let P : ReplacedKnownHostEntries → Db → Type 0 = λ r d.
        (d.tables.entries ≡ map (revoke_if_old id now input old.id) db.tables.entries)
        × (d.tables.audits ≡ both_events id input old.id ++ db.tables.audits)
        × (r ≡ record {
          revoked_old = revoke_entry id now input old;
          trusted_new = trusted_entry id now input;
        }) in
      let Q : List PinAudit → Unit {0} → Db → Type 0 = λ told _ d.
        (d.tables.entries ≡ map (revoke_if_old id now input old.id) db.tables.entries)
        × (d.tables.audits ≡ told ++ db.tables.audits) in
      let first : List PinAudit = event_of host_key_revoked old.id id input ∷ [] in
      let both : List PinAudit = both_events id input old.id in
      Yields-then P (Q []) _ _ db (statement-Yields (Q []) _ db (refl, refl)) λ _ a h.
        Yields-then P (Q first) _ _ a
          (statement-Yields (Q first) _ a
            (h.0, ap (λ l. event_of host_key_revoked old.id id input ∷ l) h.1))
          λ _ b h.
            Yields-then P (Q both) _ _ b
              (statement-Yields (Q both) _ b
                (h.0, ap (λ l. event_of host_key_accepted id old.id input ∷ l) h.1))
              λ _ c h.
                Yields-then P (Q both) _ _ c (statement-Yields (Q both) _ c h)
                  λ _ d h. (h.0, h.1, refl)
