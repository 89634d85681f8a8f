-- ===== src/HostKeys/Outcome.antt =====
-- What a replacement leaves, whichever statement fails,
-- crates/relayterm-db/src/repositories/known_host_entry.rs and crates/relayterm-ssh/src/preflight.rs.
use relay_term.Prelude.{ℕ, ◌≡◌, refl, ap, ◌∙◌, false, Option, none, some, [], ◌∷◌, ◌++◌, map, ◌==◌}
use relay_term.Prelude.Calls.{Result, ok, err, On-implies, Yields, Yields-then, pure, read, ◌>>=◌}
use relay_term.HostKeys.{
  KnownHostEntry, trusted, find_entry, any_entry, classify_matching, classify_host_key,
}
use relay_term.HostKeys.Pins.{Tables, Db, PinError, rolled_back, transaction, pinned}
use relay_term.HostKeys.Replace.{
  ReplaceActivePin, ReplacedKnownHostEntries, trusted_entry, revoke_entry, revoke_if_old,
  is_active_pin, insert_trusted, replace_old, replace_active_pin,
}
use relay_term.HostKeys.Replaced.{
  of_host, captured, both_events, only_new, statement-Yields, found_other, Reads, active_found,
  absent_found, inserted, replaced,
}

-- The result of a replacement and the tables that it leaves.
abbrev pub Replaces :
    ℕ → ℕ → ReplaceActivePin → Tables → Result PinError ReplacedKnownHostEntries → Tables → Type 0
Replaces id now input t (err e) after = after ≡ t
Replaces id now input t (ok r) after =
    (old : KnownHostEntry) × (find_entry (is_active_pin input) t.entries ≡ some old)
    × (find_entry (pinned input.host_id input.new_fingerprint_sha256) t.entries ≡ none)
    × (r ≡ record {
      revoked_old = revoke_entry id now input old;
      trusted_new = trusted_entry id now input;
    })
    × (after.entries
        ≡ map (revoke_if_old id now input old.id) (t.entries ++ trusted_entry id now input ∷ []))
    × (after.audits ≡ both_events id input old.id ++ t.audits)
    × (classify_host_key (captured input) (of_host input.host_id after.entries) ≡ trusted)

module _ {A : Type 0} (P : Result PinError A → Tables → Type 0) (t : Tables) where
  ended :
      (r : Result PinError A) (d : Db)
      → Yields (λ a d. P (ok a) d.tables) (r, d)
      → ((e : PinError) → P (err e) t)
      → P r (rolled_back t r d).tables
  unfolding rolled_back
  ended (ok a) d h bad = h
  ended (err e) d h bad = bad e

module _ (id now : ℕ) (input : ReplaceActivePin) (t : Tables) where
  abbrev Done : ReplacedKnownHostEntries → Db → Type 0
  Done r d = Replaces id now input t (ok r) d.tables

  abbrev Missing : Type 0
  Missing = find_entry (pinned input.host_id input.new_fingerprint_sha256) t.entries ≡ none

  trusted_after :
      (old : KnownHostEntry)
      → find_entry (is_active_pin input) t.entries ≡ some old
      → any_entry (λ e. e.id == id) t.entries ≡ false
      → Missing
      → classify_host_key (captured input) (
          of_host input.host_id (
            map (revoke_if_old id now input old.id) (t.entries ++ trusted_entry id now input ∷ [])))
        ≡ trusted
  unfolding classify_host_key classify_matching
  trusted_after old found fresh absent =
      let other : (id == old.id) ≡ false =
        found_other (is_active_pin input) id t.entries old found fresh in
      rw (only_new id now input old.id t.entries other absent) refl

  done :
      (old : KnownHostEntry)
      → find_entry (is_active_pin input) t.entries ≡ some old
      → Missing
      → (d : Db) → d.tables ≡ t
      → Yields Done ((insert_trusted id now input >>= λ _. replace_old id now input old) d)
  done old found absent d same =
      let Q : Unit {0} → Db → Type 0 = λ _ d.
        (any_entry (λ e. e.id == id) t.entries ≡ false)
        × (d.tables.entries ≡ t.entries ++ trusted_entry id now input ∷ [])
        × (d.tables.audits ≡ t.audits) in
      Yields-then Done Q _ _ d (inserted id now input t d same) λ _ a (fresh, rows, audits).
        On-implies _ _ (replace_old id now input old a).0
          (λ r (changed, told, result).
            let all : _ = changed ∙ ap (map (revoke_if_old id now input old.id)) rows in
            (
              old,
              found,
              absent,
              result,
              all,
              told ∙ ap (λ l. both_events id input old.id ++ l) audits,
              ap (λ es. classify_host_key (captured input) (of_host input.host_id es)) all
                  ∙ trusted_after old found fresh absent,
            ))
          (replaced id now input t old a)

-- The outcome in the words of the statements.
pub replace_active_pin-Replaces :
    (id now : ℕ) (input : ReplaceActivePin) (db : Db)
    → Replaces id now input db.tables
        (replace_active_pin id now input db).0
        (replace_active_pin id now input db).1.tables
unfolding replace_active_pin transaction read pure
replace_active_pin-Replaces id now input db =
    let t : Tables = db.tables in
    let P : ReplacedKnownHostEntries → Db → Type 0 = Done id now input t in
    let Same : Unit {0} → Db → Type 0 = λ _ d. d.tables ≡ t in
    let Active : KnownHostEntry → Db → Type 0 =
      Reads id now input t (λ e. find_entry (is_active_pin input) t.entries ≡ some e) in
    ended (Replaces id now input t) t _ _
      (Yields-then P Same _ _ db (statement-Yields Same _ db refl) λ _ a sa.
        Yields-then P Active _ _ a
          (Yields-then Active
            (Reads id now input t λ o. o ≡ find_entry (is_active_pin input) t.entries) _ _ a
            (statement-Yields
              (Reads id now input t λ o. o ≡ find_entry (is_active_pin input) t.entries) _ a
              (sa, ap (λ u. find_entry (is_active_pin input) u.entries) sa))
            (active_found id now input t))
          λ old b (sb, found).
            let Found : Option KnownHostEntry → Db → Type 0 =
              Reads id now input t
                λ o. o ≡ find_entry (pinned input.host_id input.new_fingerprint_sha256) t.entries in
            Yields-then P Found _ _ b
              (statement-Yields Found _ b (
                sb,
                ap (λ u. find_entry (pinned input.host_id input.new_fingerprint_sha256) u.entries)
                    sb,
              ))
              λ o c look.
                let Absent : Unit {0} → Db → Type 0 =
                  Reads id now input t (λ _. Missing id now input t) in
                Yields-then P Absent _ _ c (absent_found id now input t o c look)
                  λ _ d (sd, absent). done id now input t old found absent d sd)
      (λ e. refl)
