-- ===== src/HostKeys/Rotated.antt =====
-- A replacement against the rows of the table, column by column,
-- crates/relayterm-db/src/repositories/known_host_entry.rs and crates/relayterm-ssh/src/preflight.rs.
use mathlib.Core.List.{Memᴰ}
use mathlib.Core.Bool.{true≢false}
use relay_term.Prelude.{
  ℕ, ◌≡◌, refl, sym, ap, ◌∙◌, Bool, Bool-cases, true, false, ◌&&◌, inl, inr, Option, none, some,
  List, [], ◌∷◌, ◌++◌, map, if◌then◌else◌, ◌==◌, is_some, All, arith,
}
use relay_term.Prelude.Calls.{Result, ok, err}
use relay_term.HostKeys.{KnownHostEntry, trusted, find_entry, is_active, classify_host_key}
use relay_term.HostKeys.Pins.{host_key_revoked, host_key_accepted, Tables, Db, PinError, pinned}
use relay_term.HostKeys.Replace.{
  ReplaceActivePin, ReplacedKnownHostEntries, revoke_entry, is_active_pin, replace_active_pin,
}
use relay_term.HostKeys.Replaced.{of_host, captured}
use relay_term.HostKeys.Outcome.{Replaces, replace_active_pin-Replaces}

-- The entry of the new key.
abbrev new_key_row : ℕ → ℕ → ReplaceActivePin → KnownHostEntry
new_key_row id now input = record {
  id = id;
  host_id = input.host_id;
  key_type = input.new_key_type;
  fingerprint_sha256 = input.new_fingerprint_sha256;
  public_key = input.new_public_key;
  first_seen_at = now;
  trusted_at = some now;
  revoked_at = none;
  revoked_by = none;
  revoked_reason_code = none;
  replaced_by_id = none;
}

-- An entry when it is revoked in favour of the new one.
abbrev revoked_row : ℕ → ℕ → ReplaceActivePin → KnownHostEntry → KnownHostEntry
revoked_row id now input e = record {
  id = e.id;
  host_id = e.host_id;
  key_type = e.key_type;
  fingerprint_sha256 = e.fingerprint_sha256;
  public_key = e.public_key;
  first_seen_at = e.first_seen_at;
  trusted_at = e.trusted_at;
  revoked_at = some now;
  revoked_by = some input.revoked_by;
  revoked_reason_code = some input.reason_code;
  replaced_by_id = some id;
}

-- The pin that a replacement may replace: trusted, not revoked, with the expected fingerprint.
pub record ExpectedPin (input : ReplaceActivePin) (es : List KnownHostEntry) (e : KnownHostEntry)
    : Type 0 where
  pub stored : Memᴰ e es
  pub of_the_host : e.host_id ≡ input.host_id
  pub expected : e.fingerprint_sha256 ≡ input.expected_old_fingerprint
  pub not_revoked : e.revoked_at ≡ none
  pub is_trusted : is_some e.trusted_at ≡ true

-- The tables that a replacement leaves, and its result.
abbrev pub Rotates :
    ℕ → ℕ → ReplaceActivePin → Tables → Result PinError ReplacedKnownHostEntries → Tables → Type 0
Rotates id now input t (err e) after = after ≡ t
Rotates id now input t (ok r) after =
    (old : KnownHostEntry) × ExpectedPin input t.entries old
    × All
        (λ e.
          ((e.host_id == input.host_id) && (e.fingerprint_sha256 == input.new_fingerprint_sha256))
          ≡ false)
        t.entries
    × (r ≡ record {
      revoked_old = revoked_row id now input old;
      trusted_new = new_key_row id now input;
    })
    × (after.entries ≡ (
        map (λ e. if e.id == old.id then revoked_row id now input e else e)
          (t.entries ++ new_key_row id now input ∷ [])))
    × (after.audits ≡ (
        host_key_accepted input.revoked_by input.host_id id old.id input.expected_old_fingerprint
          input.new_fingerprint_sha256 input.new_key_type input.reason_code
        ∷ host_key_revoked input.revoked_by input.host_id old.id id input.expected_old_fingerprint
            input.new_fingerprint_sha256 input.new_key_type input.reason_code
        ∷ t.audits))
    × (classify_host_key (captured input) (of_host input.host_id after.entries) ≡ trusted)

none_found :
    (p : KnownHostEntry → Bool) (es : List KnownHostEntry)
    → find_entry p es ≡ none
    → All (λ e. p e ≡ false) es
none_found p [] h = tt
none_found p (e ∷ es) h = elim (Bool-cases (p e)) [
  | inl x ↦ absurd (true≢false (ap is_some (rw x at h)))
  | inr x ↦ (x, none_found p es (rw x at h))
]

entry_or : KnownHostEntry → Option KnownHostEntry → KnownHostEntry
entry_or d none = d
entry_or d (some e) = e

found_there :
    (p : KnownHostEntry → Bool) (es : List KnownHostEntry) (old : KnownHostEntry)
    → find_entry p es ≡ some old
    → Memᴰ old es × (p old ≡ true)
unfolding entry_or
found_there p [] old h = absurd (true≢false (sym (ap is_some h)))
found_there p (e ∷ es) old h = elim (Bool-cases (p e)) [
  | inl x ↦
      let same : e ≡ old = ap (entry_or e) (rw x at h) in
      (Memᴰ.head (sym same), ap p (sym same) ∙ x)
  | inr x ↦ let (there, passes) = found_there p es old (rw x at h) in (Memᴰ.tail there, passes)
]

no_time : (o : Option ℕ) → is_some o ≡ false → o ≡ none
no_time none h = refl
no_time (some n) h = absurd (true≢false h)

found-ExpectedPin :
    (input : ReplaceActivePin) (es : List KnownHostEntry) (old : KnownHostEntry)
    → find_entry (is_active_pin input) es ≡ some old
    → ExpectedPin input es old
unfolding is_active
found-ExpectedPin input es old h =
    let (there, passes) = found_there (is_active_pin input) es old h in
    record {
      stored = there;
      of_the_host = ground arith;
      expected = ground arith;
      not_revoked = no_time old.revoked_at (ground arith);
      is_trusted = ground arith;
    }

Replaces-Rotates :
    (id now : ℕ) (input : ReplaceActivePin) (t after : Tables)
    (r : Result PinError ReplacedKnownHostEntries)
    → Replaces id now input t r after
    → Rotates id now input t r after
unfolding revoke_entry
Replaces-Rotates id now input t after (err e) h = h
Replaces-Rotates id now input t after (ok r) (old, found, absent, result, rows, told, classified) =
    (
      old,
      found-ExpectedPin input t.entries old found,
      none_found (pinned input.host_id input.new_fingerprint_sha256) t.entries absent,
      result,
      rows,
      told,
      classified,
    )

-- A replacement that fails leaves the tables as they were, whichever statement fails. One that returns
-- has found an entry of the host that is trusted, not revoked and has the expected fingerprint, and no entry
-- of the host with the new fingerprint. It adds the trusted entry of the new key, revokes the entries with
-- the id of the one found in favour of the new entry, changes no other entry, and adds two audit events, that
-- the old key was revoked and that the new one was accepted. The new key is then classified as trusted
-- among the entries of the host.
pub replace_active_pin-Rotates :
    (id now : ℕ) (input : ReplaceActivePin) (db : Db)
    → Rotates id now input db.tables
        (replace_active_pin id now input db).0
        (replace_active_pin id now input db).1.tables
replace_active_pin-Rotates id now input db =
    Replaces-Rotates id now input db.tables _ _ (replace_active_pin-Replaces id now input db)
