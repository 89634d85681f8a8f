-- ===== src/HostKeys/Replace.antt =====
-- The replacement of a pin, `replace_active_pin` in
-- crates/relayterm-db/src/repositories/known_host_entry.rs.
use relay_term.Prelude.{ℕ, Bool, ◌&&◌, Option, none, some, List, ◌∷◌, if◌then◌else◌, ◌==◌, is_some}
use relay_term.Prelude.Calls.{pure, fail, read, update, ◌>>=◌, ◌>>◌}
use relay_term.HostKeys.{
  KnownHostRevocationReason, KnownHostEntry, find_entry, any_entry, is_active,
}
use relay_term.HostKeys.Pins.{
  PinAudit, host_key_revoked, host_key_accepted, Db, Pin, unique_violation, active_pin_mismatch,
  new_fingerprint_revoked, new_fingerprint_already_active, statement, transaction,
  CreateKnownHostEntry, new_entry, pinned, add_entry, change_entries,
}

pub record ReplaceActivePin : Type 0 where
  pub host_id : ℕ
  pub expected_old_fingerprint : ℕ
  pub new_key_type : ℕ
  pub new_fingerprint_sha256 : ℕ
  pub new_public_key : List ℕ
  pub revoked_by : ℕ
  pub reason_code : KnownHostRevocationReason

pub record ReplacedKnownHostEntries : Type 0 where
  pub revoked_old : KnownHostEntry
  pub trusted_new : KnownHostEntry

abbrev pub created : ReplaceActivePin → CreateKnownHostEntry
created input = record {
  host_id = input.host_id;
  key_type = input.new_key_type;
  fingerprint_sha256 = input.new_fingerprint_sha256;
  public_key = input.new_public_key;
}

abbrev pub trusted_entry : ℕ → ℕ → ReplaceActivePin → KnownHostEntry
trusted_entry id now input = new_entry id now (some now) (created input)

unfoldable pub revoke_entry : ℕ → ℕ → ReplaceActivePin → KnownHostEntry → KnownHostEntry
revoke_entry id now input e = record e {
  revoked_at = some now;
  revoked_by = some input.revoked_by;
  revoked_reason_code = some input.reason_code;
  replaced_by_id = some id;
}

-- `UPDATE ... WHERE id = old_id`.
abbrev pub revoke_if_old : ℕ → ℕ → ReplaceActivePin → ℕ → KnownHostEntry → KnownHostEntry
revoke_if_old id now input old_id e = if e.id == old_id then revoke_entry id now input e else e

abbrev pub is_active_pin : ReplaceActivePin → KnownHostEntry → Bool
is_active_pin input e =
    pinned input.host_id input.expected_old_fingerprint e && (is_active e && is_some e.trusted_at)

unfoldable pub expect_active : Option KnownHostEntry → Pin KnownHostEntry
expect_active none = fail active_pin_mismatch
expect_active (some e) = pure e

unfoldable pub expect_absent : Option KnownHostEntry → Pin (Unit {0})
expect_absent none = pure tt
expect_absent (some e) =
    if is_active e then fail new_fingerprint_already_active else fail new_fingerprint_revoked

-- The insert, which the primary key may refuse.
unfoldable pub insert_trusted : ℕ → ℕ → ReplaceActivePin → Pin (Unit {0})
insert_trusted id now input = statement (do
  there ← read (λ db. any_entry (λ e. e.id == id) db.tables.entries)
  if there then fail unique_violation else update (add_entry (trusted_entry id now input)))

abbrev pub audit_with :
    (ℕ → ℕ → ℕ → ℕ → ℕ → ℕ → ℕ → KnownHostRevocationReason → PinAudit)
    → ℕ
    → ℕ
    → ReplaceActivePin
    → Db
    → Db
audit_with kind entry other input db = record db {
  tables = record db.tables {
    audits =
        kind input.revoked_by input.host_id entry other input.expected_old_fingerprint
          input.new_fingerprint_sha256 input.new_key_type input.reason_code
        ∷ db.tables.audits;
  };
}

unfoldable pub replace_old :
    ℕ → ℕ → ReplaceActivePin → KnownHostEntry → Pin ReplacedKnownHostEntries
replace_old id now input old = do
  statement (update (change_entries (revoke_if_old id now input old.id)))
  statement (update (audit_with host_key_revoked old.id id input))
  statement (update (audit_with host_key_accepted id old.id input))
  statement (pure tt)
  pure (record {
    revoked_old = revoke_entry id now input old;
    trusted_new = trusted_entry id now input;
  })

unfoldable pub replace_active_pin : ℕ → ℕ → ReplaceActivePin → Pin ReplacedKnownHostEntries
replace_active_pin id now input = transaction (do
  statement (pure tt)
  old ←
      statement (read (λ db. find_entry (is_active_pin input) db.tables.entries)) >>= expect_active
  existing ← statement (
      read (λ db. find_entry (pinned input.host_id input.new_fingerprint_sha256) db.tables.entries))
  expect_absent existing
  insert_trusted id now input
  replace_old id now input old)
