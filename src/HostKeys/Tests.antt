-- ===== src/HostKeys/Tests.antt =====
-- A host whose pinned key is replaced, crates/relayterm-db/src/repositories/known_host_entry.rs.
use relay_term.Prelude.{◌≡◌, refl, Bool, true, false, some, List, [], ◌∷◌}
use relay_term.Prelude.Calls.{err, pure, read, update, fail, after, ◌>>=◌}
use relay_term.HostKeys.{host_key_rotated, is_active}
use relay_term.HostKeys.Pins.{
  Db, CreateKnownHostEntry, new_entry, statement, next_fault, later_faults, transaction, database,
}
use relay_term.HostKeys.Replace.{
  ReplaceActivePin, expect_active, expect_absent, insert_trusted, replace_old, replace_active_pin,
}
use relay_term.HostKeys.Rotated.{Rotates, replace_active_pin-Rotates}

abbrev old_key : CreateKnownHostEntry
old_key = record { host_id = 3; key_type = 1; fingerprint_sha256 = 77; public_key = 9 ∷ [] }

abbrev one_pin : List Bool → Db
one_pin faults = record {
  tables = record { entries = new_entry 1 10 (some 11) old_key ∷ []; audits = [] };
  faults = faults;
}

abbrev rotation : ReplaceActivePin
rotation = record {
  host_id = 3;
  expected_old_fingerprint = 77;
  new_key_type = 1;
  new_fingerprint_sha256 = 88;
  new_public_key = 8 ∷ [];
  revoked_by = 5;
  reason_code = host_key_rotated;
}

replace_active_pin-Rotates_example :
    Rotates 2 20 rotation
      (one_pin []).tables
      (replace_active_pin 2 20 rotation (one_pin [])).0
      (replace_active_pin 2 20 rotation (one_pin [])).1.tables
replace_active_pin-Rotates_example = replace_active_pin-Rotates 2 20 rotation (one_pin [])

-- The fifth statement fails.
fifth_fails :
    (replace_active_pin 2 20 rotation (one_pin (false ∷ false ∷ false ∷ false ∷ true ∷ []))).0
    ≡ err database
unfolding replace_active_pin transaction statement next_fault later_faults after ◌>>=◌ pure read
    update fail expect_active expect_absent insert_trusted replace_old is_active
fifth_fails = refl
