-- ===== src/HostKeys/Pins.antt =====
-- The statements of crates/relayterm-db/src/repositories/known_host_entry.rs.
use relay_term.Prelude.{
  ℕ, Bool, false, ◌&&◌, Option, none, some, List, [], ◌∷◌, ◌++◌, map, if◌then◌else◌, ◌==◌, is_some,
  keep_if,
}
use relay_term.Prelude.Calls.{Calls, Result, ok, err, pure, fail, read, update, ◌>>=◌, ◌>>◌}
use relay_term.HostKeys.{
  KnownHostRevocationReason, KnownHostEntry, find_entry, any_entry, is_active,
}

-- The audit events of a replacement: by whom, on which host, which entry, by which other,
-- which fingerprints and key type, for which reason.
pub data PinAudit : Type 0 where
  host_key_revoked host_key_accepted :
      ℕ → ℕ → ℕ → ℕ → ℕ → ℕ → ℕ → KnownHostRevocationReason → PinAudit

pub record Tables : Type 0 where
  pub entries : List KnownHostEntry
  pub audits : List PinAudit

pub record Db : Type 0 where
  pub tables : Tables
  pub faults : List Bool

-- The conflicts carry the constraint's name.
pub data PinError : Type 0 where
  unique_violation revoked active_pin_mismatch new_fingerprint_revoked : PinError
  new_fingerprint_already_active database : PinError

abbrev pub Pin : Type 0 → Type 0
Pin A = Calls Db PinError A

unfoldable pub next_fault : List Bool → Bool
next_fault [] = false
next_fault (f ∷ fs) = f

unfoldable pub later_faults : List Bool → List Bool
later_faults [] = []
later_faults (f ∷ fs) = fs

abbrev pub after_statement : Db → Db
after_statement db = record db { faults = later_faults db.faults }

unfoldable pub statement : {A : Type 0} → Pin A → Pin A
statement c db =
    if next_fault db.faults then (err database, after_statement db) else c (after_statement db)

unfoldable pub rolled_back : {A : Type 0} → Tables → Result PinError A → Db → Db
rolled_back t (ok a) db = db
rolled_back t (err e) db = record db { tables = t }

unfoldable pub transaction : {A : Type 0} → Pin A → Pin A
transaction c db = ((c db).0, rolled_back db.tables (c db).0 (c db).1)

pub record CreateKnownHostEntry : Type 0 where
  pub host_id : ℕ
  pub key_type : ℕ
  pub fingerprint_sha256 : ℕ
  pub public_key : List ℕ

abbrev pub new_entry : ℕ → ℕ → Option ℕ → CreateKnownHostEntry → KnownHostEntry
new_entry id now trusted_at input = record {
  id = id;
  host_id = input.host_id;
  key_type = input.key_type;
  fingerprint_sha256 = input.fingerprint_sha256;
  public_key = input.public_key;
  first_seen_at = now;
  trusted_at = trusted_at;
  revoked_at = none;
  revoked_by = none;
  revoked_reason_code = none;
  replaced_by_id = none;
}

abbrev pub pinned : ℕ → ℕ → KnownHostEntry → Bool
pinned host_id fingerprint e = e.host_id == host_id && e.fingerprint_sha256 == fingerprint

abbrev pub add_entry : KnownHostEntry → Db → Db
add_entry e db = record db { tables = record db.tables { entries = db.tables.entries ++ e ∷ [] } }

abbrev pub change_entries : (KnownHostEntry → KnownHostEntry) → Db → Db
change_entries f db = record db { tables = record db.tables { entries = map f db.tables.entries } }

-- The insert, which the primary key may refuse.
unfoldable pub insert_entry : KnownHostEntry → Pin KnownHostEntry
insert_entry e = do
  there ← read (λ db. any_entry (λ x. x.id == e.id) db.tables.entries)
  if there then fail unique_violation else update (add_entry e) >> pure e

unfoldable pub create : ℕ → ℕ → CreateKnownHostEntry → Pin KnownHostEntry
create id now input = statement (do
  there ← read (λ db. any_entry (pinned input.host_id input.fingerprint_sha256) db.tables.entries)
  if there then fail unique_violation else insert_entry (new_entry id now none input))

-- In the order of the table, which is the order in which the entries were first seen.
unfoldable pub list_for_host : ℕ → Pin (List KnownHostEntry)
list_for_host host_id =
    statement (read (λ db. keep_if (λ e. e.host_id == host_id) db.tables.entries))

unfoldable pub find_by_fingerprint : ℕ → ℕ → Pin (Option KnownHostEntry)
find_by_fingerprint host_id fingerprint =
    statement (read (λ db. find_entry (pinned host_id fingerprint) db.tables.entries))

-- `COALESCE(trusted_at, now)`.
unfoldable pub trusted_by : ℕ → KnownHostEntry → KnownHostEntry
trusted_by now e = if is_some e.trusted_at then e else record e { trusted_at = some now }

-- `ON CONFLICT DO UPDATE ... WHERE revoked_at IS NULL`: a revoked entry gives no row.
unfoldable pub record_trusted_on :
    ℕ → ℕ → CreateKnownHostEntry → Option KnownHostEntry → Pin KnownHostEntry
record_trusted_on id now input none = insert_entry (new_entry id now (some now) input)
record_trusted_on id now input (some e) =
    if is_active e
    then (update (change_entries (λ x. if x.id == e.id then trusted_by now x else x))
        >> pure (trusted_by now e))
    else fail revoked

unfoldable pub record_trusted : ℕ → ℕ → CreateKnownHostEntry → Pin KnownHostEntry
record_trusted id now input = statement (
    read (λ db. find_entry (pinned input.host_id input.fingerprint_sha256) db.tables.entries)
    >>= record_trusted_on id now input)
