-- ===== src/HostKeys.antt =====
-- Pinned host keys: the types of crates/relayterm-core/src/known_host.rs, the statements of
-- crates/relayterm-db/src/repositories/known_host_entry.rs and the classification of
-- crates/relayterm-ssh/src/preflight.rs.
-- A statement fails when `faults` says so; a transaction that ends in an error leaves the tables as
-- they were. Key types and fingerprints are numbers that are only compared. New ids and the database's
-- clock are arguments; the probe that captures the key of a server is not modelled.
pub mod Pins
pub mod Replace
pub mod Replaced
pub mod Outcome
pub mod Rotated
mod Tests
use relay_term.Prelude.{
  ℕ, Bool, true, false, not, ◌&&◌, Option, none, some, List, [], ◌∷◌, if◌then◌else◌, ◌==◌, is_some,
}

pub data KnownHostRevocationReason : Type 0 where
  server_reinstalled host_key_rotated lab_target_recreated operator_other :
      KnownHostRevocationReason

pub record KnownHostEntry : Type 0 where
  pub id : ℕ
  pub host_id : ℕ
  pub key_type : ℕ
  pub fingerprint_sha256 : ℕ
  pub public_key : List ℕ
  pub first_seen_at : ℕ
  pub trusted_at : Option ℕ
  pub revoked_at : Option ℕ
  pub revoked_by : Option ℕ
  pub revoked_reason_code : Option KnownHostRevocationReason
  pub replaced_by_id : Option ℕ

pub record CapturedHostKey : Type 0 where
  pub key_type : ℕ
  pub fingerprint_sha256 : ℕ
  pub public_key : List ℕ

pub data HostKeyStatus : Type 0 where
  unknown trusted changed : HostKeyStatus

abbrev pub find_entry : (KnownHostEntry → Bool) → List KnownHostEntry → Option KnownHostEntry
find_entry p [] = none
find_entry p (e ∷ es) = let rest = find_entry p es in if p e then some e else rest

abbrev pub any_entry : (KnownHostEntry → Bool) → List KnownHostEntry → Bool
any_entry p es = is_some (find_entry p es)

unfoldable pub is_active : KnownHostEntry → Bool
is_active e = not (is_some e.revoked_at)

unfoldable pub same_key : CapturedHostKey → KnownHostEntry → Bool
same_key captured e =
    e.key_type == captured.key_type && e.fingerprint_sha256 == captured.fingerprint_sha256

unfoldable pub other_key : CapturedHostKey → KnownHostEntry → Bool
other_key captured e =
    e.key_type == captured.key_type && not (e.fingerprint_sha256 == captured.fingerprint_sha256)

unfoldable pub classify_matching : Bool → Option KnownHostEntry → HostKeyStatus
classify_matching differs (some e) = if is_some e.trusted_at then trusted else unknown
classify_matching differs none = if differs then changed else unknown

unfoldable pub classify_host_key : CapturedHostKey → List KnownHostEntry → HostKeyStatus
classify_host_key captured known =
    classify_matching (any_entry (λ e. is_active e && other_key captured e) known)
      (find_entry (λ e. is_active e && same_key captured e) known)
