-- ===== src/Auth/Passwords.antt =====
-- The statements of crates/relayterm-db/src/repositories/password_credential.rs.
use relay_term.Prelude.{ℕ, Bool, not, Option, none, some, ◌==◌, is_some, ℕ_discrete, length}
use relay_term.Prelude.Assoc.{get, insert}
use relay_term.Prelude.Calls.{read}
use relay_term.Auth.{Text, PasswordCredential, statement}
use relay_term.Auth.Tables.{Db, insert_unless}

abbrev pub new_credential : ℕ → Text → ℕ → PasswordCredential
new_credential user_id hash at = record {
  user_id = user_id;
  password_hash = hash;
  password_changed_at = at;
  created_at = at;
  updated_at = at;
}

-- `ON CONFLICT (user_id) DO UPDATE`.
unfoldable pub upserted : ℕ → Text → ℕ → Option PasswordCredential → PasswordCredential
upserted user_id hash at none = new_credential user_id hash at
upserted user_id hash at (some c) = record c {
  password_hash = hash;
  password_changed_at = at;
  updated_at = at;
}

unfoldable pub upsert_for_user : ℕ → Text → ℕ → Db (Unit {0})
upsert_for_user user_id hash at =
    insert_unless (λ s. not (is_some (get ℕ_discrete user_id s.users)))
      (λ s. record s {
        passwords =
            insert ℕ_discrete user_id
              (upserted user_id hash at (get ℕ_discrete user_id s.passwords)) s.passwords;
      })
      tt

unfoldable pub get_for_user : ℕ → Db (Option PasswordCredential)
get_for_user user_id = statement (read (λ s. get ℕ_discrete user_id s.passwords))

unfoldable pub any_exists : Db Bool
any_exists = statement (read (λ s. not (length s.passwords == 0)))
