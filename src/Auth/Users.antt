-- ===== src/Auth/Users.antt =====
-- The statements of crates/relayterm-db/src/repositories/user.rs. The database's own clock is an
-- argument.
use relay_term.Prelude.{ℕ, ◌||◌, Option, none, some, is_some, ℕ_discrete}
use relay_term.Prelude.Assoc.{get, insert, modify}
use relay_term.Prelude.Calls.{read}
use relay_term.Auth.{Text, User, Server, Crypto, statement}
use relay_term.Auth.Text.{same_text}
use relay_term.Auth.Tables.{Db, find_row, insert_unless, update_row}

abbrev pub new_user : ℕ → ℕ → Text → Text → User
new_user id at email display_name = record {
  id = id;
  email = email;
  display_name = display_name;
  created_at = at;
  last_login_at = none;
}

unfoldable pub by_email : Crypto → Text → Server → Option User
by_email crypto email s =
    find_row (λ u. same_text (crypto.lower u.email) (crypto.lower email)) s.users

unfoldable pub create : Crypto → ℕ → ℕ → Text → Text → Db User
create crypto id at email display_name =
    insert_unless (λ s. is_some (get ℕ_discrete id s.users) || is_some (by_email crypto email s))
      (λ s. record s { users = insert ℕ_discrete id (new_user id at email display_name) s.users })
      (new_user id at email display_name)

unfoldable pub get_user : ℕ → Db (Option User)
get_user id = statement (read (λ s. get ℕ_discrete id s.users))

unfoldable pub get_by_email : Crypto → Text → Db (Option User)
get_by_email crypto email = statement (read (by_email crypto email))

unfoldable pub touch_last_login : ℕ → ℕ → Db (Unit {0})
touch_last_login id at =
    update_row (λ s. is_some (get ℕ_discrete id s.users))
      (λ s. record s {
        users = modify ℕ_discrete id (λ u. record u { last_login_at = some at }) s.users;
      })
