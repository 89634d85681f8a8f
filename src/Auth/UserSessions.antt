-- ===== src/Auth/UserSessions.antt =====
-- The statements of crates/relayterm-db/src/repositories/user_session.rs. The listing changes nothing
-- and is left out.
use relay_term.Prelude.{
  ℕ, Bool, not, ◌&&◌, ◌||◌, Option, none, some, List, if◌then◌else◌, ◌==◌, is_some, ℕ_discrete,
}
use relay_term.Prelude.Assoc.{get, insert, modify, map_values, count_if}
use relay_term.Prelude.Calls.{pure, fail, read, update, ◌>>=◌, ◌>>◌}
use relay_term.Auth.{Text, UserSession, RevokedReason, missing_row, statement}
use relay_term.Auth.Text.{same_text}
use relay_term.Auth.Tables.{Db, find_row, insert_unless, update_row}

abbrev pub new_row : ℕ → ℕ → ℕ → Text → ℕ → UserSession
new_row id at user_id token_hash expires_at = record {
  id = id;
  user_id = user_id;
  token_hash = token_hash;
  created_at = at;
  last_seen_at = at;
  expires_at = expires_at;
  revoked_at = none;
  revoked_reason = none;
}

unfoldable pub with_hash : Text → List (ℕ × UserSession) → Option UserSession
with_hash hash rows = find_row (λ r. same_text r.token_hash hash) rows

unfoldable pub create : ℕ → ℕ → ℕ → Text → ℕ → Db UserSession
create id at user_id token_hash expires_at =
    insert_unless
      (λ s.
        is_some (get ℕ_discrete id s.sessions)
        || is_some (with_hash token_hash s.sessions)
        || not (is_some (get ℕ_discrete user_id s.users)))
      (λ s. record s {
        sessions = insert ℕ_discrete id (new_row id at user_id token_hash expires_at) s.sessions;
      })
      (new_row id at user_id token_hash expires_at)

unfoldable pub get_by_token_hash : Text → Db (Option UserSession)
get_by_token_hash hash = statement (read (λ s. with_hash hash s.sessions))

unfoldable pub touch_last_seen : ℕ → ℕ → Db (Unit {0})
touch_last_seen id at =
    update_row (λ s. is_some (get ℕ_discrete id s.sessions))
      (λ s. record s {
        sessions = modify ℕ_discrete id (λ r. record r { last_seen_at = at }) s.sessions;
      })

-- `CASE WHEN revoked_at IS NULL`: the first time and reason stay.
unfoldable pub revoked_by : ℕ → Option RevokedReason → UserSession → UserSession
revoked_by at reason r =
    if is_some r.revoked_at then r else record r { revoked_at = some at; revoked_reason = reason }

unfoldable pub revoke : ℕ → ℕ → Option RevokedReason → Db (Unit {0})
revoke id at reason =
    update_row (λ s. is_some (get ℕ_discrete id s.sessions))
      (λ s. record s { sessions = modify ℕ_discrete id (revoked_by at reason) s.sessions })

-- The rows that one statement revokes, and their number.
unfoldable pub revoke_where : (UserSession → Bool) → ℕ → Option RevokedReason → Db ℕ
revoke_where which at reason = statement (do
  count ← read (λ s. count_if (λ r. which r && not (is_some r.revoked_at)) s.sessions)
  update (λ s. record s {
    sessions = map_values (λ r. if which r then revoked_by at reason r else r) s.sessions;
  })
  pure count)

unfoldable pub revoke_all_for_user : ℕ → ℕ → Option RevokedReason → Db ℕ
revoke_all_for_user user_id at reason = revoke_where (λ r. r.user_id == user_id) at reason

unfoldable pub revoke_all_except : ℕ → ℕ → ℕ → Option RevokedReason → Db ℕ
revoke_all_except user_id except_id at reason =
    revoke_where (λ r. r.user_id == user_id && not (r.id == except_id)) at reason

unfoldable pub owned_by : ℕ → Option UserSession → Option UserSession
owned_by user_id none = none
owned_by user_id (some r) = if r.user_id == user_id then some r else none

unfoldable pub revoke_owned : ℕ → ℕ → Option RevokedReason → Option UserSession → Db Bool
revoke_owned id at reason none = fail missing_row
revoke_owned id at reason (some r) = do
  update (λ s. record s { sessions = modify ℕ_discrete id (revoked_by at reason) s.sessions })
  pure (not (is_some r.revoked_at))

-- Whether this statement was the one that revoked the row.
unfoldable pub revoke_for_user : ℕ → ℕ → ℕ → Option RevokedReason → Db Bool
revoke_for_user user_id id at reason = statement (do
  old ← read (λ s. owned_by user_id (get ℕ_discrete id s.sessions))
  revoke_owned id at reason old)
