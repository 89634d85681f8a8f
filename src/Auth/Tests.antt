-- ===== src/Auth/Tests.antt =====
-- A server with one user and one revoked session, crates/relayterm-api/src/routes/v1/auth.rs.
use relay_term.Prelude.{
  ℕ, ◌≡◌, ◌≢◌, ◌↔◌, refl, sym, true, none, some, List, [], ◌∷◌, ◌++◌, ℕ_discrete,
}
use relay_term.Prelude.Assoc.{get, get-nil, get-cons_self, get-cons_ne}
use relay_term.Prelude.Calls.{ok, On, Yields}
use relay_term.Throttle.{v1_default}
use relay_term.Auth.{Text, Server, UserSession, Crypto, Drawn, user_revoke}
use relay_term.Auth.Text.{same_text, trim_start, trim_end, is_whitespace}
use relay_term.Auth.Guards.{
  Headers, readable, session_cookie_name, authenticate, split_semicolon, split_pair, non_empty,
  cookie_of, find_cookie, extract_session_cookie,
}
use relay_term.Auth.Requests.{LoginRequest, ChangePasswordRequest}
use relay_term.Auth.Login.{login, constant_time_eq}
use relay_term.Auth.Serve.{Request, serve_all}
use relay_term.Auth.Serve
use relay_term.Auth.Revoked.{OwnId, Keyed, Gone}
use relay_term.Auth.Admitted.{revoked_stays_out}
use relay_term.Auth.LogsIn.{LogsIn, login-LogsIn}
use relay_term.Auth.Account.{change_password}
use relay_term.Auth.Changed.{Changes, change_password-Changes}
use relay_term.Prelude.Calls.{◌>>=◌, after, read, pure, fail, returned, settle, update}
use relay_term.Auth.{statement, later_faults, next_fault, api_of_repository, api_of_service}
use relay_term.Auth.Guards.{
  csrf_guard, check_origin, any_same, token_or_unauthorized, user_or_unauthorized,
}
use relay_term.Auth.Passwords.{get_for_user, upsert_for_user, upserted}
use relay_term.Auth.Requests.{invalid_if, validate_password, validated_change}
use relay_term.Auth.Service.{
  check_credential, check_session, hashed, is_expired_at, is_match, is_revoked,
  revoke_all_sessions_except, set_password, validate_session_token, verify_password,
}
use relay_term.Auth.Tables.{append_audit, find_row, insert_unless, update_row}
use relay_term.Auth.Text.{byte_length, len_utf8}
use relay_term.Auth.UserSessions.{
  get_by_token_hash, revoke_all_except, revoke_where, revoked_by, touch_last_seen, with_hash,
}
use relay_term.Auth.Users.{get_user}
use relay_term.Prelude.Assoc.{count_if, insert, modify}
use relay_term.Auth.Constant.{constant_time_eq_iff}

abbrev plain : Crypto
plain = record {
  digest = λ token. token;
  hash_password = λ salt password. some (salt ∷ password);
  verify_password = λ password hash. some (same_text (7 ∷ password) hash);
  lower = λ t. t;
}

abbrev long_password : Text
long_password = 97 ∷ 98 ∷ 99 ∷ 100 ∷ 101 ∷ 102 ∷ 103 ∷ 104 ∷ 105 ∷ 106 ∷ 107 ∷ 108 ∷ []

abbrev an_email : Text
an_email = 97 ∷ 64 ∷ 98 ∷ []

abbrev an_origin : Text
an_origin = 104 ∷ 116 ∷ []

abbrev revoked_row : UserSession
revoked_row = record {
  id = 5;
  user_id = 1;
  token_hash = 120 ∷ [];
  created_at = 10;
  last_seen_at = 10;
  expires_at = 100;
  revoked_at = some 20;
  revoked_reason = some user_revoke;
}

abbrev one_user : Server
one_user = record {
  users =
      (
        1,
        record {
          id = 1;
          email = an_email;
          display_name = an_email;
          created_at = 1;
          last_login_at = none;
        },
      )
      ∷ [];
  passwords =
      (
        1,
        record {
          user_id = 1;
          password_hash = 7 ∷ long_password;
          password_changed_at = 1;
          created_at = 1;
          updated_at = 1;
        },
      )
      ∷ [];
  sessions = (5, revoked_row) ∷ [];
  audits = [];
  throttler = record { config = v1_default; map = [] };
  routes = record {
    cookie_secure = true;
    cookie_domain = none;
    allowed_origins = an_origin ∷ [];
    bootstrap_token = none;
  };
  faults = [];
}

-- `relayterm_session=x`.
abbrev with_token : Headers
with_token = record {
  origin = readable an_origin;
  cookie = readable (session_cookie_name ++ 61 ∷ 120 ∷ []);
}

abbrev fresh_values : Drawn
fresh_values = record { now = 30; user_id = 2; session_id = 6; token = 121 ∷ []; salt = 7 }

abbrev a_login : LoginRequest
a_login = record { email = an_email; password = long_password }

-- A login, and an attempt to revoke the session again.
abbrev two_requests : List Request
two_requests =
    Serve.login with_token a_login fresh_values ∷ Serve.revoke_session with_token 5 35 ∷ []

own_ids : (k : ℕ) → OwnId k (get ℕ_discrete k one_user.sessions)
own_ids k = elim (ℕ_discrete 5 k) [
  | yes p ↦ rw (sym p, get-cons_self ℕ_discrete 5 revoked_row []) refl
  | no n ↦
      rw (get-cons_ne ℕ_discrete 5 k revoked_row [] n, get-nil {V = UserSession} ℕ_discrete k) tt
]

one-Keyed : Keyed one_user.sessions
one-Keyed = ((get-nil ℕ_discrete 5, tt), own_ids)

revoked_stays_out_example :
    Gone 5 20 (some user_revoke) (serve_all plain two_requests one_user).sessions
    × On
        (authenticate plain with_token 40 (serve_all plain two_requests one_user)).0
        (λ u. u.session_id ≢ 5)
revoked_stays_out_example =
    revoked_stays_out plain two_requests one_user 5 20 40 (some user_revoke) with_token one-Keyed
      (revoked_row, get-cons_self ℕ_discrete 5 revoked_row [], refl, refl)

login-LogsIn_example :
    Yields
      (LogsIn plain a_login fresh_values one_user)
      (login plain with_token a_login fresh_values one_user)
login-LogsIn_example = login-LogsIn plain with_token a_login fresh_values one_user

-- The cookie is found behind another one.
second_cookie :
    extract_session_cookie
      (readable (97 ∷ 61 ∷ 98 ∷ 59 ∷ 32 ∷ session_cookie_name ++ 61 ∷ 120 ∷ []))
    ≡ some (120 ∷ [])
unfolding extract_session_cookie find_cookie cookie_of split_pair split_semicolon non_empty
    same_text trim_start trim_end is_whitespace
second_cookie = refl

abbrev our_token : List ℕ
our_token = 7 ∷ 100 ∷ []

abbrev their_token : List ℕ
their_token = 7 ∷ 101 ∷ []

constant_time_eq_iff_example :
    (constant_time_eq our_token their_token ≡ true) ↔ (our_token ≡ their_token)
constant_time_eq_iff_example = constant_time_eq_iff our_token their_token

abbrev a_change : ChangePasswordRequest
a_change = record { current_password = long_password; new_password = 1 ∷ long_password }

-- Two open sessions of the user.
abbrev two_sessions : Server
two_sessions = record one_user {
  sessions =
      (5, record revoked_row { revoked_at = none; revoked_reason = none })
      ∷ (
        8,
        record revoked_row {
          id = 8;
          token_hash = 122 ∷ [];
          revoked_at = none;
          revoked_reason = none;
        },
      )
      ∷ [];
}

change_password-Changes_example :
    Yields
      (λ _ t. Changes plain with_token a_change fresh_values two_sessions t)
      (change_password plain with_token a_change fresh_values two_sessions)
change_password-Changes_example =
    change_password-Changes plain with_token a_change fresh_values two_sessions

-- The other one is revoked.
one_revoked : (change_password plain with_token a_change fresh_values two_sessions).0 ≡ ok 1
unfolding change_password authenticate same_text extract_session_cookie find_cookie cookie_of
    split_pair trim_end trim_start split_semicolon ℕ_discrete non_empty is_whitespace get ◌>>=◌
    after read pure fail returned settle update statement later_faults next_fault api_of_repository
    api_of_service csrf_guard check_origin any_same token_or_unauthorized user_or_unauthorized
    get_for_user upsert_for_user upserted invalid_if validate_password validated_change
    check_credential check_session hashed is_expired_at is_match is_revoked
    revoke_all_sessions_except set_password validate_session_token verify_password append_audit
    find_row insert_unless update_row byte_length len_utf8 get_by_token_hash revoke_all_except
    revoke_where revoked_by touch_last_seen with_hash get_user count_if insert modify
one_revoked = refl
