-- ===== src/Auth/Guards.antt =====
-- What stands before a handler: the origin check of crates/relayterm-api/src/auth/csrf.rs, the cookie of
-- crates/relayterm-api/src/auth/cookie.rs and the user of crates/relayterm-api/src/auth/user.rs. A header is
-- absent, not readable as text, or a text.
use relay_term.Prelude.{
  ℕ, Bool, true, false, Option, none, some, List, [], ◌∷◌, if◌then◌else◌, ◌==◌,
}
use relay_term.Prelude.Calls.{Calls, pure, fail, read, map_err, ignore_error, ◌>>=◌, ◌>>◌}
use relay_term.Auth.{
  Text, User, Server, ApiError, unauthorized, csrf_origin_mismatch, api_of_repository,
  api_of_service, Crypto,
}
use relay_term.Auth.Text.{same_text, trim_start, trim_end}
use relay_term.Auth.Users.{get_user}
use relay_term.Auth.UserSessions.{touch_last_seen}
use relay_term.Auth.Service.{validate_session_token}

pub data HeaderValue : Type 0 where
  absent unreadable : HeaderValue
  readable : Text → HeaderValue

pub record Headers : Type 0 where
  pub origin : HeaderValue
  pub cookie : HeaderValue

abbrev pub Api : Type 0 → Type 0
Api A = Calls Server ApiError A

unfoldable pub any_same : Text → List Text → Bool
any_same t [] = false
any_same t (a ∷ rest) = let later = any_same t rest in if same_text a t then true else later

unfoldable pub check_origin : HeaderValue → List Text → Api (Unit {0})
check_origin absent allowed = fail csrf_origin_mismatch
check_origin unreadable allowed = fail csrf_origin_mismatch
check_origin (readable origin) allowed =
    if any_same origin allowed then pure tt else fail csrf_origin_mismatch

-- The extractor `CsrfGuard`.
unfoldable pub csrf_guard : Headers → Api (Unit {0})
csrf_guard h = read (λ s. s.routes.allowed_origins) >>= check_origin h.origin

-- `relayterm_session`.
abbrev pub session_cookie_name : Text
session_cookie_name =
    114 ∷ 101 ∷ 108 ∷ 97 ∷ 121 ∷ 116 ∷ 101 ∷ 114 ∷ 109 ∷ 95 ∷ 115 ∷ 101 ∷ 115 ∷ 115 ∷ 105 ∷ 111
    ∷ 110 ∷ []

-- `split(';')`: never empty, the first part and the others.
unfoldable pub split_semicolon : Text → Text × List Text
split_semicolon [] = ([], [])
split_semicolon (c ∷ cs) =
    let (first, rest) = split_semicolon cs in
    if c == 59 then ([], first ∷ rest) else (c ∷ first, rest)

-- `find('=')` and `split_at`: the name and what follows the sign.
unfoldable pub split_pair : Text → Option (Text × Text)
split_pair [] = none
split_pair (c ∷ cs) =
    let rest = split_pair cs in if c == 61 then some ([], cs) else with_name c rest
  where
    with_name : ℕ → Option (Text × Text) → Option (Text × Text)
    with_name c none = none
    with_name c (some (name, value)) = some (c ∷ name, value)

unfoldable pub non_empty : Text → Option Text
non_empty [] = none
non_empty (c ∷ cs) = some (c ∷ cs)

-- One turn of the loop over the pairs, which may end it.
unfoldable pub cookie_of : Option (Text × Text) → Option Text → Option Text
cookie_of none later = later
cookie_of (some (name, value)) later =
    if same_text name session_cookie_name then non_empty value else later

unfoldable pub find_cookie : List Text → Option Text
find_cookie [] = none
find_cookie (pair ∷ pairs) = cookie_of (split_pair (trim_end (trim_start pair))) (find_cookie pairs)

unfoldable pub extract_session_cookie : HeaderValue → Option Text
extract_session_cookie absent = none
extract_session_cookie unreadable = none
extract_session_cookie (readable raw) =
    let (first, rest) = split_semicolon raw in find_cookie (first ∷ rest)

pub record AuthenticatedUser : Type 0 where
  pub user : User
  pub session_id : ℕ

unfoldable pub token_or_unauthorized : Option Text → Api Text
token_or_unauthorized none = fail unauthorized
token_or_unauthorized (some token) = pure token

unfoldable pub user_or_unauthorized : Option User → Api User
user_or_unauthorized none = fail unauthorized
user_or_unauthorized (some user) = pure user

-- The extractor `AuthenticatedUser`.
unfoldable pub authenticate : Crypto → Headers → ℕ → Api AuthenticatedUser
authenticate lib h now = do
  token ← token_or_unauthorized (extract_session_cookie h.cookie)
  session ← map_err api_of_service (validate_session_token lib token now)
  found ← map_err api_of_repository (get_user session.user_id)
  user ← user_or_unauthorized found
  ignore_error (touch_last_seen session.id now)
  pure (record { user = user; session_id = session.id })
