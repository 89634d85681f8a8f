-- ===== src/Auth/LogsIn.antt =====
-- What a login that succeeds has seen, and what its cookie is good for,
-- crates/relayterm-api/src/routes/v1/auth.rs and crates/relayterm-auth/src/service.rs.
use relay_term.Prelude.{
  ℕ, ◌+◌, ◌≡◌, refl, sym, ap, subst, Bool-cases, inl, inr, Option, [], if◌then◌else◌, leb,
}
use relay_term.Prelude.Calls.{
  ok, err, On-implies, Yields, Yields-then, Yields-any, Yields-keep, Yields-settle, Yields-map_err,
  pure, fail, read, settle, after, returned, ◌>>=◌,
}
use relay_term.Throttle.{ThrottleDecision, allowed, check}
use relay_term.Throttle
use relay_term.Auth.{
  Text, User, Server, Crypto, Drawn, AuthServiceError, statement, next_fault, later_faults,
  session_expired,
}
use relay_term.Auth.Text.{Text-discrete, normalize_login_identifier}
use relay_term.Auth.Users
use relay_term.Auth.UserSessions
use relay_term.Auth.UserSessions.{new_row, with_hash}
use relay_term.Auth.Service.{is_revoked, is_expired_at, check_session, validate_session_token}
use relay_term.Auth.Guards.{Headers}
use relay_term.Auth.Requests.{LoginRequest}
use relay_term.Auth.Login.{LoggedIn, session_ttl, open_session, after_verify, after_check, login}
use relay_term.Auth.Rules.Checks.{csrf_guard-Keeps, validated_login-Keeps}
use relay_term.Auth.Admitted.{statement-Yields}
use relay_term.Auth.Entry.{
  Verified, Entered, Opened, opened_row, verify_user-Verified, open_session-Opened,
}

-- A token with a row lets its user in until the row expires, when no statement fails.
validate-Entered :
    (lib : Crypto) (d : Drawn) (user_id later : ℕ) (t : Server)
    → Entered lib d user_id t.sessions
    → (validate_session_token lib d.token later (record t { faults = [] })).0 ≡ (
        if leb (d.now + session_ttl) later
        then err session_expired
        else ok (opened_row lib d user_id))
unfolding validate_session_token check_session UserSessions.get_by_token_hash statement next_fault
    later_faults read settle returned ◌>>=◌ after pure fail is_revoked is_expired_at
validate-Entered lib d user_id later t e =
    rw e (elim (Bool-cases (leb (d.now + session_ttl) later)) [
      | inl x ↦ rw x refl
      | inr x ↦ rw x refl
    ])

abbrev pub ValidUntilExpiry : Crypto → Drawn → Server → ℕ → User → Type 0
ValidUntilExpiry lib d t later u =
    (validate_session_token lib d.token later (record t { faults = [] })).0
    ≡ (if leb (d.now + session_ttl) later then err session_expired else ok (opened_row lib d u.id))

-- What a login that returns has seen in `s` and leaves in `t`.
abbrev pub LogsIn : Crypto → LoginRequest → Drawn → Server → LoggedIn → Server → Type 0
LogsIn lib req d s r t =
    (check Text-discrete s.throttler (normalize_login_identifier req.email) d.now ≡ allowed)
    × Verified lib req s r.user
    × (r.cookie.value ≡ d.token)
    × ((later : ℕ) → ValidUntilExpiry lib d t later r.user)

module _ (lib : Crypto) (req : LoginRequest) (d : Drawn) (s : Server) where
  after_verify-LogsIn :
      (key : Text) (t : Server) (u : User)
      → check Text-discrete s.throttler (normalize_login_identifier req.email) d.now ≡ allowed
      → Verified lib req s u
      → Yields (LogsIn lib req d s) (after_verify lib key d (ok u) t)
  unfolding after_verify
  after_verify-LogsIn key t u free known =
      let left : Server = (open_session lib key d u t).1 in
      On-implies (λ r. Opened lib d u r left) (λ r. LogsIn lib req d s r left)
        (open_session lib key d u t).0
        (λ r (same, token, entered). (
          free,
          subst (Verified lib req s) (sym same) known,
          token,
          λ later.
              subst (ValidUntilExpiry lib d left later) (sym same)
                (validate-Entered lib d u.id later left entered),
        ))
        (open_session-Opened lib key d u t)

  after_verify-fails :
      (key : Text) (t : Server) (e : AuthServiceError)
      → Yields (LogsIn lib req d s) (after_verify lib key d (err e) t)
  unfolding after_verify fail
  after_verify-fails key t e =
      let P : LoggedIn → Server → Type 0 = LogsIn lib req d s in
      Yields-any P _ _ t λ _ a. Yields-any P _ _ a λ _ b. tt

  found_by_email :
      (t : Server)
      → t ≡ s
      → Yields
          (λ found a. (found ≡ Users.by_email lib req.email s) × (a.passwords ≡ s.passwords))
          (Users.get_by_email lib req.email t)
  unfolding Users.get_by_email Users.by_email read
  found_by_email t same =
      statement-Yields
        (λ found a. (found ≡ Users.by_email lib req.email s) × (a.passwords ≡ s.passwords)) _ t
        (ap (Users.by_email lib req.email) same, ap (λ u. u.passwords) same)

  after_check-LogsIn :
      (key : Text) (decision : ThrottleDecision) (t : Server)
      → check Text-discrete s.throttler (normalize_login_identifier req.email) d.now ≡ decision
      → t ≡ s
      → Yields (LogsIn lib req d s) (after_check lib req key d decision t)
  unfolding after_check fail
  after_check-LogsIn key (Throttle.throttled w) t e same =
      Yields-any (LogsIn lib req d s) _ _ t λ _ a. tt
  after_check-LogsIn key allowed t e same =
      let P : LoggedIn → Server → Type 0 = LogsIn lib req d s in
      let Q : Option User → Server → Type 0 =
        λ found a. (found ≡ Users.by_email lib req.email s) × (a.passwords ≡ s.passwords) in
      Yields-then P Q _ _ t (Yields-map_err Q _ _ t (found_by_email t same)) λ found a (here, rows).
        Yields-settle P (λ u _. Verified lib req s u) _ (after_verify lib key d) a
          (verify_user-Verified lib req s a found here rows)
          (λ u b known. after_verify-LogsIn key b u e known) λ x b. after_verify-fails key b x

-- When a login returns, the throttler allowed it, the user of the email has a credential that the password
-- matches, and the cookie's token, in the server that the login leaves and with no failing statement,
-- validates as the new session of that user until 30 days after the login, and is expired from then on.
pub login-LogsIn :
    (lib : Crypto) (h : Headers) (req : LoginRequest) (d : Drawn) (s : Server)
    → Yields (LogsIn lib req d s) (login lib h req d s)
unfolding login read ◌>>=◌ after
login-LogsIn lib h req d s =
    let P : LoggedIn → Server → Type 0 = LogsIn lib req d s in
    let K : Server → Type 0 = λ t. t ≡ s in
    Yields-keep P K _ _ s (csrf_guard-Keeps K h) refl λ _ a same.
      Yields-keep P K _ _ a (validated_login-Keeps K req) same λ _ b still.
        after_check-LogsIn lib req d s (normalize_login_identifier req.email) _ b
          (ap (λ u. check Text-discrete u.throttler (normalize_login_identifier req.email) d.now)
            (sym still))
          still
