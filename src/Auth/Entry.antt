-- ===== src/Auth/Entry.antt =====
-- What the steps of a login see and leave,
-- crates/relayterm-api/src/routes/v1/auth.rs and crates/relayterm-auth/src/service.rs.
use relay_term.Prelude.{
  ℕ, ◌+◌, ◌≡◌, refl, sym, ap, subst, Bool, Bool-cases, true, false, inl, inr, Option, none, some,
  List, [], ◌∷◌, is_some, ℕ_discrete, not, ◌||◌, arith,
}
use mathlib.Core.Bool.{true≢false}
use relay_term.Prelude.Assoc.{get, insert}
use relay_term.Prelude.Calls.{
  Yields, Yields-then, Yields-any, Yields-keep, Yields-map_err, Keeps-settle, Keeps-pure,
  Keeps-returned, Keeps-read, pure, fail, read, update, after, ◌>>=◌,
}
use relay_term.Auth.{Text, User, PasswordCredential, UserSession, Server, Crypto, Drawn}
use relay_term.Auth.Tables.{find_row, insert_unless}
use relay_term.Auth.Text.{same_text}
use relay_term.Auth.Users
use relay_term.Auth.Passwords.{get_for_user}
use relay_term.Auth.UserSessions
use relay_term.Auth.UserSessions.{new_row, with_hash}
use relay_term.Auth.Service.{
  check_credential, is_match, verify_password, CreatedSession, create_session,
}
use relay_term.Auth.Requests.{LoginRequest}
use relay_term.Auth.Login.{LoggedIn, session_ttl, build_session_cookie, verify_user, open_session}
use relay_term.Auth.Rules.{Rows, touch_last_login-Rows, append_audit-Rows}
use relay_term.Auth.Admitted.{statement-Yields}

-- A credential that the password matches.
abbrev pub Matches : Crypto → Text → Option PasswordCredential → Type 0
Matches lib password o =
    (c : PasswordCredential) × (o ≡ some c)
    × (lib.verify_password password c.password_hash ≡ some true)

-- The user of the request, with the credential that the password matches.
abbrev pub Verified : Crypto → LoginRequest → Server → User → Type 0
Verified lib req s u =
    (Users.by_email lib req.email s ≡ some u)
    × Matches lib req.password (get ℕ_discrete u.id s.passwords)

matched : (o : Option Bool) → is_match o ≡ true → o ≡ some true
unfolding is_match
matched none e = absurd (true≢false (sym e))
matched (some b) e = ap some e

check_credential-Matches :
    (lib : Crypto) (password : Text) (o : Option PasswordCredential) (s : Server)
    → Yields (λ _ _. Matches lib password o) (check_credential lib password o s)
unfolding check_credential pure fail
check_credential-Matches lib password none s = tt
check_credential-Matches lib password (some c) s =
    elim (Bool-cases (is_match (lib.verify_password password c.password_hash))) [
      | inl e ↦ rw e (c, refl, matched _ e)
      | inr e ↦ rw e tt
    ]

pub verify_password-Matches :
    (lib : Crypto) (user_id : ℕ) (password : Text) (s : Server)
    → Yields
        (λ _ _. Matches lib password (get ℕ_discrete user_id s.passwords))
        (verify_password lib user_id password s)
unfolding verify_password get_for_user read
verify_password-Matches lib user_id password s =
    let Q : Option PasswordCredential → Server → Type 0 =
      λ o _. o ≡ get ℕ_discrete user_id s.passwords in
    let P : Option PasswordCredential → Unit {0} → Server → Type 0 =
      λ o _ _. Matches lib password o in
    Yields-then (P (get ℕ_discrete user_id s.passwords)) Q _ (check_credential lib password) s
      (Yields-map_err Q _ _ s (statement-Yields Q _ s refl))
      λ o t e.
        subst (λ x. Yields (P x) (check_credential lib password o t)) e
          (check_credential-Matches lib password o t)

pub verify_user-Verified :
    (lib : Crypto) (req : LoginRequest) (s t : Server) (found : Option User)
    → found ≡ Users.by_email lib req.email s
    → t.passwords ≡ s.passwords
    → Yields (λ u _. Verified lib req s u) (verify_user lib req.password found t)
unfolding verify_user fail pure
verify_user-Verified lib req s t none e same = tt
verify_user-Verified lib req s t (some u) e same =
    let P : User → Server → Type 0 = λ u _. Verified lib req s u in
    Yields-then P (λ _ _. Matches lib req.password (get ℕ_discrete u.id s.passwords)) _ _ t
      (subst
        (λ rows.
          Yields (λ _ _. Matches lib req.password (get ℕ_discrete u.id rows))
            (verify_password lib u.id req.password t))
        same (verify_password-Matches lib u.id req.password t))
      λ _ _ m. (sym e, m)

-- The row of the session that a login opens.
abbrev pub opened_row : Crypto → Drawn → ℕ → UserSession
opened_row lib d user_id =
    new_row d.session_id d.now user_id (lib.digest d.token) (d.now + session_ttl)

same_text_refl : (a : Text) → same_text a a ≡ true
unfolding same_text
same_text_refl [] = refl
same_text_refl (x ∷ xs) = ground (arith, same_text_refl xs)

find_row-insert_new :
    (p : UserSession → Bool) (id : ℕ) (row : UserSession) (rows : List (ℕ × UserSession))
    → get ℕ_discrete id rows ≡ none
    → find_row p rows ≡ none
    → p row ≡ true
    → find_row p (insert ℕ_discrete id row rows) ≡ some row
unfolding find_row get insert
find_row-insert_new p id row [] fresh h e = rw e refl
find_row-insert_new p id row ((k, r) ∷ rows) fresh h e =
    ground (arith, find_row-insert_new p id row rows)

-- The cookie's token is found in the table, with the row of this login.
abbrev pub Entered : Crypto → Drawn → ℕ → List (ℕ × UserSession) → Type 0
Entered lib d user_id rows = with_hash (lib.digest d.token) rows ≡ some (opened_row lib d user_id)

refused-false :
    (a : Option UserSession) (b : Option UserSession) (c : Bool)
    → ((is_some a || is_some b) || c) ≡ false
    → (a ≡ none) × (b ≡ none)
refused-false none none c e = (refl, refl)
refused-false none (some r) c e = absurd (true≢false e)
refused-false (some r) b c e = absurd (true≢false e)

create-Entered :
    (lib : Crypto) (d : Drawn) (user_id : ℕ) (s : Server)
    → Yields
        (λ _ t. Entered lib d user_id t.sessions)
        (UserSessions.create d.session_id d.now user_id
          (lib.digest d.token)
          (d.now + session_ttl)
          s)
unfolding UserSessions.create insert_unless ◌>>=◌ after read fail update pure with_hash
create-Entered lib d user_id s =
    statement-Yields (λ _ t. Entered lib d user_id t.sessions) _ s
      (elim (Bool-cases (
        is_some (get ℕ_discrete d.session_id s.sessions)
        || is_some (with_hash (lib.digest d.token) s.sessions)
        || not (is_some (get ℕ_discrete user_id s.users)))) [
          | inl e ↦ rw e tt
          | inr e ↦
              let (fresh, unseen) = refused-false _ _ _ e in
              rw e (
                find_row-insert_new (λ r. same_text r.token_hash (lib.digest d.token)) d.session_id
                  (opened_row lib d user_id) s.sessions fresh unseen
                  (same_text_refl (lib.digest d.token)))
        ])

create_session-Entered :
    (lib : Crypto) (d : Drawn) (user_id : ℕ) (s : Server)
    → Yields
        (λ c t. (c.token ≡ d.token) × Entered lib d user_id t.sessions)
        (create_session lib user_id session_ttl d s)
unfolding create_session pure
create_session-Entered lib d user_id s =
    let K : UserSession → Server → Type 0 = λ _ t. Entered lib d user_id t.sessions in
    let P : CreatedSession → Server → Type 0 =
      λ c t. (c.token ≡ d.token) × Entered lib d user_id t.sessions in
    Yields-then P K _ _ s (Yields-map_err K _ _ s (create-Entered lib d user_id s))
      λ _ t e. (refl, e)

abbrev pub Opened : Crypto → Drawn → User → LoggedIn → Server → Type 0
Opened lib d u r t =
    (r.user ≡ u)
    × (r.cookie.value ≡ d.token)
    × (with_hash (lib.digest d.token) t.sessions ≡ some (opened_row lib d u.id))

pub open_session-Opened :
    (lib : Crypto) (key : Text) (d : Drawn) (u : User) (s : Server)
    → Yields (Opened lib d u) (open_session lib key d u s)
unfolding open_session build_session_cookie pure Rows
open_session-Opened lib key d u s =
    let P : LoggedIn → Server → Type 0 = Opened lib d u in
    let K : Server → Type 0 = λ t. Entered lib d u.id t.sessions in
    let Q : CreatedSession → Server → Type 0 = λ c t. (c.token ≡ d.token) × K t in
    Yields-any P _ _ s λ _ a.
      Yields-then P Q _ _ a (Yields-map_err Q _ _ a (create_session-Entered lib d u.id a))
        λ created b entered.
          Yields-keep P K _ _ b
            (Keeps-settle _ _ (touch_last_login-Rows (Entered lib d u.id) u.id d.now)
              λ _. Keeps-pure tt)
            entered.1
            λ _ c kept.
              Yields-keep P K _ _ c
                (Keeps-settle _ _ (append_audit-Rows (Entered lib d u.id) _)
                  λ r. Keeps-returned _ r)
                kept
                λ _ e left.
                  Yields-keep P K _ _ e (Keeps-read _) left λ cfg f last. (refl, entered.0, last)
