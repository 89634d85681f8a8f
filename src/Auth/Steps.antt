-- ===== src/Auth/Steps.antt =====
-- What the steps of a change of the password leave, crates/relayterm-auth/src/service.rs and
-- crates/relayterm-api/src/auth/user.rs.
use relay_term.Prelude.{
  ℕ, ◌≡◌, ◌∙◌, refl, sym, subst, Bool, Bool-cases, true, not, ◌&&◌, inl, inr, Option, none, some,
  List, [], ◌∷◌, if◌then◌else◌, is_some, ◌==◌, ℕ_discrete,
}
use mathlib.Core.Bool.{true≢false}
use relay_term.Prelude.Assoc.{get, map_values, Values, get-insert_self}
use relay_term.Prelude.Calls.{
  Yields, Yields-then, Yields-map_err, Keeps, keeps_rules, Keeps-update, pure, fail, read, update,
  after, ◌>>=◌,
}
use relay_term.Auth.{
  Text, PasswordCredential, UserSession, Server, RevokedReason, Crypto, Drawn, statement,
  after_statement, next_fault,
}
use relay_term.Auth.Tables.{Db, insert_unless, update_row}
use relay_term.Auth.Users.{get_user}
use relay_term.Auth.Passwords.{upserted, upsert_for_user}
use relay_term.Auth.UserSessions.{
  revoked_by, revoke_where, revoke_all_except, get_by_token_hash, touch_last_seen,
}
use relay_term.Auth.Service.{
  hashed, set_password, validate_session_token, revoke_all_sessions_except, is_revoked,
}
use relay_term.Auth.Guards.{Headers, authenticate}
use relay_term.Auth.Rules.Checks.{
  check_session-Keeps, token_or_unauthorized-Keeps, user_or_unauthorized-Keeps,
}
use relay_term.Auth.Admitted.{statement-Yields}

-- A session of the user other than the current one is revoked.
abbrev pub OnlyCurrent : ℕ → ℕ → UserSession → Type 0
OnlyCurrent user_id current r =
    (r.user_id == user_id && not (r.id == current)) ≡ true → is_revoked r ≡ true

revoked_by-revoked :
    (at : ℕ) (reason : Option RevokedReason) (r : UserSession)
    → is_revoked (revoked_by at reason r) ≡ true
unfolding revoked_by is_revoked
revoked_by-revoked at reason r = elim (Bool-cases (is_some r.revoked_at)) [
  | inl e ↦ rw e e
  | inr e ↦ rw e refl
]

module _ (user_id current at : ℕ) (reason : Option RevokedReason) where
  abbrev other : UserSession → Bool
  other r = r.user_id == user_id && not (r.id == current)

  revoked_if :
      (r : UserSession)
      → OnlyCurrent user_id current (if other r then revoked_by at reason r else r)
  revoked_if r = elim (Bool-cases (other r)) [
    | inl e ↦ rw e (λ _. revoked_by-revoked at reason r)
    | inr e ↦ rw e (λ h. absurd (true≢false (sym h ∙ e)))
  ]

  all_revoked :
      (rows : List (ℕ × UserSession))
      → Values
          (OnlyCurrent user_id current)
          (map_values (λ r. if other r then revoked_by at reason r else r) rows)
  all_revoked [] = tt
  all_revoked ((k, r) ∷ rows) = (revoked_if r, all_revoked rows)

-- The user's credential has the hash of the password.
abbrev pub Stored : Crypto → ℕ → Text → Option PasswordCredential → Type 0
Stored lib salt password o =
    (c : PasswordCredential) × (o ≡ some c)
    × (lib.hash_password salt password ≡ some c.password_hash)

upserted_hash :
    (user_id : ℕ) (hash : Text) (at : ℕ) (o : Option PasswordCredential)
    → (upserted user_id hash at o).password_hash ≡ hash
unfolding upserted
upserted_hash user_id hash at none = refl
upserted_hash user_id hash at (some c) = refl

hashed-Yields : (o : Option Text) (s : Server) → Yields (λ hash _. o ≡ some hash) (hashed o s)
unfolding hashed pure fail
hashed-Yields none s = tt
hashed-Yields (some h) s = refl

upsert-Stored :
    (lib : Crypto) (user_id salt at : ℕ) (password hash : Text) (s : Server)
    → lib.hash_password salt password ≡ some hash
    → Yields
        (λ _ t. Stored lib salt password (get ℕ_discrete user_id t.passwords))
        (upsert_for_user user_id hash at s)
unfolding upsert_for_user insert_unless read update fail pure ◌>>=◌ after
upsert-Stored lib user_id salt at password hash s e =
    let P : Unit {0} → Server → Type 0 =
      λ _ t. Stored lib salt password (get ℕ_discrete user_id t.passwords) in
    let row : PasswordCredential = upserted user_id hash at (get ℕ_discrete user_id s.passwords) in
    statement-Yields P _ s (elim (Bool-cases (not (is_some (get ℕ_discrete user_id s.users)))) [
      | inl x ↦ rw x tt
      | inr x ↦ rw x (
        row,
        get-insert_self ℕ_discrete user_id row s.passwords,
        subst (λ h. lib.hash_password salt password ≡ some h)
            (sym (upserted_hash user_id hash at (get ℕ_discrete user_id s.passwords))) e,
      )
    ])

pub set_password-Stored :
    (lib : Crypto) (user_id : ℕ) (password : Text) (d : Drawn) (s : Server)
    → Yields
        (λ _ t. Stored lib d.salt password (get ℕ_discrete user_id t.passwords))
        (set_password lib user_id password d s)
unfolding set_password
set_password-Stored lib user_id password d s =
    let P : Unit {0} → Server → Type 0 =
      λ _ t. Stored lib d.salt password (get ℕ_discrete user_id t.passwords) in
    Yields-then P (λ hash _. lib.hash_password d.salt password ≡ some hash) _ _ s
      (hashed-Yields (lib.hash_password d.salt password) s)
      λ hash t e. Yields-map_err P _ _ t (upsert-Stored lib user_id d.salt d.now password hash t e)

pub revoke_all_except-Values :
    (user_id current at : ℕ) (reason : Option RevokedReason) (ps : List (ℕ × PasswordCredential))
    (s : Server)
    → s.passwords ≡ ps
    → Yields
        (λ _ t. Values (OnlyCurrent user_id current) t.sessions × (t.passwords ≡ ps))
        (revoke_all_sessions_except user_id current at reason s)
unfolding revoke_all_sessions_except revoke_all_except revoke_where read update pure ◌>>=◌ after
revoke_all_except-Values user_id current at reason ps s same =
    let P : ℕ → Server → Type 0 =
      λ _ t. Values (OnlyCurrent user_id current) t.sessions × (t.passwords ≡ ps) in
    Yields-map_err P _ _ s
      (statement-Yields P _ s (all_revoked user_id current at reason s.sessions, same))

-- The extractor leaves the passwords alone.
module _ (ps : List (ℕ × PasswordCredential)) where
  unfoldable pub Passwords : Server → Type 0
  Passwords s = s.passwords ≡ ps

  statement-Passwords : {A : Type 0} (c : Db A) → Keeps Passwords c → Keeps Passwords (statement c)
  unfolding statement Passwords
  statement-Passwords c k = record {
    at = λ s h. elim (Bool-cases (next_fault s.faults)) [
      | inl e ↦ rw (statement, e) h
      | inr e ↦ rw (statement, e) (k.at (after_statement s) h)
    ];
  }

  update_other-Passwords :
      {E : Type 0} (f : Server → Server)
      → ((s : Server) → (f s).passwords ≡ s.passwords)
      → Keeps Passwords (update {E = E} f)
  unfolding Passwords
  update_other-Passwords f same = Keeps-update f (λ s h. same s ∙ h)

  update_row-Passwords :
      (present : Server → Bool) (f : Server → Server)
      → ((s : Server) → (f s).passwords ≡ s.passwords)
      → Keeps Passwords (update_row present f)
  unfolding update_row
  update_row-Passwords present f same =
      search (keeps_rules, statement-Passwords, update_other-Passwords f same)

  touch_last_seen-Passwords : (id at : ℕ) → Keeps Passwords (touch_last_seen id at)
  unfolding touch_last_seen
  touch_last_seen-Passwords id at = update_row-Passwords _ _ (λ s. refl)

  pub authenticate-Passwords :
      (lib : Crypto) (h : Headers) (now : ℕ) → Keeps Passwords (authenticate lib h now)
  unfolding authenticate validate_session_token get_by_token_hash get_user
  authenticate-Passwords lib h now =
      search
        (
          keeps_rules, statement-Passwords, touch_last_seen-Passwords, check_session-Keeps,
          token_or_unauthorized-Keeps, user_or_unauthorized-Keeps,
        )
        depth 12
