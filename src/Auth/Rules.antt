-- ===== src/Auth/Rules.antt =====
-- A property of the table of login sessions that the statements keep, every handler keeps,
-- crates/relayterm-db/src/repositories/user_session.rs and crates/relayterm-api/src/routes/v1/auth.rs.
pub mod Checks
pub mod Rows
pub mod Service
pub mod Login
pub mod Handlers
use relay_term.Prelude.{
  ℕ, ◌≡◌, refl, Bool, true, false, not, ◌&&◌, ◌||◌, Bool-cases, inl, inr, Option, none, some, List,
  if◌then◌else◌, is_some, ◌==◌, ℕ_discrete, subst, sym,
}
use relay_term.Prelude.Assoc.{get, insert, modify, map_values}
use relay_term.Prelude.Calls.{
  Calls, Keeps, keeps_rules, Keeps-update, Keeps-fail, Keeps-pure, Keeps-bind, pure, fail, read,
  update, after, settle, returned, ◌>>=◌,
}
use relay_term.Auth.{
  Text, UserSession, Server, RepositoryError, RevokedReason, AuditEvent, Crypto, statement,
  after_statement, next_fault, later_faults,
}
use relay_term.Auth.Tables.{Db, insert_unless, update_row, append_audit}
use relay_term.Auth.Users
use relay_term.Auth.Passwords
use relay_term.Auth.UserSessions
use relay_term.Auth.UserSessions.{new_row, revoked_by, revoke_where, revoke_owned, owned_by}

-- A change of a row that leaves the id and a revocation alone.
pub record Tame (f : UserSession → UserSession) : Type 0 where
  pub id_same : (r : UserSession) → (f r).id ≡ r.id
  pub revoked_same :
      (r : UserSession)
      → is_some r.revoked_at ≡ true
      → ((f r).revoked_at ≡ r.revoked_at) × ((f r).revoked_reason ≡ r.revoked_reason)

-- `Q` is kept by a new row and by tame changes.
pub record RowRule (Q : List (ℕ × UserSession) → Type 0) : Type 0 where
  pub add :
      (id at user_id : ℕ) (hash : Text) (expires_at : ℕ) (rows : List (ℕ × UserSession))
      → get ℕ_discrete id rows ≡ none
      → Q rows
      → Q (insert ℕ_discrete id (new_row id at user_id hash expires_at) rows)
  pub change :
      (id : ℕ) (f : UserSession → UserSession) (rows : List (ℕ × UserSession))
      → Tame f
      → Q rows
      → Q (modify ℕ_discrete id f rows)
  pub change_all :
      (f : UserSession → UserSession) (rows : List (ℕ × UserSession))
      → Tame f
      → Q rows
      → Q (map_values f rows)

pub revoked_by-Tame : (at : ℕ) (reason : Option RevokedReason) → Tame (revoked_by at reason)
unfolding revoked_by
revoked_by-Tame at reason = record {
  id_same = λ r. elim (Bool-cases (is_some r.revoked_at)) [ inl e ↦ rw e refl | inr e ↦ rw e refl ];
  revoked_same = λ r e. rw e (refl, refl);
}

pub revoked_if-Tame :
    (which : UserSession → Bool) (at : ℕ) (reason : Option RevokedReason)
    → Tame (λ r. if which r then revoked_by at reason r else r)
revoked_if-Tame which at reason = record {
  id_same = λ r. elim (Bool-cases (which r)) [
    | inl e ↦ rw e ((revoked_by-Tame at reason).id_same r)
    | inr e ↦ rw e refl
  ];
  revoked_same = λ r h. elim (Bool-cases (which r)) [
    | inl e ↦ rw e ((revoked_by-Tame at reason).revoked_same r h)
    | inr e ↦ rw e (refl, refl)
  ];
}

-- A property of the table, said of the server.
unfoldable pub Rows : (List (ℕ × UserSession) → Type 0) → Server → Type 0
Rows Q s = Q s.sessions

module _ (Q : List (ℕ × UserSession) → Type 0) where
  pub statement-Rows : {A : Type 0} (c : Db A) → Keeps (Rows Q) c → Keeps (Rows Q) (statement c)
  unfolding statement Rows
  statement-Rows c k = record {
    at = λ s h. elim (Bool-cases (next_fault s.faults)) [
      | inl e ↦ rw (statement, e) h
      | inr e ↦ rw (statement, e) (k.at (after_statement s) h)
    ];
  }

  -- A change that leaves the rows alone.
  pub update_other-Rows :
      {E : Type 0} (f : Server → Server)
      → ((s : Server) → (f s).sessions ≡ s.sessions)
      → Keeps (Rows Q) (update {E = E} f)
  unfolding Rows
  update_other-Rows f same = Keeps-update f (λ s h. subst Q (sym (same s)) h)

  pub insert_other-Rows :
      {A : Type 0} (refused : Server → Bool) (f : Server → Server) (row : A)
      → ((s : Server) → (f s).sessions ≡ s.sessions)
      → Keeps (Rows Q) (insert_unless refused f row)
  unfolding insert_unless
  insert_other-Rows refused f row same =
      search (keeps_rules, statement-Rows, update_other-Rows f same)

  pub update_row-Rows :
      (present : Server → Bool) (f : Server → Server)
      → ((s : Server) → Q s.sessions → Q (f s).sessions)
      → Keeps (Rows Q) (update_row present f)
  unfolding update_row Rows
  update_row-Rows present f h = search (keeps_rules, statement-Rows, Keeps-update f h)

  pub append_audit-Rows : (event : AuditEvent) → Keeps (Rows Q) (append_audit event)
  unfolding append_audit
  append_audit-Rows event = statement-Rows _ (update_other-Rows _ (λ s. refl))

  pub create_user-Rows :
      (lib : Crypto) (id at : ℕ) (email name : Text)
      → Keeps (Rows Q) (Users.create lib id at email name)
  unfolding Users.create
  create_user-Rows lib id at email name = insert_other-Rows _ _ _ (λ s. refl)

  pub get_user-Rows : (id : ℕ) → Keeps (Rows Q) (Users.get_user id)
  unfolding Users.get_user
  get_user-Rows id = search (keeps_rules, statement-Rows)

  pub get_by_email-Rows :
      (lib : Crypto) (email : Text) → Keeps (Rows Q) (Users.get_by_email lib email)
  unfolding Users.get_by_email
  get_by_email-Rows lib email = search (keeps_rules, statement-Rows)

  pub touch_last_login-Rows : (id at : ℕ) → Keeps (Rows Q) (Users.touch_last_login id at)
  unfolding Users.touch_last_login Rows
  touch_last_login-Rows id at = update_row-Rows _ _ (λ s h. h)

  pub upsert-Rows :
      (id : ℕ) (hash : Text) (at : ℕ) → Keeps (Rows Q) (Passwords.upsert_for_user id hash at)
  unfolding Passwords.upsert_for_user
  upsert-Rows id hash at = insert_other-Rows _ _ _ (λ s. refl)

  pub get_for_user-Rows : (id : ℕ) → Keeps (Rows Q) (Passwords.get_for_user id)
  unfolding Passwords.get_for_user
  get_for_user-Rows id = search (keeps_rules, statement-Rows)

  pub any_exists-Rows : Keeps (Rows Q) Passwords.any_exists
  unfolding Passwords.any_exists
  any_exists-Rows = search (keeps_rules, statement-Rows)
