-- ===== src/Auth/Rules/Rows.antt =====
-- The statements on login sessions keep what a new row and tame changes keep,
-- crates/relayterm-db/src/repositories/user_session.rs.
use relay_term.Prelude.{
  ℕ, ◌≡◌, refl, Bool, false, not, ◌||◌, Bool-cases, inl, inr, Option, none, some, List, is_some,
  ℕ_discrete,
}
use mathlib.Core.Bool.{true≢false}
use relay_term.Prelude.Assoc.{get, modify, map_values}
use relay_term.Prelude.Calls.{
  Keeps, keeps_rules, Keeps-update, pure, fail, read, update, after, ◌>>=◌,
}
use relay_term.Auth.{Text, UserSession, RevokedReason}
use relay_term.Auth.Tables.{insert_unless}
use relay_term.Auth.UserSessions
use relay_term.Auth.UserSessions.{
  new_row, revoked_by, revoke_where, revoke_owned, owned_by, with_hash,
}
use relay_term.Auth.Rules.{
  Tame, RowRule, revoked_by-Tame, revoked_if-Tame, Rows, statement-Rows, update_row-Rows,
}

not_there : {V : Type 0} (o : Option V) (b c : Bool) → ((is_some o || b) || c) ≡ false → o ≡ none
not_there none b c e = refl
not_there (some v) b c e = absurd (true≢false e)

module _ {Q : List (ℕ × UserSession) → Type 0} (rule : RowRule Q) where
  pub insert_new-Rows :
      (id at user_id : ℕ) (hash : Text) (expires_at : ℕ)
      → Keeps (Rows Q) (UserSessions.create id at user_id hash expires_at)
  unfolding Rows UserSessions.create insert_unless ◌>>=◌ after read fail update pure
  insert_new-Rows id at user_id hash expires_at = statement-Rows Q _ (record {
    at = λ s h.
        elim (Bool-cases (
          is_some (get ℕ_discrete id s.sessions)
          || is_some (with_hash hash s.sessions)
          || not (is_some (get ℕ_discrete user_id s.users)))) [
            | inl e ↦ rw e h
            | inr e ↦ rw e (rule.add id at user_id hash expires_at s.sessions (not_there _ _ _ e) h)
          ];
  })

  pub get_by_token_hash-Rows : (hash : Text) → Keeps (Rows Q) (UserSessions.get_by_token_hash hash)
  unfolding UserSessions.get_by_token_hash
  get_by_token_hash-Rows hash = search (keeps_rules, statement-Rows Q)

  pub touch_last_seen-Rows : (id at : ℕ) → Keeps (Rows Q) (UserSessions.touch_last_seen id at)
  unfolding UserSessions.touch_last_seen Rows
  touch_last_seen-Rows id at = update_row-Rows Q _ _ λ s h.
      rule.change id _ s.sessions
        (record { id_same = λ r. refl; revoked_same = λ r e. (refl, refl) }) h

  pub revoke-Rows :
      (id at : ℕ) (reason : Option RevokedReason)
      → Keeps (Rows Q) (UserSessions.revoke id at reason)
  unfolding UserSessions.revoke Rows
  revoke-Rows id at reason =
      update_row-Rows Q _ _ λ s h. rule.change id _ s.sessions (revoked_by-Tame at reason) h

  pub change_all-Rows :
      {E : Type 0} (f : UserSession → UserSession)
      → Tame f
      → Keeps (Rows Q) (update {E = E} (λ s. record s { sessions = map_values f s.sessions }))
  unfolding Rows
  change_all-Rows f tame = Keeps-update _ (λ s. rule.change_all f s.sessions tame)

  pub change-Rows :
      {E : Type 0} (id : ℕ) (f : UserSession → UserSession)
      → Tame f
      → Keeps
          (Rows Q)
          (update {E = E} (λ s. record s { sessions = modify ℕ_discrete id f s.sessions }))
  unfolding Rows
  change-Rows id f tame = Keeps-update _ (λ s. rule.change id f s.sessions tame)

  pub revoke_where-Rows :
      (which : UserSession → Bool) (at : ℕ) (reason : Option RevokedReason)
      → Keeps (Rows Q) (revoke_where which at reason)
  unfolding revoke_where
  revoke_where-Rows which at reason =
      search (keeps_rules, statement-Rows Q, change_all-Rows, revoked_if-Tame)

  pub revoke_owned-Rows :
      (id at : ℕ) (reason : Option RevokedReason) (old : Option UserSession)
      → Keeps (Rows Q) (revoke_owned id at reason old)
  unfolding revoke_owned
  revoke_owned-Rows id at reason none = search keeps_rules
  revoke_owned-Rows id at reason (some r) = search (keeps_rules, change-Rows, revoked_by-Tame)

  pub revoke_for_user-Rows :
      (user_id id at : ℕ) (reason : Option RevokedReason)
      → Keeps (Rows Q) (UserSessions.revoke_for_user user_id id at reason)
  unfolding UserSessions.revoke_for_user
  revoke_for_user-Rows user_id id at reason =
      search (keeps_rules, statement-Rows Q, revoke_owned-Rows)
