-- ===== src/Auth/Changed.antt =====
-- What a change of the password leaves, crates/relayterm-api/src/routes/v1/auth.rs.
use relay_term.Prelude.{ℕ, ◌≡◌, refl, sym, subst, some, ℕ_discrete}
use relay_term.Prelude.Assoc.{get, Values}
use relay_term.Prelude.Calls.{
  Result, ok, err, On, On-always, Yields, Yields-then, Yields-keep, Yields-map_err, pure, update,
  map_err, ◌>>=◌, ◌>>◌,
}
use relay_term.Auth.{
  Text, PasswordCredential, UserSession, Server, RevokedReason, Crypto, Drawn, api_of_service,
  password_was_changed, statement, after_statement, next_fault, later_faults,
}
use relay_term.Auth
use relay_term.Auth.Tables.{append_audit}
use relay_term.Auth.Service.{revoke_all_sessions_except}
use relay_term.Auth.Guards.{Headers, AuthenticatedUser, authenticate}
use relay_term.Auth.Requests.{ChangePasswordRequest}
use relay_term.Auth.Login.{audited}
use relay_term.Auth.Account.{change_password}
use relay_term.Auth.Rules.Checks.{csrf_guard-Keeps, validated_change-Keeps}
use relay_term.Auth.Admitted.{statement-Yields}
use relay_term.Auth.Entry.{Matches, verify_password-Matches}
use relay_term.Auth.Steps.{
  OnlyCurrent, Stored, set_password-Stored, revoke_all_except-Values, Passwords,
  authenticate-Passwords,
}

-- What a change of the password that returns has seen in `s` and leaves in `t`.
abbrev pub Changes : Crypto → Headers → ChangePasswordRequest → Drawn → Server → Server → Type 0
Changes lib h req d s t =
    (u : AuthenticatedUser) × ((authenticate lib h d.now s).0 ≡ ok u)
    × Matches lib req.current_password (get ℕ_discrete u.user.id s.passwords)
    × Stored lib d.salt req.new_password (get ℕ_discrete u.user.id t.passwords)
    × Values (OnlyCurrent u.user.id u.session_id) t.sessions

On-itself : {E A : Type 0} (r : Result E A) → On r (λ a. r ≡ ok a)
On-itself (ok a) = refl
On-itself (err e) = tt

both : {E A : Type 0} (r : Result E A) (P Q : A → Type 0) → On r P → On r Q → On r (λ a. P a × Q a)
both (ok a) P Q h k = (h, k)
both (err e) P Q h k = tt

-- The last two calls, after which the handler returns.
finished :
    (lib : Crypto) (h : Headers) (req : ChangePasswordRequest) (d : Drawn) (s f : Server)
    (u : AuthenticatedUser)
    → (authenticate lib h d.now s).0 ≡ ok u
    → Matches lib req.current_password (get ℕ_discrete u.user.id s.passwords)
    → Stored lib d.salt req.new_password (get ℕ_discrete u.user.id f.passwords)
    → Yields
        (λ _ t. Changes lib h req d s t)
        ((map_err api_of_service
              (revoke_all_sessions_except u.user.id u.session_id d.now (some Auth.password_changed))
            >>= λ n. audited (some u.user.id) (password_was_changed n d.now) >> pure n)
          f)
unfolding append_audit update pure
finished lib h req d s f u who matched stored =
    let P : ℕ → Server → Type 0 = λ _ t. Changes lib h req d s t in
    let R : ℕ → Server → Type 0 =
      λ _ t. Values (OnlyCurrent u.user.id u.session_id) t.sessions × (t.passwords ≡ f.passwords) in
    let W : Unit {0} → Server → Type 0 = λ _ t. Changes lib h req d s t in
    Yields-then P R _ _ f
      (Yields-map_err R _ _ f
        (revoke_all_except-Values u.user.id u.session_id d.now _ f.passwords f refl))
      λ n g (out, left).
        let kept : Stored lib d.salt req.new_password (get ℕ_discrete u.user.id g.passwords) =
          subst (λ ps. Stored lib d.salt req.new_password (get ℕ_discrete u.user.id ps)) (sym left)
            stored in
        Yields-then P W _ _ g
          (Yields-map_err W _ _ g (statement-Yields W _ g (u, who, matched, kept, out)))
          λ _ _ done. done

-- A change of the password that returns was asked for by a user who is let in and whose stored hash the
-- current password matches. It leaves the hash of the new password for that user, and every session of
-- that user other than the one of the request revoked.
pub change_password-Changes :
    (lib : Crypto) (h : Headers) (req : ChangePasswordRequest) (d : Drawn) (s : Server)
    → Yields (λ _ t. Changes lib h req d s t) (change_password lib h req d s)
unfolding change_password Passwords
change_password-Changes lib h req d s =
    let P : ℕ → Server → Type 0 = λ _ t. Changes lib h req d s t in
    let A : AuthenticatedUser → Server → Type 0 =
      λ u t. ((authenticate lib h d.now s).0 ≡ ok u) × (t.passwords ≡ s.passwords) in
    Yields-keep P (λ t. t ≡ s) _ _ s (csrf_guard-Keeps _ h) refl
      λ _ a same.
        Yields-then P A _ _ a
          (subst (λ x. Yields A (authenticate lib h d.now x)) (sym same)
            (both (authenticate lib h d.now s).0 _
              (λ _. (authenticate lib h d.now s).1.passwords ≡ s.passwords)
              (On-itself (authenticate lib h d.now s).0)
              (On-always _ _ (λ _. (authenticate-Passwords s.passwords lib h d.now).at s refl))))
          λ u b (who, kept).
            Yields-keep P (λ t. t.passwords ≡ s.passwords) _ _ b (validated_change-Keeps _ req) kept
              λ _ c rows.
                let M : Unit {0} → Server → Type 0 =
                  λ _ _. Matches lib req.current_password (get ℕ_discrete u.user.id c.passwords) in
                Yields-then P M _ _ c
                  (Yields-map_err M _ _ c
                    (verify_password-Matches lib u.user.id req.current_password c))
                  λ _ e matched.
                    let S : Unit {0} → Server → Type 0 = λ _ t.
                      Stored lib d.salt req.new_password (get ℕ_discrete u.user.id t.passwords) in
                    Yields-then P S _ _ e
                      (Yields-map_err S _ _ e
                        (set_password-Stored lib u.user.id req.new_password d e))
                      λ _ f stored.
                        finished lib h req d s f u who
                          (subst
                            (λ ps. Matches lib req.current_password (get ℕ_discrete u.user.id ps))
                            rows matched)
                          stored
