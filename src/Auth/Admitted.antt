-- ===== src/Auth/Admitted.antt =====
-- Whom the extractor of crates/relayterm-api/src/auth/user.rs lets in.
use relay_term.Prelude.{
  ℕ, ◌≡◌, ◌≢◌, ◌∙◌, refl, sym, ap, Bool, Bool-cases, true, false, inl, inr, Option, none, some,
  List, [], ◌∷◌, subst, is_some, ℕ_discrete,
}
use mathlib.Core.Bool.{true≢false}
use relay_term.Prelude.Assoc.{get, Distinct, get-cons_self, get-cons_ne}
use relay_term.Prelude.Calls.{
  On, On-implies, Yields, Yields-then, Yields-any, Yields-map_err, pure, fail, read,
}
use relay_term.Auth.{
  Text, UserSession, Server, RevokedReason, Crypto, statement, after_statement, next_fault,
}
use relay_term.Auth.Tables.{Db, find_row}
use relay_term.Auth.UserSessions.{with_hash, get_by_token_hash}
use relay_term.Auth.Service.{is_revoked, is_expired_at, check_session, validate_session_token}
use relay_term.Auth.Guards.{
  Headers, AuthenticatedUser, authenticate, token_or_unauthorized, extract_session_cookie,
}
use relay_term.Auth.Revoked.{OwnId, Keyed, Gone, Keyed-rule, Gone-rule}
use relay_term.Auth.Rules.{Rows}
use relay_term.Auth.Serve.{Request, serve_all, serve_all-Rows}

-- The row of the session, neither revoked nor expired.
abbrev pub IsLive : ℕ → UserSession → List (ℕ × UserSession) → Type 0
IsLive now r rows =
    (get ℕ_discrete r.id rows ≡ some r) × (is_revoked r ≡ false) × (is_expired_at r now ≡ false)

-- A row that a search finds stands under some id.
find_row-get :
    (p : UserSession → Bool) (rows : List (ℕ × UserSession)) (r : UserSession)
    → Distinct ℕ_discrete rows
    → find_row p rows ≡ some r
    → (k : ℕ) × (get ℕ_discrete k rows ≡ some r)
unfolding find_row
find_row-get p [] r d e = absurd (true≢false (ap is_some (sym e)))
find_row-get p ((k, q) ∷ rows) r (fresh, d) e = elim (Bool-cases (p q)) [
  | inl t ↦ (k, get-cons_self ℕ_discrete k q rows ∙ (rw t at e))
  | inr t ↦
      let (j, there) = find_row-get p rows r d (rw t at e) in
      let other : k ≢ j = λ same.
        true≢false (ap is_some (sym there ∙ ap (λ i. get ℕ_discrete i rows) (sym same) ∙ fresh)) in
      (j, get-cons_ne ℕ_discrete k j q rows other ∙ there)
]

pub statement-Yields :
    {A : Type 0} (P : A → Server → Type 0) (c : Db A) (s : Server)
    → Yields P (c (after_statement s))
    → Yields P (statement c s)
unfolding statement
statement-Yields P c s h = elim (Bool-cases (next_fault s.faults)) [
  | inl e ↦ rw (statement, e) tt
  | inr e ↦ rw (statement, e) h
]

check_session-IsLive :
    (now : ℕ) (o : Option UserSession) (rows : List (ℕ × UserSession)) (s : Server)
    → ((r : UserSession) → o ≡ some r → get ℕ_discrete r.id rows ≡ some r)
    → Yields (λ r _. IsLive now r rows) (check_session now o s)
unfolding check_session pure fail
check_session-IsLive now none rows s h = tt
check_session-IsLive now (some r) rows s h = elim (Bool-cases (is_revoked r)) [
  | inl e ↦ rw e tt
  | inr e ↦
      rw e (elim (Bool-cases (is_expired_at r now)) [
        | inl x ↦ rw x tt
        | inr x ↦ rw x (h r refl, e, x)
      ])
]

row_found :
    (hash : Text) (rows : List (ℕ × UserSession)) (r : UserSession)
    → Keyed rows
    → with_hash hash rows ≡ some r
    → get ℕ_discrete r.id rows ≡ some r
unfolding with_hash
row_found hash rows r (d, ids) e =
    let (k, there) = find_row-get _ rows r d e in
    let own : r.id ≡ k = subst (OwnId k) there (ids k) in
    ap (λ i. get ℕ_discrete i rows) own ∙ there

pub validate-IsLive :
    (lib : Crypto) (token : Text) (now : ℕ) (s : Server)
    → Keyed s.sessions
    → Yields (λ r _. IsLive now r s.sessions) (validate_session_token lib token now s)
unfolding validate_session_token get_by_token_hash read
validate-IsLive lib token now s keyed =
    let P : UserSession → Server → Type 0 = λ r _. IsLive now r s.sessions in
    let Q : Option UserSession → Server → Type 0 =
      λ o t. (t.sessions ≡ s.sessions) × (o ≡ with_hash (lib.digest token) s.sessions) in
    Yields-then P Q _ (check_session now) s
      (Yields-map_err Q _ _ s (statement-Yields Q _ s (refl, refl)))
      λ o t q.
        check_session-IsLive now o s.sessions t
          λ r e. row_found (lib.digest token) s.sessions r keyed (sym q.1 ∙ e)

-- The session of a request that is let in.
abbrev pub Admits : ℕ → List (ℕ × UserSession) → AuthenticatedUser → Type 0
Admits now rows u = (r : UserSession) × (r.id ≡ u.session_id) × IsLive now r rows

token-same :
    (s : Server) (token : Option Text) → Yields (λ _ t. t ≡ s) (token_or_unauthorized token s)
unfolding token_or_unauthorized pure fail
token-same s none = tt
token-same s (some t) = refl

pub authenticate-Admits :
    (lib : Crypto) (h : Headers) (now : ℕ) (s : Server)
    → Keyed s.sessions
    → On (authenticate lib h now s).0 (Admits now s.sessions)
unfolding authenticate pure
authenticate-Admits lib h now s keyed =
    let P : AuthenticatedUser → Server → Type 0 = λ u _. Admits now s.sessions u in
    let Q : UserSession → Server → Type 0 = λ r _. IsLive now r s.sessions in
    Yields-then P (λ _ t. t ≡ s) _ _ s (token-same s (extract_session_cookie h.cookie))
      λ token t same.
        Yields-then P Q _ _ t
          (Yields-map_err Q _ _ t (
            subst (λ u. Yields Q (validate_session_token lib token now u)) (sym same)
              (validate-IsLive lib token now s keyed)))
          λ r _ live.
            Yields-any P _ _ _
              λ found _. Yields-any P _ _ _ λ user _. Yields-any P _ _ _ λ _ _. (r, refl, live)

-- Whom a revoked session would let in is not let in.
Gone-kept_out :
    (id at now : ℕ) (why : Option RevokedReason) (rows : List (ℕ × UserSession))
    (u : AuthenticatedUser)
    → Gone id at why rows
    → Admits now rows u
    → u.session_id ≢ id
unfolding is_revoked
Gone-kept_out id at now why rows u (r, here, when, reason) (q, named, (there, open_still, in_time))
      same =
    let other : some q ≡ some r =
      sym there ∙ ap (λ i. get ℕ_discrete i rows) (named ∙ same) ∙ here in
    true≢false (sym (ap is_some when) ∙ sym (ap revoked other) ∙ open_still)
  where
    revoked : Option UserSession → Bool
    revoked none = true
    revoked (some r) = is_some r.revoked_at

-- A login session that has been revoked stays revoked, with its first time and reason, whatever requests
-- come and whichever statements fail, and from then on no request is let in as that session. Before the
-- requests no id stands twice in the table, and each row is under its own id.
pub revoked_stays_out :
    (lib : Crypto) (requests : List Request) (s : Server) (id at now : ℕ)
    (why : Option RevokedReason) (h : Headers)
    → Keyed s.sessions
    → Gone id at why s.sessions
    → let later = serve_all lib requests s in
      Gone id at why later.sessions × On (authenticate lib h now later).0 (λ u. u.session_id ≢ id)
unfolding Rows
revoked_stays_out lib requests s id at now why h keyed gone =
    let later : Server = serve_all lib requests s in
    let gone_later : Gone id at why later.sessions =
      serve_all-Rows (Gone-rule id at why) lib requests s gone in
    (
      gone_later,
      On-implies (Admits now later.sessions) (λ u. u.session_id ≢ id) _
          (λ u. Gone-kept_out id at now why later.sessions u gone_later)
          (authenticate-Admits lib h now later (serve_all-Rows Keyed-rule lib requests s keyed)),
    )
