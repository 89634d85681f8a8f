-- ===== src/Auth/Revoked.antt =====
-- A revoked login session stays revoked and lets nobody in, crates/relayterm-auth/src/service.rs.
use relay_term.Prelude.{
  ℕ, ◌≡◌, ◌≢◌, ◌∙◌, refl, sym, ap, Option, none, some, List, [], ◌∷◌, is_some, ℕ_discrete,
}
use mathlib.Core.Option
use mathlib.Core.Bool.{true≢false}
use relay_term.Prelude.Assoc.{
  get, insert, modify, map_values, Distinct, insert-Distinct, modify-Distinct, get-insert_self,
  get-insert_ne, get-modify_self, get-modify_ne, get-map_values,
}
use relay_term.Auth.{Text, UserSession, RevokedReason}
use relay_term.Auth.UserSessions.{new_row}
use relay_term.Auth.Rules.{Tame, RowRule}

-- A row, if there is one, has the id that it stands under.
abbrev pub OwnId : ℕ → Option UserSession → Type 0
OwnId k none = Unit
OwnId k (some r) = r.id ≡ k

-- No id stands twice in the table, and each row is under its own id.
abbrev pub Keyed : List (ℕ × UserSession) → Type 0
Keyed rows = Distinct ℕ_discrete rows × ((k : ℕ) → OwnId k (get ℕ_discrete k rows))

map_values-Distinct :
    (f : UserSession → UserSession) (rows : List (ℕ × UserSession))
    → Distinct ℕ_discrete rows
    → Distinct ℕ_discrete (map_values f rows)
map_values-Distinct f [] d = tt
map_values-Distinct f ((k, r) ∷ rows) (fresh, d) =
    (rw (get-map_values ℕ_discrete k f rows, fresh) refl, map_values-Distinct f rows d)

map-OwnId :
    (k : ℕ) (f : UserSession → UserSession) (o : Option UserSession)
    → Tame f
    → OwnId k o
    → OwnId k (Option.map f o)
map-OwnId k f none tame h = tt
map-OwnId k f (some r) tame h = tame.id_same r ∙ h

insert-OwnId :
    (id at user_id : ℕ) (hash : Text) (expires_at : ℕ) (rows : List (ℕ × UserSession)) (k : ℕ)
    → OwnId k (get ℕ_discrete k rows)
    → OwnId k (get ℕ_discrete k (insert ℕ_discrete id (new_row id at user_id hash expires_at) rows))
insert-OwnId id at user_id hash expires_at rows k h = elim (ℕ_discrete id k) [
  | yes p ↦ rw (sym p, get-insert_self ℕ_discrete id _ rows) refl
  | no n ↦ rw (get-insert_ne ℕ_discrete id k _ rows n) h
]

modify-OwnId :
    (id : ℕ) (f : UserSession → UserSession) (rows : List (ℕ × UserSession)) (k : ℕ)
    → Tame f
    → OwnId k (get ℕ_discrete k rows)
    → OwnId k (get ℕ_discrete k (modify ℕ_discrete id f rows))
modify-OwnId id f rows k tame h = elim (ℕ_discrete id k) [
  | yes p ↦ rw (p, get-modify_self ℕ_discrete k f rows) (map-OwnId k f _ tame h)
  | no n ↦ rw (get-modify_ne ℕ_discrete id k f rows n) h
]

pub Keyed-rule : RowRule Keyed
Keyed-rule = record {
  add = λ id at user_id hash expires_at rows fresh (d, ids). (
    insert-Distinct ℕ_discrete id _ rows d,
    λ k. insert-OwnId id at user_id hash expires_at rows k (ids k),
  );
  change = λ id f rows tame (d, ids).
      (modify-Distinct ℕ_discrete id f rows d, λ k. modify-OwnId id f rows k tame (ids k));
  change_all = λ f rows tame (d, ids). (
    map_values-Distinct f rows d,
    λ k. rw (get-map_values ℕ_discrete k f rows) (map-OwnId k f _ tame (ids k)),
  );
}

-- The session is revoked, with this time and reason.
abbrev pub Gone : ℕ → ℕ → Option RevokedReason → List (ℕ × UserSession) → Type 0
Gone id at why rows =
    (r : UserSession) × (get ℕ_discrete id rows ≡ some r)
    × (r.revoked_at ≡ some at)
    × (r.revoked_reason ≡ why)

changed-Gone :
    (id at : ℕ) (why : Option RevokedReason) (f : UserSession → UserSession)
    (rows after : List (ℕ × UserSession))
    → Tame f
    → get ℕ_discrete id after ≡ Option.map f (get ℕ_discrete id rows)
    → Gone id at why rows
    → Gone id at why after
changed-Gone id at why f rows after tame e (r, here, when, reason) =
    let (a, b) = tame.revoked_same r (ap is_some when) in
    (f r, e ∙ ap (Option.map f) here, a ∙ when, b ∙ reason)

pub Gone-rule : (id at : ℕ) (why : Option RevokedReason) → RowRule (Gone id at why)
Gone-rule id at why = record {
  add = λ new now user_id hash expires_at rows fresh (r, here, when, reason).
      let other : new ≢ id =
        λ p. true≢false (ap is_some (sym here ∙ ap (λ k. get ℕ_discrete k rows) (sym p) ∙ fresh)) in
      (r, get-insert_ne ℕ_discrete new id _ rows other ∙ here, when, reason);
  change = λ k f rows tame h. elim (ℕ_discrete k id) [
    | yes p ↦ changed-Gone id at why f rows _ tame (rw p (get-modify_self ℕ_discrete id f rows)) h
    | no n ↦ (h.0, get-modify_ne ℕ_discrete k id f rows n ∙ h.1, h.2, h.3)
  ];
  change_all =
      λ f rows tame h. changed-Gone id at why f rows _ tame (get-map_values ℕ_discrete id f rows) h;
}
