-- ===== src/Launch/Rightful.antt =====
-- The target that a launch may hand to the bridge, and what each check of the launch leaves true,
-- `create` of crates/relayterm-api/src/routes/v1/terminal_sessions.rs.
use mathlib.Core.List.{Memᴰ}
use relay_term.Prelude.{
  ℕ, ◌≡◌, ◌∙◌, refl, sym, ap, subst, inl, inr, Bool, Bool-cases, true, false, ◌==◌, ◌&&◌, Option,
  none, some, List, [], ◌∷◌, All, keep_if, is_some, arith, ℕ_discrete,
}
use relay_term.Prelude.Assoc.{get}
use relay_term.Prelude.Calls.{Result, ok, err, On, On-implies, pure, fail, after, ◌>>=◌}
use relay_term.HostKeys.{KnownHostEntry, is_active}
use relay_term.Manager.Started.{Room}
use relay_term.Launch.{
  ServerProfile, Host, SshIdentity, is_disabled, SshPtyTarget, Services, Backend, L, LaunchError,
  select, next_fault, later_faults, is_accepted, accept_pins,
}
use relay_term.Launch.Create.{
  own_row, or_default, refuse_if, some_pins, check_quotas, decrypted, open_vault,
}
use relay_term.Launch.Quota.{check_quotas-Roomy}

-- A pin that stands for a trusted entry of the host that is not revoked.
pub record TrustedPin (pins : List KnownHostEntry) (host_id : ℕ) (pin : ℕ × ℕ) : Type 0 where
  pub entry : KnownHostEntry
  pub stored : Memᴰ entry pins
  pub of_host : entry.host_id ≡ host_id
  pub trusted : is_some entry.trusted_at ≡ true
  pub active : is_active entry ≡ true
  pub same : pin ≡ (entry.key_type, entry.fingerprint_sha256)

-- The rows of a profile that is the user's own, as are its host and its identity, and not disabled.
pub record OwnRows (user_id profile_id : ℕ) (s : Backend) : Type 0 where
  pub profile : ServerProfile
  pub host : Host
  pub identity : SshIdentity
  pub stored_profile : get ℕ_discrete profile_id s.profiles ≡ some profile
  pub own_profile : profile.owner_id ≡ user_id
  pub enabled : is_disabled profile ≡ false
  pub stored_host : get ℕ_discrete profile.host_id s.hosts ≡ some host
  pub own_host : host.owner_id ≡ user_id
  pub stored_identity : get ℕ_discrete profile.ssh_identity_id s.identities ≡ some identity
  pub own_identity : identity.owner_id ≡ user_id

-- A target that the user may have opened with this profile.
pub record Rightful (services : Services) (user_id profile_id : ℕ) (s : Backend) (t : SshPtyTarget)
    : Type 0 where
  pub rows : OwnRows user_id profile_id s
  pub hostname : t.hostname ≡ rows.host.hostname
  pub port : t.port ≡ rows.host.port
  pub username : t.username ≡ or_default rows.host.default_username rows.profile.username_override
  pub pinned : All (TrustedPin s.pins rows.host.id) t.accept_pins
  pub some_pin : (pin : ℕ × ℕ) × (more : List (ℕ × ℕ)) × (t.accept_pins ≡ pin ∷ more)
  pub decrypt : List ℕ → Option (List ℕ)
  pub vault : services.decrypt ≡ some decrypt
  pub private_key : decrypt rows.identity.encrypted_private_key ≡ some t.private_key_pem
  pub room : Room user_id s.manager

accepted : (a b : Bool) → (a && b) ≡ true → (a ≡ true) × (b ≡ true)
accepted true b h = (refl, h)
accepted false b h = ground arith

module _ (pins : List KnownHostEntry) (host_id : ℕ) where
  entry-Trusted :
      (e : KnownHostEntry)
      → Memᴰ e pins
      → (e.host_id == host_id) ≡ true
      → is_accepted e ≡ true
      → TrustedPin pins host_id (e.key_type, e.fingerprint_sha256)
  unfolding is_accepted
  entry-Trusted e m own a = record {
    entry = e;
    stored = m;
    of_host = ground arith;
    trusted = (accepted (is_some e.trusted_at) (is_active e) a).0;
    active = (accepted (is_some e.trusted_at) (is_active e) a).1;
    same = refl;
  }

  kept-Trusted :
      (es : List KnownHostEntry)
      → ((e : KnownHostEntry) → Memᴰ e es → Memᴰ e pins)
      → All (TrustedPin pins host_id) (accept_pins (keep_if (λ e. e.host_id == host_id) es))
  unfolding accept_pins
  kept-Trusted [] within = tt
  kept-Trusted (e ∷ es) within =
      let rest = kept-Trusted es (λ x m. within x (Memᴰ.tail m)) in
      elim (Bool-cases (e.host_id == host_id)) [
        | inr other ↦ rw other rest
        | inl own ↦ rw own (elim (Bool-cases (is_accepted e)) [
          | inr x ↦ rw x rest
          | inl x ↦ rw x (entry-Trusted e (within e (Memᴰ.head refl)) own x, rest)
        ])
      ]

  pub pins-Trusted :
      All (TrustedPin pins host_id) (accept_pins (keep_if (λ e. e.host_id == host_id) pins))
  pins-Trusted = kept-Trusted pins (λ e m. m)

-- Only answers of the database have been used up.
unfoldable pub Stable : Backend → Backend → Type 0
Stable s t = t ≡ record s { faults = t.faults }

unfoldable pub Held :
    {A : Type 0} → Backend → (A → Type 0) → Result LaunchError A × Backend → Type 0
Held s Q r = On r.0 Q × Stable s r.1

module _ (s : Backend) where
  Stable-later : (t : Backend) (fs : List Bool) → Stable s t → Stable s (record t { faults = fs })
  unfolding Stable
  Stable-later t fs h =
      let forget : Backend → Backend = λ x. record x { faults = fs } in ap forget h

  pub select-Held :
      {A : Type 0} (f : Backend → A)
      → ((t : Backend) → Stable s t → f t ≡ f s)
      → (t : Backend) → Stable s t
      → Held s (λ a. a ≡ f s) (select f t)
  unfolding select Held
  select-Held f same t h = elim (Bool-cases (next_fault t.faults)) [
    | inl e ↦ rw e (tt, Stable-later t (later_faults t.faults) h)
    | inr e ↦ rw e (
      same _ (Stable-later t (later_faults t.faults) h),
      Stable-later t (later_faults t.faults) h,
    )
  ]

  module _ {A : Type 0} (owner : A → ℕ) (user_id : ℕ) where
    own_row-Held :
        (o : Option A) (t : Backend)
        → Stable s t
        → Held s (λ a. (o ≡ some a) × (owner a ≡ user_id)) (own_row owner user_id o t)
    unfolding own_row Held pure fail
    own_row-Held none t h = (tt, h)
    own_row-Held (some a) t h = elim (Bool-cases (owner a == user_id)) [
      | inl e ↦ rw e ((refl, ground arith), h)
      | inr e ↦ rw e (tt, h)
    ]

  module _ {A B : Type 0} (c : L A) (f : A → L B) (Q : A → Type 0) (R : B → Type 0) where
    Held-bind :
        (t : Backend)
        → Held s Q (c t)
        → ((a : A) (u : Backend) → Q a → Stable s u → Held s R (f a u))
        → Held s R ((c >>= f) t)
    unfolding ◌>>=◌ after Held
    Held-bind t (q, h) k = go (c t).0 q
      where
        go : (r : Result LaunchError A) → On r Q → Held s R (after r f (c t).1)
        go (ok a) q = k a (c t).1 q h
        go (err e) q = (tt, h)

  pub found-Held :
      {A : Type 0} (rows : Backend → List (ℕ × A)) (owner : A → ℕ) (user_id id : ℕ)
      → ((t : Backend) → Stable s t → rows t ≡ rows s)
      → (t : Backend) → Stable s t
      → Held s
          (λ a. (get ℕ_discrete id (rows s) ≡ some a) × (owner a ≡ user_id))
          ((select (λ x. get ℕ_discrete id (rows x)) >>= own_row owner user_id) t)
  found-Held {A} rows owner user_id id same t h =
      Held-bind (select (λ x. get ℕ_discrete id (rows x))) (own_row owner user_id)
        (λ o. o ≡ get ℕ_discrete id (rows s)) _ t
        (select-Held (λ x. get ℕ_discrete id (rows x)) (λ u k. ap (get ℕ_discrete id) (same u k)) t
          h)
        λ o u e k.
          subst (λ x. Held s (λ a. (x ≡ some a) × (owner a ≡ user_id)) (own_row owner user_id o u))
            e (own_row-Held owner user_id o u k)

  pub refuse_if-Held :
      (b : Bool) (e : LaunchError) (t : Backend)
      → Stable s t
      → Held s (λ _. b ≡ false) (refuse_if b e t)
  unfolding refuse_if Held pure fail
  refuse_if-Held true e t h = (tt, h)
  refuse_if-Held false e t h = (refl, h)

  pub some_pins-Held :
      (pins : List (ℕ × ℕ)) (t : Backend)
      → Stable s t
      → Held s (λ _. (pin : ℕ × ℕ) × (more : List (ℕ × ℕ)) × (pins ≡ pin ∷ more)) (some_pins pins t)
  unfolding some_pins Held pure fail
  some_pins-Held [] t h = (tt, h)
  some_pins-Held (p ∷ ps) t h = ((p, ps, refl), h)

  pub check_quotas-Held :
      (user_id : ℕ) (t : Backend)
      → Stable s t
      → Held s (λ _. Room user_id s.manager) (check_quotas user_id t)
  unfolding Held Stable
  check_quotas-Held user_id t h =
      let (same, room) = check_quotas-Roomy user_id t in
      (
        On-implies _ _ (check_quotas user_id t).0
            (λ _ x. subst (λ u. Room user_id u.manager) (same ∙ h) x) room,
        subst (Stable s) (sym same) h,
      )

  pub open_vault-Held :
      (d : Option (List ℕ → Option (List ℕ))) (key : List ℕ) (t : Backend)
      → Stable s t
      → Held s
          (λ pem. (f : List ℕ → Option (List ℕ)) × (d ≡ some f) × (f key ≡ some pem))
          (open_vault d key t)
  unfolding open_vault decrypted Held pure fail
  open_vault-Held none key t h = (tt, h)
  open_vault-Held (some f) key t h = go (f key) refl
    where
      go :
          (o : Option (List ℕ))
          → f key ≡ o
          → Held s
              (λ pem. (g : List ℕ → Option (List ℕ)) × (some f ≡ some g) × (g key ≡ some pem))
              (decrypted o t)
      go none e = (tt, h)
      go (some pem) e = ((f, refl, e), h)
