-- ===== src/Launch/Asked.antt =====
-- What the bridge is asked for: a target for the caller's own rows and trusted pins, or nothing,
-- `create` of crates/relayterm-api/src/routes/v1/terminal_sessions.rs.
use relay_term.Prelude.{
  ℕ, ◌≡◌, ◌∙◌, refl, sym, ap, subst, ◌⊎◌, inl, inr, List, ◌∷◌, All, keep_if, ◌==◌,
}
use relay_term.Prelude.Calls.{Result, ok, err, On, On-always, fail, update, after, ◌>>=◌, ◌>>◌}
use relay_term.Sessions.{TerminalSession}
use relay_term.Manager.{Manager, M}
use relay_term.Manager
use relay_term.Manager.Lifecycle.{create_session, start_live_pty}
use relay_term.Launch.{
  ServerProfile, Host, is_disabled, SshPtyTarget, SshPtyError, Services, Backend, L, LaunchError,
  select, ask, tell, result_of, accept_pins, conflict, server_profile,
}
use relay_term.Launch.Create.{
  CreateTerminalSessionRequest, own_profile, own_host, own_identity, some_pins, check_quotas,
  open_vault, bridged, target_of, start_session, launch,
}
use relay_term.Launch.Rightful.{
  TrustedPin, OwnRows, Rightful, pins-Trusted, Stable, Held, select-Held, found-Held,
  refuse_if-Held, some_pins-Held, check_quotas-Held, open_vault-Held,
}

-- The bridge was not asked and the call failed, or it was asked once, for this target, and a call that
-- returns got its PTY from it.
abbrev AskedOnce :
    Services
    → (SshPtyTarget → Type 0)
    → Backend
    → Result LaunchError TerminalSession × Backend
    → Type 0
AskedOnce services P s r =
    ((e : LaunchError) × (r.0 ≡ err e) × (r.1.started ≡ s.started))
    ⊎ ((t : SshPtyTarget) × (r.1.started ≡ t ∷ s.started)
        × P t
        × On r.0 (λ _. (handle : ℕ) × (services.start t ≡ ok handle)))

-- What a launch asks the bridge for.
unfoldable pub AsksRightly :
    Services → ℕ → ℕ → Backend → Result LaunchError TerminalSession × Backend → Type 0
AsksRightly services user_id profile_id s r =
    AskedOnce services (Rightful services user_id profile_id s) s r

module _ (services : Services) (user_id now : ℕ) where
  bridged-Asks :
      (id : ℕ) (r : Result SshPtyError ℕ) (t : Backend)
      → ((bridged services user_id id now r t).1.started ≡ t.started)
        × On (bridged services user_id id now r t).0 (λ _. (handle : ℕ) × (r ≡ ok handle))
  unfolding bridged ask tell fail after ◌>>=◌
  bridged-Asks id (ok handle) t = (
    refl,
    On-always _ (result_of (start_live_pty user_id id handle now t.manager).0)
        (λ _. (handle, refl)),
  )
  bridged-Asks id (err e) t = (refl, tt)

  module _ (id : ℕ) (req : CreateTerminalSessionRequest) (profile : ServerProfile) (host : Host)
      (pins : List (ℕ × ℕ)) (pem : List ℕ) where
    OfRequest : SshPtyTarget → Type 0
    OfRequest t = (session : TerminalSession) × (t ≡ target_of profile host pins pem session)

    abbrev started : TerminalSession → L TerminalSession
    started session =
        update (λ s. record s { started = target_of profile host pins pem session ∷ s.started })
        >>= λ _.
            bridged services user_id session.id now
              (services.start (target_of profile host pins pem session))

    created-Asks :
        (r : Manager.Result TerminalSession) (x : Manager) (t : Backend)
        → AskedOnce services OfRequest t (after (result_of r) started (record t { manager = x }))
    unfolding after result_of update ◌>>=◌ OfRequest
    created-Asks (Manager.ok session) x t =
        let target : SshPtyTarget = target_of profile host pins pem session in
        let rest =
          bridged-Asks session.id (services.start target)
            (record t { manager = x; started = target ∷ t.started }) in
        inr (target, rest.0, (session, refl), rest.1)
    created-Asks (Manager.err e) x t = inl (_, refl, refl)

    start_session-Asks :
        (t : Backend)
        → AskedOnce services OfRequest t
            (start_session services user_id id now req profile host pins pem t)
    unfolding start_session ask ◌>>=◌
    start_session-Asks t =
        let asked : _ = record {
          owner_id = user_id;
          server_profile_id = profile.id;
          cols = req.cols;
          rows = req.rows;
        } in
        created-Asks (create_session id now asked t.manager).0
          (create_session id now asked t.manager).1 t

module _ (services : Services) (user_id profile_id : ℕ) (s : Backend) where
  Asks : Result LaunchError TerminalSession × Backend → Type 0
  Asks r = AsksRightly services user_id profile_id s r

  -- A check that fails ends the launch before the bridge.
  check_Asks :
      {A : Type 0} (c : L A) (f : A → L TerminalSession) (Q : A → Type 0) (t : Backend)
      → Held s Q (c t)
      → ((a : A) (u : Backend) → Q a → Stable s u → Asks (f a u))
      → Asks ((c >>= f) t)
  unfolding ◌>>=◌ after Held Stable Asks AsksRightly
  check_Asks {A} c f Q t (q, h) k = go (c t).0 q
    where
      go : (r : Result LaunchError A) → On r Q → Asks (after r f (c t).1)
      go (ok a) q = k a (c t).1 q h
      go (err e) q = inl (e, refl, ap (λ x. x.started) h)

-- When every check has passed.
Rightful-Asks :
    (services : Services) (user_id id now : ℕ) (req : CreateTerminalSessionRequest)
    (profile : ServerProfile) (host : Host) (pins : List (ℕ × ℕ)) (pem : List ℕ) (s t : Backend)
    → ((session : TerminalSession)
        → Rightful services user_id req.server_profile_id s
            (target_of profile host pins pem session))
    → Stable s t
    → Asks services user_id req.server_profile_id s
        (start_session services user_id id now req profile host pins pem t)
unfolding Asks AsksRightly OfRequest Stable
Rightful-Asks services user_id id now req profile host pins pem s t rightful h =
    elim (start_session-Asks services user_id now id req profile host pins pem t) [
      | inl (e, failed, same) ↦ inl (e, failed, same ∙ ap (λ x. x.started) h)
      | inr (target, asked, (session, shape), bridge) ↦ inr (
        target,
        asked ∙ ap (λ x. target ∷ x.started) h,
        subst (Rightful services user_id req.server_profile_id s) (sym shape) (rightful session),
        bridge,
      )
    ]

-- What the launch does once it has read the three rows: the pins, the ceilings, the key, the bridge.
module _ (services : Services) (user_id id now : ℕ) (req : CreateTerminalSessionRequest)
    (s : Backend) (rows : OwnRows user_id req.server_profile_id s) where
  abbrev admit : L TerminalSession
  admit = do
    known ← select (λ x. keep_if (λ e. e.host_id == rows.host.id) x.pins)
    some_pins (accept_pins known)
    check_quotas user_id
    pem ← open_vault services.decrypt rows.identity.encrypted_private_key
    start_session services user_id id now req rows.profile rows.host (accept_pins known) pem

  admit-Asks : (t : Backend) → Stable s t → Asks services user_id req.server_profile_id s (admit t)
  unfolding Stable
  admit-Asks t h =
      check_Asks services user_id req.server_profile_id s _ _ _ t
        (select-Held s _ (λ _ h. ap (λ x. keep_if (λ e. e.host_id == rows.host.id) x.pins) h) t h)
        λ known e listed he.
          check_Asks services user_id req.server_profile_id s _ _ _ e
            (some_pins-Held s (accept_pins known) e he)
            λ _ f some_pin hf.
              check_Asks services user_id req.server_profile_id s _ _ _ f
                (check_quotas-Held s user_id f hf)
                λ _ g room hg.
                  check_Asks services user_id req.server_profile_id s _ _ _ g
                    (open_vault-Held s services.decrypt rows.identity.encrypted_private_key g hg)
                    λ pem v (decrypt, vault, private_key) hv.
                      Rightful-Asks services user_id id now req rows.profile rows.host
                        (accept_pins known) pem s v
                        (λ session. record {
                          rows = rows;
                          hostname = refl;
                          port = refl;
                          username = refl;
                          pinned =
                              subst (λ k. All (TrustedPin s.pins rows.host.id) (accept_pins k))
                                (sym listed) (pins-Trusted s.pins rows.host.id);
                          some_pin = some_pin;
                          decrypt = decrypt;
                          vault = vault;
                          private_key = private_key;
                          room = room;
                        })
                        hv

-- A launch asks the bridge at most once. It asks only for a target whose profile, host and identity are
-- the caller's own and whose profile is not disabled, at the address and with the user name of these rows,
-- with at least one pin, every one of which is a trusted entry of that host that is not revoked, and with
-- the decrypted key of that identity, and only while the caller and the deployment are below their ceilings.
-- A launch that ends before it is an error, and one that returns a session got its PTY from the bridge.
pub launch-AsksRightly :
    (services : Services) (user_id id now : ℕ) (req : CreateTerminalSessionRequest) (s : Backend)
    → AsksRightly services user_id req.server_profile_id s (launch services user_id id now req s)
unfolding launch own_profile own_host own_identity Asks Stable
launch-AsksRightly services user_id id now req s =
    check_Asks services user_id req.server_profile_id s _ _ _ s
      (found-Held s (λ x. x.profiles) _ user_id req.server_profile_id
        (λ _ h. ap (λ x. x.profiles) h) s refl)
      λ profile a (stored_profile, own_profile) ha.
        check_Asks services user_id req.server_profile_id s _ _ _ a
          (refuse_if-Held s (is_disabled profile) (conflict server_profile) a ha)
          λ _ b enabled hb.
            check_Asks services user_id req.server_profile_id s _ _ _ b
              (found-Held s (λ x. x.hosts) _ user_id profile.host_id (λ _ h. ap (λ x. x.hosts) h) b
                hb)
              λ host c (stored_host, own_host) hc.
                check_Asks services user_id req.server_profile_id s _ _ _ c
                  (found-Held s (λ x. x.identities) _ user_id profile.ssh_identity_id
                    (λ _ h. ap (λ x. x.identities) h) c hc)
                  λ identity d (stored_identity, own_identity) hd.
                    admit-Asks services user_id id now req s
                      (record {
                        profile = profile;
                        host = host;
                        identity = identity;
                        stored_profile = stored_profile;
                        own_profile = own_profile;
                        enabled = enabled;
                        stored_host = stored_host;
                        own_host = own_host;
                        stored_identity = stored_identity;
                        own_identity = own_identity;
                      })
                      d hd
