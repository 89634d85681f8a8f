-- ===== src/Launch/Quota.antt =====
-- The ceilings on live PTYs hold at all times, crates/relayterm-api/src/routes/v1/terminal_sessions.rs
-- and crates/relayterm-terminal/src/manager.rs.
use relay_term.Prelude.{
  ℕ, ◌<◌, ◌≡◌, refl, sym, subst, Bool, Bool-cases, false, inl, inr, Option, none, some, List, [],
  ◌∷◌, leb, arith, ℕ_discrete,
}
use relay_term.Prelude.Assoc.{get}
use relay_term.Prelude.Calls.{
  Result, ok, err, On, On-always, Keeps, keeps_rules, Yields, pure, fail, read, update, after,
  ◌>>=◌,
}
use relay_term.Sessions.{TerminalSession}
use relay_term.Manager.{Manager, M}
use relay_term.Manager
use relay_term.Manager.Lifecycle.{new_entry, create_session}
use relay_term.Manager.Pty.{count_live_pty_for_user, count_live_pty_total, count_starting_for_user}
use relay_term.Manager.Counts.{Within, Fewer, Fewer-Within, Lowers}
use relay_term.Manager.Lowered.{Lowers-create_session, Lowers-record_pty_start_failed}
use relay_term.Manager.Started.{
  Created, create_session-Created, start_live_pty-Starts, Room, Starts-Within,
}
use relay_term.Launch.{
  ServerProfile, Host, SshPtyError, Services, Backend, L, LaunchError, select, ask, tell, result_of,
  next_fault, map_pty_start_error, is_disabled, conflict, server_profile, accept_pins,
}
use relay_term.Launch.Create.{
  CreateTerminalSessionRequest, own_row, own_profile, own_host, own_identity, refuse_if, some_pins,
  check_quotas, decrypted, open_vault, bridged, start_session, launch, target_of,
}

unfoldable pub Bounded : Backend → Type 0
Bounded s = Within s.manager

pub ask-Bounded : {A : Type 0} (c : M A) → Lowers c → Keeps Bounded (ask c)
unfolding ask Bounded
ask-Bounded c h = record { at = λ s w. Fewer-Within s.manager (c s.manager).1 (h.at s.manager) w }

tell-Bounded : {A : Type 0} (c : M A) → Lowers c → Keeps Bounded (tell c)
unfolding tell Bounded
tell-Bounded c h = record { at = λ s w. Fewer-Within s.manager (c s.manager).1 (h.at s.manager) w }

select-Bounded : {A : Type 0} (f : Backend → A) → Keeps Bounded (select f)
unfolding select Bounded
select-Bounded f = record {
  at = λ s w. elim (Bool-cases (next_fault s.faults)) [
    | inl e ↦ rw (select, e) w
    | inr e ↦ rw (select, e) w
  ];
}

own_row-Bounded :
    {A : Type 0} (owner : A → ℕ) (user_id : ℕ) (o : Option A)
    → Keeps Bounded (own_row owner user_id o)
unfolding own_row
own_row-Bounded owner user_id none = search keeps_rules
own_row-Bounded owner user_id (some a) = search keeps_rules

own_profile-Bounded : (user_id id : ℕ) → Keeps Bounded (own_profile user_id id)
unfolding own_profile
own_profile-Bounded user_id id = search (keeps_rules, select-Bounded, own_row-Bounded)

own_host-Bounded : (user_id id : ℕ) → Keeps Bounded (own_host user_id id)
unfolding own_host
own_host-Bounded user_id id = search (keeps_rules, select-Bounded, own_row-Bounded)

own_identity-Bounded : (user_id id : ℕ) → Keeps Bounded (own_identity user_id id)
unfolding own_identity
own_identity-Bounded user_id id = search (keeps_rules, select-Bounded, own_row-Bounded)

refuse_if-Bounded : (b : Bool) (e : LaunchError) → Keeps Bounded (refuse_if b e)
unfolding refuse_if
refuse_if-Bounded b e = search keeps_rules

some_pins-Bounded : (pins : List (ℕ × ℕ)) → Keeps Bounded (some_pins pins)
unfolding some_pins
some_pins-Bounded [] = search keeps_rules
some_pins-Bounded (p ∷ ps) = search keeps_rules

module _ {A B : Type 0} (c : L A) (f : A → L B) (s : Backend) where
  -- A check that establishes `R`.
  then_Bounded :
      (R : A → Backend → Type 0)
      → Bounded (c s).1
      → Yields R (c s)
      → ((a : A) (t : Backend) → Bounded t → R a t → Bounded (f a t).1)
      → Bounded ((c >>= f) s).1
  unfolding ◌>>=◌ after
  then_Bounded R w h k = go (c s).0 h
    where
      go : (r : Result LaunchError A) → On r (λ a. R a (c s).1) → Bounded (after r f (c s).1).1
      go (ok a) h = k a (c s).1 w h
      go (err e) h = w

  keep_Bounded :
      Keeps Bounded c
      → Bounded s
      → ((a : A) (t : Backend) → Bounded t → Bounded (f a t).1)
      → Bounded ((c >>= f) s).1
  unfolding ◌>>=◌ after
  keep_Bounded h w k = go (c s).0
    where
      go : (r : Result LaunchError A) → Bounded (after r f (c s).1).1
      go (ok a) = k a (c s).1 (h.at s w)
      go (err e) = h.at s w

below : (a b : ℕ) → leb a b ≡ false → b < a
below a b h = ground arith

-- When the ceilings are not reached, there is room.
pub check_quotas-Roomy :
    (user_id : ℕ) (s : Backend)
    → ((check_quotas user_id s).1 ≡ s)
      × Yields (λ _ t. Room user_id t.manager) (check_quotas user_id s)
unfolding check_quotas refuse_if fail pure read after ◌>>=◌
check_quotas-Roomy user_id s =
    let m : Manager = s.manager in
    elim (Bool-cases (leb m.settings.max_live_pty_per_user (count_live_pty_for_user user_id m))) [
      | inl e ↦ rw e (refl, tt)
      | inr e ↦
          rw e
            (elim (Bool-cases
              (leb m.settings.max_live_pty_per_deployment (count_live_pty_total m))) [
                | inl x ↦ rw x (refl, tt)
                | inr x ↦
                    rw x
                      (elim (Bool-cases (
                        leb m.settings.max_starting_per_user (count_starting_for_user user_id m))) [
                          | inl y ↦ rw y (refl, tt)
                          | inr y ↦ rw y (refl, record { user = below _ _ e; total = below _ _ x })
                        ])
              ])
    ]

open_vault-same :
    (d : Option (List ℕ → Option (List ℕ))) (key : List ℕ) (s : Backend)
    → (open_vault d key s).1 ≡ s
unfolding open_vault decrypted fail pure
open_vault-same none key s = refl
open_vault-same (some decrypt) key s = go (decrypt key)
  where
    go : (o : Option (List ℕ)) → (decrypted o s).1 ≡ s
    go none = refl
    go (some pem) = refl

module _ (services : Services) (user_id now : ℕ) where
  -- The bridge has a PTY, or has none.
  bridged-Bounded :
      (session : TerminalSession) (r : Result SshPtyError ℕ) (t : Backend)
      → Bounded t
      → Room user_id t.manager
      → get ℕ_discrete session.id t.manager.runtimes ≡ some (new_entry session)
      → session.owner_id ≡ user_id
      → Bounded (bridged services user_id session.id now r t).1
  unfolding bridged ask tell fail after ◌>>=◌ Bounded
  bridged-Bounded session (ok handle) t w room found own =
      Starts-Within user_id session.id session t.manager _ w room found own
        (start_live_pty-Starts user_id session.id handle now t.manager)
  bridged-Bounded session (err e) t w room found own =
      Fewer-Within t.manager _
        ((Lowers-record_pty_start_failed user_id session.id
            (services.text (map_pty_start_error e).1) now).at
          t.manager)
        w

  Room-Fewer : (m t : Manager) → Fewer m t → Room user_id m → Room user_id t
  Room-Fewer m t h room = record {
    user =
        subst (λ c. count_live_pty_for_user user_id t < c.max_live_pty_per_user) (sym h.settings)
          (omega (arith, h.user user_id, room.user));
    total =
        subst (λ c. count_live_pty_total t < c.max_live_pty_per_deployment) (sym h.settings)
          (omega (arith, h.total, room.total));
  }

  module _ (id : ℕ) (req : CreateTerminalSessionRequest) (profile : ServerProfile) (host : Host)
      (pins : List (ℕ × ℕ)) (pem : List ℕ) where
    abbrev started : TerminalSession → L TerminalSession
    started session =
        update (λ s. record s { started = target_of profile host pins pem session ∷ s.started })
        >>= λ _.
            bridged services user_id session.id now
              (services.start (target_of profile host pins pem session))

    Created-Bounded :
        (r : Manager.Result TerminalSession) (x : Manager) (t : Backend)
        → Fewer t.manager x
        → Created user_id t.manager r x
        → Bounded t
        → Room user_id t.manager
        → Bounded (after (result_of r) started (record t { manager = x })).1
    unfolding after result_of Bounded update ◌>>=◌
    Created-Bounded (Manager.ok session) x t fewer (settings, found, own) w room =
        bridged-Bounded session _ _ (Fewer-Within t.manager x fewer w)
          (Room-Fewer t.manager x fewer room) found own
    Created-Bounded (Manager.err e) x t fewer same w room = Fewer-Within t.manager x fewer w

    start_session-Bounded :
        (t : Backend)
        → Bounded t
        → Room user_id t.manager
        → Bounded (start_session services user_id id now req profile host pins pem t).1
    unfolding start_session ask ◌>>=◌
    start_session-Bounded t w room =
        let asked : _ = record {
          owner_id = user_id;
          server_profile_id = profile.id;
          cols = req.cols;
          rows = req.rows;
        } in
        Created-Bounded (create_session id now asked t.manager).0
          (create_session id now asked t.manager).1 t
          ((Lowers-create_session id now asked).at t.manager)
          (create_session-Created id now asked t.manager) w room

pub launch-Bounded :
    (services : Services) (user_id id now : ℕ) (req : CreateTerminalSessionRequest) (s : Backend)
    → Bounded s
    → Bounded (launch services user_id id now req s).1
unfolding launch
launch-Bounded services user_id id now req s w =
    keep_Bounded _ _ s (own_profile-Bounded user_id req.server_profile_id) w λ profile a wa.
      keep_Bounded _ _ a (refuse_if-Bounded (is_disabled profile) (conflict server_profile)) wa
        λ _ b wb. keep_Bounded _ _ b (own_host-Bounded user_id profile.host_id) wb λ host c wc.
          keep_Bounded _ _ c (own_identity-Bounded user_id profile.ssh_identity_id) wc
            λ identity d wd. keep_Bounded _ _ d (select-Bounded _) wd λ known e we.
              keep_Bounded _ _ e (some_pins-Bounded (accept_pins known)) we λ _ f wf.
                let (same, room) = check_quotas-Roomy user_id f in
                then_Bounded (check_quotas user_id) _ f (λ _ t. Room user_id t.manager)
                  (subst Bounded (sym same) wf) room
                  λ _ g wg roomy.
                    let vault : (open_vault services.decrypt identity.encrypted_private_key g).1
                        ≡ g =
                      open_vault-same services.decrypt identity.encrypted_private_key g in
                    then_Bounded (open_vault services.decrypt identity.encrypted_private_key) _ g
                      (λ _ t. Room user_id t.manager) (subst Bounded (sym vault) wg)
                      (On-always _ _ (λ _. subst (λ t. Room user_id t.manager) (sym vault) roomy))
                      λ pem v wv rv.
                        start_session-Bounded services user_id now id req profile host
                          (accept_pins known) pem v wv rv
