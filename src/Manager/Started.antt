-- ===== src/Manager/Started.antt =====
-- What `create_session` and `start_live_pty` do to the registry of runtimes,
-- crates/relayterm-terminal/src/manager.rs.
use relay_term.Prelude.{
  ℕ, ◌+◌, ◌≤◌, ◌<◌, ◌≡◌, ◌∙◌, refl, sym, ap, subst, Bool-cases, inl, inr, ◌⊎◌, Option, none, some,
  if◌then◌else◌, ◌==◌, is_some, ℕ_discrete, arith, Option-cases,
}
use mathlib.Core.Option
use relay_term.Prelude.Assoc.{get, modify, one_if, count_if, get-insert_self}
use relay_term.Prelude.Counts.{count_if-modify}
use relay_term.Sessions.{TerminalSession, is_closed}
use relay_term.Sessions
use relay_term.Manager.{
  Manager, RuntimeEntry, LiveRuntime, ClosedReason, Result, ok, err, ManagerError, M, after, ◌>>=◌,
  pure, fail, update, read, ignore_error, owned_session, update_status, call, next_fault,
  validate_dim, create_event, created, created_stub, invalid_cols, invalid_rows,
}
use relay_term.Manager
use relay_term.Manager.Lifecycle.{
  CreateRequest, create_session, new_entry, insert_row, register, if_open, registered,
  if_registered, install, go_live, candidate, start_live_pty,
}
use relay_term.Manager.Pty.{live_of_user, count_live_pty_for_user, count_live_pty_total}
use relay_term.Manager.Registry.{
  Still, SameRegistry, Still-owned_session, Still-if_open, Still-validate_dim, Still-insert_row,
  Still-create_event, Still-update_status,
}
use relay_term.Manager.Counts.{Within, Fewer-refl, Fewer-Within}

-- At most one entry has gone live, that of `id`.
pub record Starts (id : ℕ) (m t : Manager) : Type 0 where
  pub settings : t.settings ≡ m.settings
  pub runtimes :
      (t.runtimes ≡ m.runtimes)
      ⊎ ((l : LiveRuntime) × (t.runtimes ≡ modify ℕ_discrete id (go_live l) m.runtimes))

Starts-same : (id : ℕ) (m t v : Manager) → SameRegistry m t → Starts id t v → Starts id m v
Starts-same id m t v (s, r) h = record {
  settings = h.settings ∙ s;
  runtimes =
      subst
        (λ x.
          (v.runtimes ≡ x)
          ⊎ ((l : LiveRuntime) × (v.runtimes ≡ modify ℕ_discrete id (go_live l) x)))
        r h.runtimes;
}

module _ {A B : Type 0} (id : ℕ) where
  Starts-after :
      (r : Result A) (f : A → M B) (m t : Manager)
      → SameRegistry m t
      → ((a : A) (v : Manager) → Starts id v (f a v).1)
      → Starts id m (after r f t).1
  unfolding after
  Starts-after (ok a) f m t h k = Starts-same id m t _ h (k a t)
  Starts-after (err e) f m t (s, r) k = record { settings = s; runtimes = inl r }

  Starts-bind :
      (c : M A) (f : A → M B) (m : Manager)
      → Still c
      → ((a : A) (v : Manager) → Starts id v (f a v).1)
      → Starts id m ((c >>= f) m).1
  Starts-bind c f m h k = Starts-after (c m).0 f m (c m).1 (h.at m) k

Still-registered : (id : ℕ) → Still (registered id)
unfolding registered if_registered
Still-registered id = record { at = λ m. go (get ℕ_discrete id m.runtimes) m }
  where
    go : (o : Option RuntimeEntry) (m : Manager) → SameRegistry m (if_registered o m).1
    go none m = (refl, refl)
    go (some e) m = (refl, refl)

install-cases :
    (id handle : ℕ) (m : Manager)
    → (install id handle m ≡ (err Manager.not_found, m))
      ⊎ (install id handle m ≡ (
        ok tt,
        record m { runtimes = modify ℕ_discrete id (go_live (candidate handle m)) m.runtimes },
      ))
unfolding install registered if_registered after
install-cases id handle m = elim (Option-cases (get ℕ_discrete id m.runtimes)) [
  | inl e ↦ inl (rw (install, e) refl)
  | inr (v, e) ↦ inr (rw (install, e) refl)
]

pub start_live_pty-Starts :
    (owner_id id handle now : ℕ) (m : Manager)
    → Starts id m (start_live_pty owner_id id handle now m).1
unfolding start_live_pty after
start_live_pty-Starts owner_id id handle now m =
    Starts-bind id (owned_session owner_id id) _ m (Still-owned_session owner_id id) λ s a.
      Starts-bind id (if_open s) _ a (Still-if_open s) λ _ b.
        Starts-bind id (registered id) _ b (Still-registered id) λ _ c.
          Starts-bind id (update_status id Sessions.active none now) _ c
            (Still-update_status id _ _ _)
            λ _ d.
              Starts-bind id (owned_session owner_id id) _ d (Still-owned_session owner_id id)
                λ u e. installed u e
  where
    installed :
        (u : TerminalSession) (e : Manager) → Starts id e ((install id handle >>= λ _. pure u) e).1
    installed u e = elim (install-cases id handle e) [
      | inl x ↦ rw x (record { settings = refl; runtimes = inl refl })
      | inr x ↦ rw x (record { settings = refl; runtimes = inr (candidate handle e, refl) })
    ]

-- A new row: its entry is not live and is its owner's. An error has left the registry alone.
abbrev pub Created : ℕ → Manager → Result TerminalSession → Manager → Type 0
Created owner_id m (err e) t = SameRegistry m t
Created owner_id m (ok s) t =
    (t.settings ≡ m.settings)
    × (get ℕ_discrete s.id t.runtimes ≡ some (new_entry s))
    × (s.owner_id ≡ owner_id)

Created-same :
    (owner_id : ℕ) (m v : Manager) (r : Result TerminalSession) (t : Manager)
    → SameRegistry m v
    → Created owner_id v r t
    → Created owner_id m r t
Created-same owner_id m v (ok s) t (c, r) (settings, found, own) = (settings ∙ c, found, own)
Created-same owner_id m v (err e) t (c, r) (settings, runtimes) = (settings ∙ c, runtimes ∙ r)

abbrev On : {A : Type 0} → Result A → (A → Type 0) → Type 0
On (ok a) P = P a
On (err e) P = Unit

module _ {A : Type 0} (owner_id : ℕ) (Q : A → Type 0) where
  Created-after :
      (r : Result A) (f : A → M TerminalSession) (m t : Manager)
      → SameRegistry m t
      → On r Q
      → ((a : A) (v : Manager) → Q a → Created owner_id v (f a v).0 (f a v).1)
      → Created owner_id m (after r f t).0 (after r f t).1
  unfolding after
  Created-after (ok a) f m t h q k = Created-same owner_id m t _ _ h (k a t q)
  Created-after (err e) f m t h q k = h

  Created-bind :
      (c : M A) (f : A → M TerminalSession) (m : Manager)
      → Still c
      → On (c m).0 Q
      → ((a : A) (v : Manager) → Q a → Created owner_id v (f a v).0 (f a v).1)
      → Created owner_id m ((c >>= f) m).0 ((c >>= f) m).1
  Created-bind c f m h q k = Created-after (c m).0 f m (c m).1 (h.at m) q k

On-any : {A : Type 0} (r : Result A) → On r (λ _. Unit)
On-any (ok a) = tt
On-any (err e) = tt

inserted_owner :
    (id now : ℕ) (req : CreateRequest) (m : Manager)
    → On (insert_row id now req m).0 (λ s. s.owner_id ≡ req.owner_id)
unfolding insert_row call
inserted_owner id now req m = elim (Bool-cases (next_fault m.faults)) [
  | inl e ↦ rw e tt
  | inr e ↦ rw e refl
]

pub create_session-Created :
    (id now : ℕ) (req : CreateRequest) (m : Manager)
    → Created req.owner_id m (create_session id now req m).0 (create_session id now req m).1
unfolding create_session after register
create_session-Created id now req m =
    let any : ℕ → Type 0 = λ _. Unit in
    Created-bind req.owner_id (λ _. Unit) (validate_dim invalid_cols req.cols) _ m
      (Still-validate_dim _ _) (On-any _)
      λ _ a _.
        Created-bind req.owner_id (λ _. Unit) (validate_dim invalid_rows req.rows) _ a
          (Still-validate_dim _ _) (On-any _)
          λ _ b _.
            Created-bind req.owner_id (λ s. s.owner_id ≡ req.owner_id) (insert_row id now req) _ b
              (Still-insert_row id now req) (inserted_owner id now req b)
              λ s c own.
                Created-bind req.owner_id (λ _. Unit)
                  (create_event s.id created (created_stub s.cols s.rows)) _ c
                  (Still-create_event _ _ _) (On-any _)
                  λ _ d _. (refl, get-insert_self ℕ_discrete s.id (new_entry s) d.runtimes, own)

-- Room for one more live PTY of the owner.
pub record Room (owner_id : ℕ) (m : Manager) : Type 0 where
  pub user : count_live_pty_for_user owner_id m < m.settings.max_live_pty_per_user
  pub total : count_live_pty_total m < m.settings.max_live_pty_per_deployment

live_entry :
    (u : ℕ) (s : TerminalSession) (l : LiveRuntime)
    → (one_if (live_of_user u) (some (new_entry s)) ≡ 0)
      × (one_if (live_of_user u) (some (go_live l (new_entry s)))
          ≡ (if s.owner_id == u then 1 else 0))
unfolding live_of_user go_live
live_entry u s l = elim (Bool-cases (s.owner_id == u)) [
  | inl e ↦ rw e (refl, refl)
  | inr e ↦ rw e (refl, refl)
]

went_live-user :
    (id u : ℕ) (s : TerminalSession) (l : LiveRuntime) (m t : Manager)
    → get ℕ_discrete id m.runtimes ≡ some (new_entry s)
    → t.runtimes ≡ modify ℕ_discrete id (go_live l) m.runtimes
    → count_live_pty_for_user u t ≡ count_live_pty_for_user u m + (if s.owner_id == u then 1 else 0)
unfolding count_live_pty_for_user
went_live-user id u s l m t found e =
    let (before, after) = live_entry u s l in
    let counted : _ = count_if-modify (live_of_user u) ℕ_discrete id (go_live l) m.runtimes in
    let known : _ =
      subst
        (λ o.
          count_if (live_of_user u) (modify ℕ_discrete id (go_live l) m.runtimes)
            + one_if (live_of_user u) o
          ≡ count_if (live_of_user u) m.runtimes
            + one_if (live_of_user u) (Option.map (go_live l) o))
        found counted in
    ap (count_if (live_of_user u)) e ∙ omega (arith, known, before, after)

went_live-total :
    (id : ℕ) (s : TerminalSession) (l : LiveRuntime) (m t : Manager)
    → get ℕ_discrete id m.runtimes ≡ some (new_entry s)
    → t.runtimes ≡ modify ℕ_discrete id (go_live l) m.runtimes
    → count_live_pty_total t ≡ count_live_pty_total m + 1
unfolding count_live_pty_total go_live
went_live-total id s l m t found e =
    let counted : _ = count_if-modify (λ x. is_some x.live) ℕ_discrete id (go_live l) m.runtimes in
    let known : _ =
      subst
        (λ o.
          count_if (λ x. is_some x.live) (modify ℕ_discrete id (go_live l) m.runtimes)
            + one_if (λ x. is_some x.live) o
          ≡ count_if (λ x. is_some x.live) m.runtimes
            + one_if (λ x. is_some x.live) (Option.map (go_live l) o))
        found counted in
    ap (count_if (λ x. is_some x.live)) e ∙ omega (arith, known)

-- With room, the new PTY is within the ceilings.
pub Starts-Within :
    (owner_id id : ℕ) (s : TerminalSession) (m t : Manager)
    → Within m
    → Room owner_id m
    → get ℕ_discrete id m.runtimes ≡ some (new_entry s)
    → s.owner_id ≡ owner_id
    → Starts id m t
    → Within t
Starts-Within owner_id id s m t within room found own h = elim h.runtimes [
  | inl same ↦ Fewer-Within m t (Fewer-refl m t (h.settings, same)) within
  | inr (l, e) ↦ record {
    user = λ u.
        let more : _ = went_live-user id u s l m t found e in
        subst (λ c. count_live_pty_for_user u t ≤ c.max_live_pty_per_user) (sym h.settings)
          (elim (Bool-cases (s.owner_id == u)) [
            | inl x ↦
                let is_owner : u ≡ owner_id = ground arith in
                let one : _ = rw x at more in
                let free : count_live_pty_for_user u m < m.settings.max_live_pty_per_user =
                  subst (λ v. count_live_pty_for_user v m < m.settings.max_live_pty_per_user)
                    (sym is_owner) room.user in
                omega (arith, one, free)
            | inr x ↦ let none_new : _ = rw x at more in omega (arith, none_new, within.user u)
          ]);
    total =
        subst (λ c. count_live_pty_total t ≤ c.max_live_pty_per_deployment) (sym h.settings)
          (omega (arith, went_live-total id s l m t found e, room.total));
  }
]
