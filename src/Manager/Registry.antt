-- ===== src/Manager/Registry.antt =====
-- The calls that leave the registry of runtimes and the settings alone,
-- crates/relayterm-terminal/src/manager.rs.
use relay_term.Prelude.{
  ℕ, ◌≡◌, ◌∙◌, refl, Bool, Bool-cases, true, false, inl, inr, Option, none, some, if◌then◌else◌,
}
use relay_term.Sessions.{TerminalSession, TerminalSessionAttachment, TerminalSessionStatus, Store}
use relay_term.Manager.{
  Manager, Result, ok, err, ManagerError, M, after, ◌>>=◌, pure, fail, update, read, ignore_error,
  call, next_fault, later_faults, if_owned, owned_session, if_of_session, attachment_of, put_store,
  update_status, update_detached, create_event, SessionEventKind, EventPayload, validate_dim,
}
use relay_term.Manager.Lifecycle.{if_open, CreateRequest, insert_row, drop_attachments}
use relay_term.Manager.Attach.{unregister, detach_new, detach_again, detach_session}

-- The settings and the runtimes of `t` are those of `m`.
abbrev pub SameRegistry : Manager → Manager → Type 0
SameRegistry m t = (t.settings ≡ m.settings) × (t.runtimes ≡ m.runtimes)

pub record Still {A : Type 0} (c : M A) : Type 0 where
  pub at : (m : Manager) → SameRegistry m (c m).1

module _ {A : Type 0} where
  pub Still-pure : (a : A) → Still (pure a)
  Still-pure a = record { at = λ m. (refl, refl) }

  pub Still-fail : (e : ManagerError) → Still (fail {A = A} e)
  Still-fail e = record { at = λ m. (refl, refl) }

  pub Still-read : (f : Manager → A) → Still (read f)
  Still-read f = record { at = λ m. (refl, refl) }

  pub Still-if : (b : Bool) (c d : M A) → Still c → Still d → Still (if b then c else d)
  Still-if true c d h k = h
  Still-if false c d h k = k

  pub Still-call : (c : M A) → Still c → Still (call c)
  unfolding call
  Still-call c h = record {
    at = λ m. elim (Bool-cases (next_fault m.faults)) [
      | inl e ↦ rw e (refl, refl)
      | inr e ↦ rw e (h.at (record m { faults = later_faults m.faults }))
    ];
  }

  pub Still-ignore : (c : M A) → Still c → Still (ignore_error c)
  Still-ignore c h = record { at = h.at }

module _ {A B : Type 0} where
  Still-after :
      (r : Result A) (f : A → M B) (m t : Manager)
      → SameRegistry m t
      → ((a : A) → Still (f a))
      → SameRegistry m (after r f t).1
  unfolding after
  Still-after (ok a) f m t (s, r) k = let (u, v) = (k a).at t in (u ∙ s, v ∙ r)
  Still-after (err e) f m t same k = same

  pub Still-bind : (c : M A) (f : A → M B) → Still c → ((a : A) → Still (f a)) → Still (c >>= f)
  Still-bind c f h k = record { at = λ m. Still-after (c m).0 f m (c m).1 (h.at m) k }

pub ruleset still_rules =
    (Still-pure, Still-fail, Still-read, Still-if, Still-call, Still-ignore, Still-bind)

Still-if_owned : (owner_id : ℕ) (o : Option TerminalSession) → Still (if_owned owner_id o)
unfolding if_owned
Still-if_owned owner_id none = search still_rules
Still-if_owned owner_id (some s) = search still_rules

pub Still-owned_session : (owner_id id : ℕ) → Still (owned_session owner_id id)
unfolding owned_session
Still-owned_session owner_id id = search (still_rules, Still-if_owned)

Still-if_of_session :
    (session_id : ℕ) (o : Option TerminalSessionAttachment) → Still (if_of_session session_id o)
unfolding if_of_session
Still-if_of_session session_id none = search still_rules
Still-if_of_session session_id (some a) = search still_rules

Still-attachment_of : (session_id id : ℕ) → Still (attachment_of session_id id)
unfolding attachment_of
Still-attachment_of session_id id = search (still_rules, Still-if_of_session)

-- A change of anything else.
pub Still-update :
    (f : Manager → Manager) → ((m : Manager) → SameRegistry m (f m)) → Still (update f)
Still-update f h = record { at = h }

put_store-same : (o : Manager → Option Store) (m : Manager) → SameRegistry m (put_store (o m) m).1
unfolding put_store
put_store-same o m = go (o m)
  where
    go : (s : Option Store) → SameRegistry m (put_store s m).1
    go none = (refl, refl)
    go (some s) = (refl, refl)

Still-put : (o : Manager → Option Store) → Still (λ m. put_store (o m) m)
Still-put o = record { at = put_store-same o }

pub Still-update_status :
    (id : ℕ) (status : TerminalSessionStatus) (closed_at : Option ℕ) (now : ℕ)
    → Still (update_status id status closed_at now)
unfolding update_status
Still-update_status id status closed_at now = Still-call _ (Still-put _)

Still-update_detached :
    (id now : ℕ) (last_seen_seq : Option ℕ) → Still (update_detached id now last_seen_seq)
unfolding update_detached
Still-update_detached id now last_seen_seq = Still-call _ (Still-put _)

pub Still-create_event :
    (id : ℕ) (kind : SessionEventKind) (payload : EventPayload)
    → Still (create_event id kind payload)
unfolding create_event
Still-create_event id kind payload = Still-call _ (Still-update _ (λ m. (refl, refl)))

pub Still-validate_dim : (e : ManagerError) (value : ℕ) → Still (validate_dim e value)
unfolding validate_dim
Still-validate_dim e value = search still_rules

pub Still-if_open : (s : TerminalSession) → Still (if_open s)
unfolding if_open
Still-if_open s = search still_rules

pub Still-insert_row : (id now : ℕ) (req : CreateRequest) → Still (insert_row id now req)
unfolding insert_row
Still-insert_row id now req = Still-call _ (record { at = λ m. (refl, refl) })

pub Still-drop_attachments : (id : ℕ) → Still (drop_attachments id)
unfolding drop_attachments
Still-drop_attachments id = Still-update _ (λ m. (refl, refl))

Still-unregister : (id : ℕ) → Still (unregister id)
unfolding unregister
Still-unregister id = Still-update _ (λ m. (refl, refl))

-- A client that only leaves its row.
pub Still-detach_session :
    (owner_id session_id attachment_id : ℕ) (last_seen_seq : Option ℕ) (now : ℕ)
    → Still (detach_session owner_id session_id attachment_id last_seen_seq now)
unfolding detach_session detach_new detach_again
Still-detach_session owner_id session_id attachment_id last_seen_seq now =
    search
      (
        still_rules, Still-owned_session, Still-attachment_of, Still-update_detached,
        Still-create_event, Still-unregister,
      )
      depth 12
