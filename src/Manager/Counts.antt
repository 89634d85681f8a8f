-- ===== src/Manager/Counts.antt =====
-- The handlers of the manager never raise the number of live PTYs above its ceilings, but for
-- `start_live_pty`, which needs room for one more, crates/relayterm-terminal/src/manager.rs.
use relay_term.Prelude.{
  ℕ, ◌≤◌, ◌≡◌, ◌∙◌, refl, sym, subst, Bool, true, false, none, if◌then◌else◌, is_some, ℕ_discrete,
  arith,
}
use relay_term.Prelude.Assoc.{insert, remove, modify}
use relay_term.Prelude.Counts.{count_if-modify-le, count_if-remove-le, count_if-insert-le}
use relay_term.Manager.{
  Manager, RuntimeEntry, Result, ok, err, M, after, ◌>>=◌, update, ignore_error,
}
use relay_term.Manager.Pty.{live_of_user, count_live_pty_for_user, count_live_pty_total}
use relay_term.Manager.Registry.{Still, SameRegistry}

-- No user and not the deployment has more live PTYs than its ceiling.
pub record Within (m : Manager) : Type 0 where
  pub user : (u : ℕ) → count_live_pty_for_user u m ≤ m.settings.max_live_pty_per_user
  pub total : count_live_pty_total m ≤ m.settings.max_live_pty_per_deployment

-- `t` has no more live PTYs than `m`, of any user and in all.
pub record Fewer (m t : Manager) : Type 0 where
  pub settings : t.settings ≡ m.settings
  pub user : (u : ℕ) → count_live_pty_for_user u t ≤ count_live_pty_for_user u m
  pub total : count_live_pty_total t ≤ count_live_pty_total m

pub Fewer-refl : (m t : Manager) → SameRegistry m t → Fewer m t
unfolding count_live_pty_for_user count_live_pty_total
Fewer-refl m t (s, r) = record {
  settings = s;
  user = λ u. rw r (omega arith);
  total = rw r (omega arith);
}

pub Fewer-trans : (m t v : Manager) → Fewer m t → Fewer t v → Fewer m v
Fewer-trans m t v h k = record {
  settings = k.settings ∙ h.settings;
  user = λ u. omega (arith, h.user u, k.user u);
  total = omega (arith, h.total, k.total);
}

pub Fewer-Within : (m t : Manager) → Fewer m t → Within m → Within t
Fewer-Within m t h k = record {
  user = λ u.
      subst (λ c. count_live_pty_for_user u t ≤ c.max_live_pty_per_user) (sym h.settings)
        (omega (arith, h.user u, k.user u));
  total =
      subst (λ c. count_live_pty_total t ≤ c.max_live_pty_per_deployment) (sym h.settings)
        (omega (arith, h.total, k.total));
}

-- A call that leaves no more live PTYs.
pub record Lowers {A : Type 0} (c : M A) : Type 0 where
  pub at : (m : Manager) → Fewer m (c m).1

module _ {A : Type 0} where
  pub Lowers-Still : (c : M A) → Still c → Lowers c
  Lowers-Still c h = record { at = λ m. Fewer-refl m (c m).1 (h.at m) }

  pub Lowers-if : (b : Bool) (c d : M A) → Lowers c → Lowers d → Lowers (if b then c else d)
  Lowers-if true c d h k = h
  Lowers-if false c d h k = k

  pub Lowers-ignore : (c : M A) → Lowers c → Lowers (ignore_error c)
  Lowers-ignore c h = record { at = h.at }

module _ {A B : Type 0} where
  Lowers-after :
      (r : Result A) (f : A → M B) (m t : Manager)
      → Fewer m t
      → ((a : A) → Lowers (f a))
      → Fewer m (after r f t).1
  unfolding after
  Lowers-after (ok a) f m t h k = Fewer-trans m t _ h ((k a).at t)
  Lowers-after (err e) f m t h k = h

  pub Lowers-bind : (c : M A) (f : A → M B) → Lowers c → ((a : A) → Lowers (f a)) → Lowers (c >>= f)
  Lowers-bind c f h k = record { at = λ m. Lowers-after (c m).0 f m (c m).1 (h.at m) k }

pub Lowers-update : (f : Manager → Manager) → ((m : Manager) → Fewer m (f m)) → Lowers (update f)
Lowers-update f h = record { at = h }

-- A change of entries that makes nothing live and changes no owner.
pub record Tame (f : RuntimeEntry → RuntimeEntry) : Type 0 where
  pub owner : (e : RuntimeEntry) → (f e).snapshot.owner_id ≡ e.snapshot.owner_id
  pub live : (e : RuntimeEntry) → is_some (f e).live ≡ true → is_some e.live ≡ true

Tame-user :
    (f : RuntimeEntry → RuntimeEntry) (u : ℕ) (e : RuntimeEntry)
    → Tame f
    → live_of_user u (f e) ≡ true
    → live_of_user u e ≡ true
unfolding live_of_user
Tame-user f u e t h =
    let still : is_some e.live ≡ true = t.live e (ground arith) in
    let own : (f e).snapshot.owner_id ≡ e.snapshot.owner_id = t.owner e in ground arith

pub modify-Fewer :
    (id : ℕ) (f : RuntimeEntry → RuntimeEntry) (m : Manager)
    → Tame f
    → Fewer m (record m { runtimes = modify ℕ_discrete id f m.runtimes })
unfolding count_live_pty_for_user count_live_pty_total
modify-Fewer id f m t = record {
  settings = refl;
  user = λ u. count_if-modify-le _ ℕ_discrete id f m.runtimes (λ e. Tame-user f u e t);
  total = count_if-modify-le _ ℕ_discrete id f m.runtimes t.live;
}

pub remove-Fewer :
    (id : ℕ) (m : Manager) → Fewer m (record m { runtimes = remove ℕ_discrete id m.runtimes })
unfolding count_live_pty_for_user count_live_pty_total
remove-Fewer id m = record {
  settings = refl;
  user = λ u. count_if-remove-le _ ℕ_discrete id m.runtimes;
  total = count_if-remove-le _ ℕ_discrete id m.runtimes;
}

pub insert-Fewer :
    (id : ℕ) (e : RuntimeEntry) (m : Manager)
    → e.live ≡ none
    → Fewer m (record m { runtimes = insert ℕ_discrete id e m.runtimes })
unfolding count_live_pty_for_user count_live_pty_total live_of_user
insert-Fewer id e m dead = record {
  settings = refl;
  user = λ u. count_if-insert-le _ ℕ_discrete id e m.runtimes (rw dead (ground arith));
  total = count_if-insert-le _ ℕ_discrete id e m.runtimes (rw dead refl);
}
