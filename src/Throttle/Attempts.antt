-- ===== src/Throttle/Attempts.antt =====
-- One recorded failure, from the entry of its key to the entry after it.
use relay_term.Prelude.{
  ℕ, ◌+◌, ◌⊎◌, inl, ◌≤◌, ◌<◌, ◌≡◌, ◌∙◌, ◌^◌, sym, ap, refl, not, Option, none, some, List, [], ◌∷◌,
  ◌++◌, arith, length, length-append, leb, if◌then◌else◌, All, keep_if,
}
use relay_term.Prelude.Assoc.{
  get, Distinct, get-retain, get-modify_self, get-insert_self, retain-Distinct, insert-Distinct,
  modify-Distinct, length-retain-le,
}
use relay_term.Throttle.{
  LoginThrottleConfig, LoginThrottler, AttemptState, new_state, extend_block, prune_window,
  in_window, is_blocked, is_idle, any_recent, add_failure, sweep, make_room, record_in,
  record_failure, max_tracked_keys,
}

-- Every time lies in one window that starts at `t0`.
abbrev pub InWindow : ℕ → ℕ → ℕ → Type 0
InWindow t0 window t = (t0 ≤ t) × (t < t0 + window)

abbrev pub Within : ℕ → ℕ → List ℕ → Type 0
Within t0 window = All (InWindow t0 window)

keep-Within :
    (t0 window now : ℕ) (ts : List ℕ)
    → Within t0 window ts
    → now < t0 + window
    → keep_if (in_window now window) ts ≡ ts
keep-Within t0 window now [] h lt = refl
keep-Within t0 window now (t ∷ ts) h lt = ground (arith, keep-Within t0 window now ts h.1)

-- The entry of a key after failures that have not blocked it.
abbrev pub unblocked : List ℕ → AttemptState
unblocked ts = record { failures = ts; blocked_until = none }

abbrev pub after_failure : LoginThrottleConfig → List ℕ → ℕ → AttemptState
after_failure c ts now = record {
  failures = ts ++ now ∷ [];
  blocked_until = if leb c.max_failures (length ts + 1) then some (now + c.block) else none;
}

add_failure-unblocked :
    (c : LoginThrottleConfig) (t0 now : ℕ) (ts : List ℕ)
    → c.max_failures < 2 ^ 32
    → length ts ≤ c.max_failures
    → Within t0 c.window ts
    → now < t0 + c.window
    → add_failure c now (unblocked ts) ≡ after_failure c ts now
unfolding add_failure prune_window extend_block
add_failure-unblocked c t0 now ts u32 le w lt =
    ground (arith, keep-Within t0 c.window now ts w, length-append ts (now ∷ []))

after_failure-soon :
    (c : LoginThrottleConfig) (ts : List ℕ) (now : ℕ)
    → length ts + 1 < c.max_failures
    → after_failure c ts now ≡ unblocked (ts ++ now ∷ [])
after_failure-soon c ts now h = ground arith

pub after_failure-full :
    (c : LoginThrottleConfig) (ts : List ℕ) (now : ℕ)
    → length ts + 1 ≡ c.max_failures
    → (after_failure c ts now).blocked_until ≡ some (now + c.block)
after_failure-full c ts now h = ground arith

module _ {K : Type 0} (dec : Discrete K) where
  pub make_room-Distinct :
      (l : LoginThrottler K) (now : ℕ) → Distinct dec l.map → Distinct dec (make_room dec l now)
  unfolding make_room sweep
  make_room-Distinct l now d =
      ground (arith, retain-Distinct dec (λ _ s. not (is_idle now l.config.window s)) l.map d)

  record_in-Distinct :
      (c : LoginThrottleConfig) (key : K) (now : ℕ) (m : List (K × AttemptState))
      (o : Option AttemptState)
      → Distinct dec m
      → Distinct dec (record_in dec c key now m o)
  unfolding record_in
  record_in-Distinct c key now m none d =
      ground (arith, insert-Distinct dec key (add_failure c now new_state) m d)
  record_in-Distinct c key now m (some s) d = modify-Distinct dec key (add_failure c now) m d

  pub record_failure-Distinct :
      (l : LoginThrottler K) (key : K) (now : ℕ)
      → Distinct dec l.map
      → Distinct dec (record_failure dec l key now).map
  unfolding record_failure
  record_failure-Distinct l key now d =
      record_in-Distinct l.config key now (make_room dec l now) _ (make_room-Distinct l now d)

  get-record_in :
      (c : LoginThrottleConfig) (key : K) (now : ℕ) (m : List (K × AttemptState)) (s : AttemptState)
      → get dec key m ≡ some s
      → get dec key (record_in dec c key now m (get dec key m)) ≡ some (add_failure c now s)
  unfolding record_in
  get-record_in c key now m s e =
      rw (e, record_in) (rw (get-modify_self dec key (add_failure c now) m, e))

  get-record_in_new :
      (c : LoginThrottleConfig) (key : K) (now : ℕ) (m : List (K × AttemptState))
      → get dec key m ≡ none
      → length m < max_tracked_keys
      → get dec key (record_in dec c key now m (get dec key m)) ≡ some (add_failure c now new_state)
  unfolding record_in
  get-record_in_new c key now m e room =
      rw (e, record_in) (ground (arith, get-insert_self dec key (add_failure c now new_state) m))

  -- What the map holds of a key whose failures so far are `ts`, none of which has blocked it.
  abbrev pub seen : List ℕ → Option AttemptState
  seen [] = none
  seen (t ∷ ts) = some (unblocked (t ∷ ts))

  pub record Tracked (l : LoginThrottler K) (key : K) (ts : List ℕ) : Type 0 where
    pub distinct : Distinct dec l.map
    pub entry : get dec key l.map ≡ seen ts
    pub room : (0 < length ts) ⊎ (length l.map < max_tracked_keys)

  pub length-make_room :
      (l : LoginThrottler K) (now : ℕ) → length (make_room dec l now) ≤ length l.map
  unfolding make_room sweep
  length-make_room l now =
      ground (arith, length-retain-le (λ _ s. not (is_idle now l.config.window s)) l.map)

  -- Making room keeps the entry: its failures are still in the window.
  make_room-seen :
      (l : LoginThrottler K) (key : K) (t0 now : ℕ) (ts : List ℕ)
      → Tracked l key ts
      → Within t0 l.config.window ts
      → now < t0 + l.config.window
      → get dec key (make_room dec l now) ≡ seen ts
  unfolding make_room sweep is_idle is_blocked any_recent
  make_room-seen l key t0 now [] k w lt =
      ground
        (arith, get-retain dec (λ _ s. not (is_idle now l.config.window s)) key l.map k.distinct)
  make_room-seen l key t0 now (t ∷ ts) k w lt =
      ground (
        arith,
        get-retain dec (λ _ s. not (is_idle now l.config.window s)) key l.map k.distinct,
        w.0,
      )

  pub record_failure-entry :
      (l : LoginThrottler K) (key : K) (t0 now : ℕ) (ts : List ℕ)
      → Tracked l key ts
      → l.config.max_failures < 2 ^ 32
      → length ts ≤ l.config.max_failures
      → Within t0 l.config.window ts
      → now < t0 + l.config.window
      → get dec key (record_failure dec l key now).map ≡ some (after_failure l.config ts now)
  unfolding record_failure
  record_failure-entry l key t0 now [] k u32 le w lt =
      get-record_in_new l.config key now (make_room dec l now)
        (make_room-seen l key t0 now [] k w lt) (omega (arith, k.room, length-make_room l now))
      ∙ ap some (add_failure-unblocked l.config t0 now [] u32 le w lt)
  record_failure-entry l key t0 now (t ∷ ts) k u32 le w lt =
      get-record_in l.config key now (make_room dec l now) (unblocked (t ∷ ts))
        (make_room-seen l key t0 now (t ∷ ts) k w lt)
      ∙ ap some (add_failure-unblocked l.config t0 now (t ∷ ts) u32 le w lt)

  seen-snoc : (ts : List ℕ) (now : ℕ) → seen (ts ++ now ∷ []) ≡ some (unblocked (ts ++ now ∷ []))
  seen-snoc [] now = refl
  seen-snoc (t ∷ ts) now = refl

  -- Below the threshold the failure is only noted.
  pub record_failure-Tracked :
      (l : LoginThrottler K) (key : K) (t0 now : ℕ) (ts : List ℕ)
      → Tracked l key ts
      → l.config.max_failures < 2 ^ 32
      → length ts + 1 < l.config.max_failures
      → Within t0 l.config.window ts
      → now < t0 + l.config.window
      → Tracked (record_failure dec l key now) key (ts ++ now ∷ [])
  record_failure-Tracked l key t0 now ts k u32 soon w lt' = record {
    distinct = record_failure-Distinct l key now k.distinct;
    entry =
        record_failure-entry l key t0 now ts k u32 (omega arith) w lt'
        ∙ ap some (after_failure-soon l.config ts now soon)
        ∙ sym (seen-snoc ts now);
    room = inl (omega (arith, length-append ts (now ∷ [])));
  }
