-- ===== src/Throttle/Blocks.antt =====
-- Failures of one key do not touch the blocks of another, and no call shortens a block.
use relay_term.Prelude.{
  ℕ, ◌+◌, ◌≤◌, ◌≡◌, ◌≢◌, ◌∙◌, sym, ap, refl, not, Option, none, some, Option-cases, Bool-cases, inl,
  inr, List, arith, length, leb, ite, if_pos, if_neg,
}
use relay_term.Prelude.Assoc.{
  get, Distinct, get-retain, get-remove_self, get-remove_ne, get-modify_self, get-modify_ne,
  get-insert_ne, keep_value,
}
use relay_term.Throttle.{
  LoginThrottleConfig, LoginThrottler, AttemptState, ThrottleDecision, allowed, throttled,
  new_state, decide_at, extend_block, is_blocked, is_idle, add_failure, check, sweep, make_room,
  record_in, record_failure, record_success, cleanup,
}

-- What `check` says of an entry.
abbrev pub verdict : ℕ → Option AttemptState → ThrottleDecision
verdict t none = allowed
verdict t (some s) = decide_at t s.blocked_until

-- An entry that cleanup may drop at `now` blocks nothing from then on.
idle-verdict :
    (now t window : ℕ) (o : Option AttemptState)
    → now ≤ t
    → verdict t (keep_value (λ s. not (is_idle now window s)) o) ≡ verdict t o
unfolding is_idle is_blocked decide_at
idle-verdict now t window none h = refl
idle-verdict now t window (some s) h = ground arith

-- The second decision blocks at least as long as the first.
abbrev pub Keeps : ThrottleDecision → ThrottleDecision → Type 0
Keeps allowed d = Unit {0}
Keeps (throttled n) allowed = ⊥
Keeps (throttled n) (throttled m) = n ≤ m

Keeps-refl : (d : ThrottleDecision) → Keeps d d
Keeps-refl allowed = tt
Keeps-refl (throttled n) = omega arith

decide_at_mono :
    (t prev until : ℕ) → prev ≤ until → Keeps (decide_at t (some prev)) (decide_at t (some until))
unfolding decide_at
decide_at_mono t prev until h = ground arith

extend_block-le : (prev until : ℕ) → prev ≤ extend_block (some prev) until
unfolding extend_block
extend_block-le prev until = ground arith

extended-Keeps :
    (t until : ℕ) (o : Option ℕ) → Keeps (decide_at t o) (decide_at t (some (extend_block o until)))
unfolding decide_at
extended-Keeps t until none = tt
extended-Keeps t until (some prev) = decide_at_mono t prev _ (extend_block-le prev until)

-- A failure never shortens the block of its own entry.
add_failure-Keeps :
    (c : LoginThrottleConfig) (now t : ℕ) (s : AttemptState)
    → Keeps (decide_at t s.blocked_until) (decide_at t (add_failure c now s).blocked_until)
unfolding add_failure
add_failure-Keeps c now t s =
    elim (Bool-cases (leb c.max_failures (length (add_failure c now s).failures))) [
      | inl over ↦ rw (over, add_failure) (extended-Keeps t (now + c.block) s.blocked_until)
      | inr under ↦ rw (under, add_failure) (Keeps-refl (decide_at t s.blocked_until))
    ]

module _ {K : Type 0} (dec : Discrete K) where
  pub check-verdict :
      (l : LoginThrottler K) (j : K) (t : ℕ) → check dec l j t ≡ verdict t (get dec j l.map)
  unfolding check
  check-verdict l j t = elim (Option-cases (get dec j l.map)) [
    | inl e ↦ rw (e, check) refl
    | inr (s, e) ↦ rw (e, check) refl
  ]

  sweep-verdict :
      (l : LoginThrottler K) (j : K) (now t : ℕ)
      → Distinct dec l.map
      → now ≤ t
      → verdict t (get dec j (sweep dec l now)) ≡ verdict t (get dec j l.map)
  unfolding sweep
  sweep-verdict l j now t d h =
      rw (get-retain dec (λ _ s. not (is_idle now l.config.window s)) j l.map d)
        (idle-verdict now t l.config.window (get dec j l.map) h)

  pub make_room-verdict :
      (l : LoginThrottler K) (j : K) (now t : ℕ)
      → Distinct dec l.map
      → now ≤ t
      → verdict t (get dec j (make_room dec l now)) ≡ verdict t (get dec j l.map)
  unfolding make_room
  make_room-verdict l j now t d h = ground (arith, sweep-verdict l j now t d h)

  -- A cleanup changes no decision from its time on.
  pub check-cleanup :
      (l : LoginThrottler K) (j : K) (now t : ℕ)
      → Distinct dec l.map
      → now ≤ t
      → check dec (cleanup dec l now) j t ≡ check dec l j t
  unfolding cleanup
  check-cleanup l j now t d h =
      check-verdict (cleanup dec l now) j t
      ∙ sweep-verdict l j now t d h
      ∙ sym (check-verdict l j t)

  get-record_in_ne :
      (c : LoginThrottleConfig) (key j : K) (now : ℕ) (m : List (K × AttemptState))
      (o : Option AttemptState)
      → key ≢ j
      → get dec j (record_in dec c key now m o) ≡ get dec j m
  unfolding record_in
  get-record_in_ne c key j now m none h =
      ground (arith, get-insert_ne dec key j (add_failure c now new_state) m h)
  get-record_in_ne c key j now m (some s) h = get-modify_ne dec key j (add_failure c now) m h

  record_in-Keeps :
      (c : LoginThrottleConfig) (key : K) (now t : ℕ) (m : List (K × AttemptState))
      (o : Option AttemptState)
      → get dec key m ≡ o
      → Keeps (verdict t o) (verdict t (get dec key (record_in dec c key now m o)))
  unfolding record_in
  record_in-Keeps c key now t m none e = tt
  record_in-Keeps c key now t m (some s) e =
      rw (get-modify_self dec key (add_failure c now) m, e) (add_failure-Keeps c now t s)

  -- A failure of one key leaves every decision about another key as it was, from its time on, also
  -- when it makes room in a full map.
  pub check_other_key :
      (l : LoginThrottler K) (key j : K) (now t : ℕ)
      → Distinct dec l.map
      → now ≤ t
      → key ≢ j
      → check dec (record_failure dec l key now) j t ≡ check dec l j t
  unfolding record_failure
  check_other_key l key j now t d h ne =
      let m = make_room dec l now in
      check-verdict (record_failure dec l key now) j t
      ∙ ap (verdict t) (get-record_in_ne l.config key j now m (get dec key m) ne)
      ∙ make_room-verdict l j now t d h
      ∙ sym (check-verdict l j t)

  -- A failure never ends or shortens a block: whatever key is refused at a later time is still
  -- refused then, for at least as many seconds.
  pub never_shortens :
      (l : LoginThrottler K) (key j : K) (now t : ℕ)
      → Distinct dec l.map
      → now ≤ t
      → Keeps (check dec l j t) (check dec (record_failure dec l key now) j t)
  unfolding record_failure
  never_shortens l key j now t d h = elim (dec key j) [
    | yes same ↦
        rw
          (
            ← same,
            check-verdict l key t,
            ← make_room-verdict l key now t d h,
            check-verdict (record_failure dec l key now) key t,
          )
          (record_in-Keeps l.config key now t (make_room dec l now)
            (get dec key (make_room dec l now)) refl)
    | no other ↦ rw (check_other_key l key j now t d h other) (Keeps-refl (check dec l j t))
  ]

  -- A success clears the block of its key, and leaves the decisions about the other keys alone.
  pub success_clears :
      (l : LoginThrottler K) (key j : K) (t : ℕ)
      → check dec (record_success dec l key) j t ≡ ite (dec key j) allowed (check dec l j t)
  unfolding record_success
  success_clears l key j t = elim (dec key j) [
    | yes same ↦ rw (
      if_pos (dec key j) same,
      ← same,
      check-verdict (record_success dec l key) key t,
      get-remove_self dec key l.map,
    )
    | no other ↦ rw (
      if_neg (dec key j) other,
      check-verdict (record_success dec l key) j t,
      get-remove_ne dec key j l.map other,
      check-verdict l j t,
    )
  ]
