-- ===== src/Throttle.antt =====
-- The in-memory login throttler, crates/relayterm-auth/src/throttle.rs.
-- A time is a number of nanoseconds since some start. `t > now - window` is written
-- `now < t + window`, as `-` on ℕ stops at 0. Keys are of any type with a decidable equality.
pub mod Attempts
pub mod Threshold
pub mod Blocks
pub mod Bounds
mod Tests
use relay_term.Prelude.{
  ℕ, ◌+◌, ◌-◌, ◌*◌, ◌/◌, ◌^◌, max, Bool, true, false, not, Option, none, some, List, [], ◌∷◌, ◌++◌,
  ltb, leb, if◌then◌else◌, length, keep_if, saturating_add,
}
use relay_term.Prelude.Assoc.{get, insert, remove, modify, retain}

abbrev pub max_tracked_keys : ℕ
max_tracked_keys = 10000

abbrev pub nanos_per_second : ℕ
nanos_per_second = 10 ^ 9

pub record LoginThrottleConfig : Type 0 where
  pub max_failures : ℕ
  pub window : ℕ
  pub block : ℕ

-- Five failures in 15 minutes block for 15 minutes.
abbrev pub v1_default : LoginThrottleConfig
v1_default = record {
  max_failures = 5;
  window = 15 * 60 * nanos_per_second;
  block = 15 * 60 * nanos_per_second;
}

pub data ThrottleDecision : Type 0 where
  allowed : ThrottleDecision
  throttled : ℕ → ThrottleDecision

pub record AttemptState : Type 0 where
  pub failures : List ℕ
  pub blocked_until : Option ℕ

abbrev pub new_state : AttemptState
new_state = record { failures = []; blocked_until = none }

abbrev pub in_window : ℕ → ℕ → ℕ → Bool
in_window now window t = ltb now (t + window)

-- The failures that `prune_window` keeps.
unfoldable pub prune_window : ℕ → ℕ → List ℕ → List ℕ
prune_window now window failures = keep_if (in_window now window) failures

unfoldable pub is_blocked : ℕ → Option ℕ → Bool
is_blocked now none = false
is_blocked now (some until) = ltb now until

unfoldable pub any_recent : ℕ → ℕ → List ℕ → Bool
any_recent now window [] = false
any_recent now window (t ∷ ts) =
    let rest = any_recent now window ts in if in_window now window t then true else rest

unfoldable pub is_idle : ℕ → ℕ → AttemptState → Bool
is_idle now window s =
    if is_blocked now s.blocked_until then false else not (any_recent now window s.failures)

-- The `match` on `blocked_until` in `check`.
unfoldable pub decide_at : ℕ → Option ℕ → ThrottleDecision
decide_at now none = allowed
decide_at now (some until) =
    if ltb now until then throttled (max ((until - now) / nanos_per_second) 1) else allowed

-- Never shorten a block.
unfoldable pub extend_block : Option ℕ → ℕ → ℕ
extend_block none new_until = new_until
extend_block (some prev) new_until = if ltb new_until prev then prev else new_until

-- What `record_failure` does to the entry of its key.
unfoldable pub add_failure : LoginThrottleConfig → ℕ → AttemptState → AttemptState
add_failure c now s =
    let recent = prune_window now c.window s.failures in
    let failures =
      if ltb (length recent) (saturating_add c.max_failures 1)
      then recent ++ now ∷ []
      else recent in
    record {
      failures = failures;
      blocked_until =
          if leb c.max_failures (length failures)
          then some (extend_block s.blocked_until (now + c.block))
          else s.blocked_until;
    }

pub record LoginThrottler (K : Type 0) : Type 0 where
  pub config : LoginThrottleConfig
  pub map : List (K × AttemptState)

-- A call that changes the throttler.
pub data Event (K : Type 0) : Type 0 where
  failed : K → ℕ → Event K
  succeeded : K → Event K
  swept : ℕ → Event K

module _ {K : Type 0} (dec : Discrete K) where
  unfoldable pub new : LoginThrottleConfig → LoginThrottler K
  new c = record { config = c; map = [] }

  unfoldable pub check : LoginThrottler K → K → ℕ → ThrottleDecision
  unfolding decide_at
  check l key now = elim (get dec key l.map) [
    | none ↦ allowed
    | some s ↦ decide_at now s.blocked_until
  ]

  unfoldable pub sweep : LoginThrottler K → ℕ → List (K × AttemptState)
  sweep l now = retain (λ _ s. not (is_idle now l.config.window s)) l.map

  -- The opportunistic cleanup at the head of `record_failure`.
  unfoldable pub make_room : LoginThrottler K → ℕ → List (K × AttemptState)
  make_room l now = if leb max_tracked_keys (length l.map) then sweep l now else l.map

  -- A known key is updated in place; a new one is added unless the map is full.
  unfoldable pub record_in :
      LoginThrottleConfig
      → K
      → ℕ
      → List (K × AttemptState)
      → Option AttemptState
      → List (K × AttemptState)
  record_in c key now m (some s) = modify dec key (add_failure c now) m
  record_in c key now m none =
      if leb max_tracked_keys (length m) then m else insert dec key (add_failure c now new_state) m

  unfoldable pub record_failure : LoginThrottler K → K → ℕ → LoginThrottler K
  record_failure l key now =
      let m = make_room l now in record l { map = record_in l.config key now m (get dec key m) }

  unfoldable pub record_success : LoginThrottler K → K → LoginThrottler K
  record_success l key = record l { map = remove dec key l.map }

  unfoldable pub cleanup : LoginThrottler K → ℕ → LoginThrottler K
  cleanup l now = record l { map = sweep l now }

  -- Failures of one key at the given times, in order.
  unfoldable pub fail_all : LoginThrottler K → K → List ℕ → LoginThrottler K
  fail_all l key [] = l
  fail_all l key (t ∷ ts) = fail_all (record_failure l key t) key ts

  unfoldable pub step : LoginThrottler K → Event K → LoginThrottler K
  step l (failed key now) = record_failure l key now
  step l (succeeded key) = record_success l key
  step l (swept now) = cleanup l now

  unfoldable pub run : LoginThrottler K → List (Event K) → LoginThrottler K
  run l [] = l
  run l (e ∷ es) = run (step l e) es
