-- ===== src/Throttle/Bounds.antt =====
-- The throttler's memory bound: no call takes the map over its capacity or an entry over its limit.
use relay_term.Prelude.{
  ℕ, ◌+◌, ◌≤◌, ◌≡◌, refl, Bool, not, Option, none, some, List, [], ◌∷◌, arith, length,
  length-append, keep_if,
}
use relay_term.Prelude.Assoc.{
  get, Distinct, Values, Values-retain, Values-insert, Values-modify, Values-remove,
  retain-Distinct, remove-Distinct, length-retain-le, length-remove-le, length-modify,
  length-insert_new,
}
use relay_term.Throttle.{
  LoginThrottleConfig, LoginThrottler, AttemptState, new_state, prune_window, add_failure, is_idle,
  in_window, make_room, sweep, record_in, record_failure, record_success, cleanup, new,
  max_tracked_keys, Event, failed, succeeded, swept, step, run,
}
use relay_term.Throttle.Attempts.{record_failure-Distinct, length-make_room}

-- An entry holds at most `max_failures + 1` failures.
abbrev pub Small : LoginThrottleConfig → AttemptState → Type 0
Small c s = length s.failures ≤ c.max_failures + 1

pub record Inv {K : Type 0} (dec : Discrete K) (l : LoginThrottler K) : Type 0 where
  pub distinct : Distinct dec l.map
  pub capped : length l.map ≤ max_tracked_keys
  pub small : Values (Small l.config) l.map

length-keep_if-le : (p : ℕ → Bool) (ts : List ℕ) → length (keep_if p ts) ≤ length ts
length-keep_if-le p [] = omega arith
length-keep_if-le p (t ∷ ts) = ground (arith, length-keep_if-le p ts)

add_failure-Small :
    (c : LoginThrottleConfig) (now : ℕ) (s : AttemptState)
    → Small c s
    → Small c (add_failure c now s)
unfolding add_failure prune_window
add_failure-Small c now s h = ground (
  arith,
  length-keep_if-le (in_window now c.window) s.failures,
  length-append (keep_if (in_window now c.window) s.failures) (now ∷ []),
)

module _ {K : Type 0} (dec : Discrete K) where
  -- A new throttler satisfies the bounds.
  pub new-Inv : (c : LoginThrottleConfig) → Inv dec (new dec c)
  unfolding new
  new-Inv c = record { distinct = tt; capped = omega arith; small = tt }

  record_in-length :
      (c : LoginThrottleConfig) (key : K) (now : ℕ) (m : List (K × AttemptState))
      (o : Option AttemptState)
      → get dec key m ≡ o
      → length m ≤ max_tracked_keys
      → length (record_in dec c key now m o) ≤ max_tracked_keys
  unfolding record_in
  record_in-length c key now m none e h =
      ground (arith, length-insert_new dec key (add_failure c now new_state) m e)
  record_in-length c key now m (some s) e h =
      omega (arith, length-modify dec key (add_failure c now) m)

  record_in-Values :
      (c : LoginThrottleConfig) (key : K) (now : ℕ) (m : List (K × AttemptState))
      (o : Option AttemptState)
      → Values (Small c) m
      → Values (Small c) (record_in dec c key now m o)
  unfolding record_in
  record_in-Values c key now m none h = ground (
    arith,
    Values-insert (Small c) dec key (add_failure c now new_state) m
        (add_failure-Small c now new_state (omega arith)) h,
  )
  record_in-Values c key now m (some s) h =
      Values-modify (Small c) dec key (add_failure c now) m (add_failure-Small c now) h

  make_room-Values :
      (l : LoginThrottler K) (now : ℕ)
      → Values (Small l.config) l.map
      → Values (Small l.config) (make_room dec l now)
  unfolding make_room sweep
  make_room-Values l now h =
      ground
        (arith, Values-retain (Small l.config) (λ _ s. not (is_idle now l.config.window s)) l.map h)

  -- A recorded failure keeps one entry for each key, at most `max_tracked_keys` of them, each with at
  -- most `max_failures + 1` times.
  pub record_failure-Inv :
      (l : LoginThrottler K) (key : K) (now : ℕ)
      → Inv dec l
      → Inv dec (record_failure dec l key now)
  unfolding record_failure
  record_failure-Inv l key now v =
      let m = make_room dec l now in
      record {
        distinct = record_failure-Distinct dec l key now v.distinct;
        capped =
            record_in-length l.config key now m (get dec key m) refl
              (omega (arith, length-make_room dec l now, v.capped));
        small =
            record_in-Values l.config key now m (get dec key m) (make_room-Values l now v.small);
      }

  pub record_success-Inv :
      (l : LoginThrottler K) (key : K) → Inv dec l → Inv dec (record_success dec l key)
  unfolding record_success
  record_success-Inv l key v = record {
    distinct = remove-Distinct dec key l.map v.distinct;
    capped = omega (arith, length-remove-le dec key l.map, v.capped);
    small = Values-remove (Small l.config) dec key l.map v.small;
  }

  pub cleanup-Inv : (l : LoginThrottler K) (now : ℕ) → Inv dec l → Inv dec (cleanup dec l now)
  unfolding cleanup sweep
  cleanup-Inv l now v =
      let idle = λ (k : K) (s : AttemptState). not (is_idle now l.config.window s) in
      record {
        distinct = retain-Distinct dec idle l.map v.distinct;
        capped = omega (arith, length-retain-le idle l.map, v.capped);
        small = Values-retain (Small l.config) idle l.map v.small;
      }

  pub step-Inv : (l : LoginThrottler K) (e : Event K) → Inv dec l → Inv dec (step dec l e)
  unfolding step
  step-Inv l (failed key now) v = record_failure-Inv l key now v
  step-Inv l (succeeded key) v = record_success-Inv l key v
  step-Inv l (swept now) v = cleanup-Inv l now v

  run-Inv : (l : LoginThrottler K) (es : List (Event K)) → Inv dec l → Inv dec (run dec l es)
  unfolding run
  run-Inv l [] v = v
  run-Inv l (e ∷ es) v = run-Inv (step dec l e) es (step-Inv l e v)

  -- After any history of failures, successes and cleanups the map holds each key once, at most
  -- `max_tracked_keys` keys, and at most `max_failures + 1` times for each.
  pub run-new-Inv :
      (c : LoginThrottleConfig) (es : List (Event K)) → Inv dec (run dec (new dec c) es)
  run-new-Inv c es = run-Inv (new dec c) es (new-Inv c)
