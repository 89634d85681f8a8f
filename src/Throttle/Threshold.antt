-- ===== src/Throttle/Threshold.antt =====
-- The exact threshold: the failure that makes `max_failures` within the window blocks the key, and
-- no failure before it does.
use relay_term.Prelude.{
  ℕ, ◌+◌, ◌-◌, ◌/◌, ◌<◌, ◌≡◌, ◌∙◌, ◌^◌, ap, refl, none, some, List, [], ◌∷◌, ◌++◌, inr, arith,
  length, length-append, ltb, if◌then◌else◌, All-append, append-nil, append_assoc, max,
}
use relay_term.Prelude.Assoc.{get, Distinct}
use relay_term.Throttle.{
  LoginThrottler, allowed, throttled, decide_at, check, record_failure, fail_all, max_tracked_keys,
  nanos_per_second,
}
use relay_term.Throttle.Blocks.{verdict, check-verdict}
use relay_term.Throttle.Attempts.{
  InWindow, Within, Tracked, after_failure, seen, record_failure-Tracked, record_failure-entry,
  after_failure-full,
}

decide_at-some :
    (t until : ℕ)
    → decide_at t (some until)
      ≡ (if ltb t until then throttled (max ((until - t) / nanos_per_second) 1) else allowed)
unfolding decide_at
decide_at-some t until = refl

module _ {K : Type 0} (dec : Discrete K) where
  fail_all-Tracked :
      (l : LoginThrottler K) (key : K) (t0 : ℕ) (done ts : List ℕ)
      → Tracked dec l key done
      → l.config.max_failures < 2 ^ 32
      → length (done ++ ts) < l.config.max_failures
      → Within t0 l.config.window (done ++ ts)
      → Tracked dec (fail_all dec l key ts) key (done ++ ts)
  unfolding fail_all record_failure
  fail_all-Tracked l key t0 done [] k u32 le w = rw append-nil k
  fail_all-Tracked l key t0 done (t ∷ ts) k u32 le w =
      let (before, now) = All-append (InWindow t0 l.config.window) done (t ∷ ts) w in
      let regroup = append_assoc done (t ∷ []) ts in
      let next =
        record_failure-Tracked dec l key t0 t done k u32
          (omega (arith, length-append done (t ∷ ts))) before now.0.1 in
      rw (← regroup) (
        fail_all-Tracked (record_failure dec l key t) key t0 (done ++ t ∷ []) ts next u32
          (rw regroup le) (rw regroup w))

  verdict-seen : (ts : List ℕ) (t : ℕ) → verdict t (seen dec ts) ≡ allowed
  unfolding decide_at
  verdict-seen [] t = refl
  verdict-seen (u ∷ ts) t = refl

  config-fail_all :
      (l : LoginThrottler K) (key : K) (ts : List ℕ) → (fail_all dec l key ts).config ≡ l.config
  unfolding fail_all record_failure
  config-fail_all l key [] = refl
  config-fail_all l key (t ∷ ts) = config-fail_all (record_failure dec l key t) key ts

  fail_all-snoc :
      (l : LoginThrottler K) (key : K) (ts : List ℕ) (t : ℕ)
      → fail_all dec l key (ts ++ t ∷ []) ≡ record_failure dec (fail_all dec l key ts) key t
  unfolding fail_all
  fail_all-snoc l key [] t = refl
  fail_all-snoc l key (u ∷ ts) t = fail_all-snoc (record_failure dec l key u) key ts t

  module _ (l : LoginThrottler K) (key : K) (t0 : ℕ) (distinct : Distinct dec l.map)
      (untracked : get dec key l.map ≡ none) (room : length l.map < max_tracked_keys)
      (u32 : l.config.max_failures < 2 ^ 32) where
    fresh-Tracked : Tracked dec l key []
    fresh-Tracked = record { distinct = distinct; entry = untracked; room = inr room }

    -- Fewer failures than `max_failures` within one window never block a key that was not tracked
    -- before, when the map has room for it.
    pub allowed_below :
        (ts : List ℕ) (t : ℕ)
        → length ts < l.config.max_failures
        → Within t0 l.config.window ts
        → check dec (fail_all dec l key ts) key t ≡ allowed
    allowed_below ts t few w =
        check-verdict dec (fail_all dec l key ts) key t
        ∙ ap (verdict t) (fail_all-Tracked l key t0 [] ts fresh-Tracked u32 few w).entry
        ∙ verdict-seen ts t

    -- For a key that was not tracked before, when the map has room for it and `max_failures` is below
    -- 2^32: the failure that makes `max_failures` within one window blocks the key until `block` after
    -- it. The seconds given are the whole seconds of what is left, rounded down, but at least one.
    pub blocked_at_threshold :
        (ts : List ℕ) (last t : ℕ)
        → length ts + 1 ≡ l.config.max_failures
        → Within t0 l.config.window (ts ++ last ∷ [])
        → check dec (fail_all dec l key (ts ++ last ∷ [])) key t ≡ (
            if ltb t (last + l.config.block)
            then throttled (max ((last + l.config.block - t) / nanos_per_second) 1)
            else allowed)
    blocked_at_threshold ts last t full w =
        let (before, now) = All-append (InWindow t0 l.config.window) ts (last ∷ []) w in
        let k = fail_all-Tracked l key t0 [] ts fresh-Tracked u32 (omega arith) before in
        let same = config-fail_all l key ts in
        let entry =
          record_failure-entry dec (fail_all dec l key ts) key t0 last ts k (rw same u32)
            (rw same (omega arith)) (rw same before) (rw same now.0.1) in
        check-verdict dec (fail_all dec l key (ts ++ last ∷ [])) key t
        ∙ ap (λ r. verdict t (get dec key r.map)) (fail_all-snoc l key ts last)
        ∙ ap (verdict t) (entry ∙ ap (λ c. some (after_failure c ts last)) same)
        ∙ ap (decide_at t) (after_failure-full l.config ts last full)
        ∙ decide_at-some t (last + l.config.block)
