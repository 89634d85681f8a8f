-- ===== src/Throttle/Tests.antt =====
-- Runs of the throttler under its default policy, with numbers as keys, and its theorems at them.
use relay_term.Prelude.{ℕ, ◌*◌, ◌≡◌, refl, some, List, [], ◌∷◌, ◌++◌, arith, ℕ_discrete}
use relay_term.Prelude.Assoc.{get, insert, modify, Distinct}
use relay_term.Throttle.{
  LoginThrottler, allowed, throttled, v1_default, nanos_per_second, new, check, record_failure,
  fail_all, add_failure, prune_window, make_room, record_in, decide_at, extend_block, failed,
  succeeded, swept, run,
}
use relay_term.Throttle.Blocks.{Keeps, never_shortens}
use relay_term.Throttle.Threshold.{allowed_below, blocked_at_threshold}
use relay_term.Throttle.Bounds.{Inv, run-new-Inv}

abbrev start : LoginThrottler ℕ
start = record { config = v1_default; map = [] }

abbrev second : ℕ → ℕ
second n = n * nanos_per_second

abbrev four_times : List ℕ
four_times = second 100 ∷ second 101 ∷ second 102 ∷ second 103 ∷ []

fifth_blocks :
    check ℕ_discrete (fail_all ℕ_discrete start 7 (four_times ++ second 104 ∷ [])) 7 (second 105)
    ≡ throttled 899
unfolding fail_all record_failure make_room record_in add_failure prune_window extend_block check
    decide_at get insert modify ℕ_discrete
fifth_blocks = refl

start-Distinct : Distinct ℕ_discrete start.map
start-Distinct = tt

start_untracked : get ℕ_discrete 7 start.map ≡ get ℕ_discrete 7 []
start_untracked = refl

blocked_at_threshold_example :
    check ℕ_discrete (fail_all ℕ_discrete start 7 (four_times ++ second 104 ∷ [])) 7 (second 105)
    ≡ throttled 899
unfolding get
blocked_at_threshold_example =
    blocked_at_threshold ℕ_discrete start 7 (second 100) tt refl (omega arith) (omega arith)
      four_times (second 104) (second 105) refl (omega arith)

allowed_below_example :
    check ℕ_discrete (fail_all ℕ_discrete start 7 four_times) 7 (second 105) ≡ allowed
unfolding get
allowed_below_example =
    allowed_below ℕ_discrete start 7 (second 100) tt refl (omega arith) (omega arith) four_times
      (second 105) (omega arith) (omega arith)

-- One key blocked until the second 1000.
abbrev one_blocked : LoginThrottler ℕ
one_blocked = record {
  config = v1_default;
  map = (7, record { failures = []; blocked_until = some (second 1000) }) ∷ [];
}

one_blocked-Distinct : Distinct ℕ_discrete one_blocked.map
unfolding get
one_blocked-Distinct = (refl, tt)

never_shortens_example :
    Keeps
      (check ℕ_discrete one_blocked 7 (second 11))
      (check ℕ_discrete (record_failure ℕ_discrete one_blocked 7 (second 10)) 7 (second 11))
never_shortens_example =
    never_shortens ℕ_discrete one_blocked 7 7 (second 10) (second 11) one_blocked-Distinct
      (omega arith)

run-new-Inv_example :
    Inv ℕ_discrete (
      run ℕ_discrete (new ℕ_discrete v1_default) (failed 7 (second 1) ∷ swept 5 ∷ succeeded 7 ∷ []))
run-new-Inv_example =
    run-new-Inv ℕ_discrete v1_default (failed 7 (second 1) ∷ swept 5 ∷ succeeded 7 ∷ [])
