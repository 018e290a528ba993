-- ===== src/Breaker/Tests.antt =====
-- Two Core processes under a ceiling of two signatures in ten time units.
use nebula_control_plane.Prelude.{
  suc, ◌≡◌, ◌≤◌, refl, Bool, true, false, List, [], ◌∷◌, none, arith, count, find, keep, update,
}
use nebula_control_plane.Breaker.Calls.{
  Call, acquires, resets, granted, tripped, refused, run, grant_times, InOrder, calls_of,
}
use nebula_control_plane.Breaker.Memory.{memory, new_breaker, acquire, reset}
use nebula_control_plane.Breaker.Sql.{
  Fleet, sql, attempt, latch_state, maybe_gc, acquire_tx, upsert_latch, acquire as sql_acquire,
}
use nebula_control_plane.Breaker.Limit.{in_window, is_reset, sql_refines, fleet_limit, alarm_once}

abbrev fresh : Fleet
fresh = record {
  db = record {
    latches = record { lane = "other"; latched = true; opened_at = 1 } ∷ [];
    issuances = record { id = 1; lane = "other"; ts = 1 } ∷ [];
    next_issuance = 2;
  };
  last_gc = λ core. none;
}

abbrev calls : List Call
calls =
    acquires 1 true 100
    ∷ acquires 2 true 105
    ∷ acquires 1 true 112
    ∷ acquires 2 false 113
    ∷ acquires 1 true 200
    ∷ resets
    ∷ acquires 1 true 201
    ∷ []

in_order : InOrder 0 calls
in_order = ground arith

-- The third call finds the first one gone from its window; the fourth trips.
answers :
    (run (memory 2 10) new_breaker calls).1
    ≡ granted ∷ granted ∷ granted ∷ tripped ∷ refused ∷ refused ∷ granted ∷ []
unfolding acquire reset keep
answers = refl

-- The same, where the second and the last transactions fail, and then a reset.
abbrev failing : List (Call × Bool)
failing =
    (acquires 1 true 100, true)
    ∷ (acquires 2 true 105, false)
    ∷ (acquires 1 true 106, true)
    ∷ (acquires 2 false 107, true)
    ∷ (resets, false)
    ∷ (acquires 1 true 200, true)
    ∷ []

failing-InOrder : InOrder 0 (calls_of failing)
failing-InOrder = ground arith

failing_answers :
    (run (attempt "ca" 2 10) fresh failing).1
    ≡ granted ∷ refused ∷ granted ∷ tripped ∷ refused ∷ refused ∷ []
unfolding sql_acquire maybe_gc acquire_tx latch_state upsert_latch find count keep update
failing_answers = refl

sql_refines_example : (run (sql "ca" 2 10) fresh calls).1 ≡ (run (memory 2 10) new_breaker calls).1
unfolding latch_state find count
sql_refines_example = sql_refines 2 10 "ca" fresh calls (refl, refl) in_order

fleet_limit_example :
    count (in_window 10 107) (grant_times [] failing (run (attempt "ca" 2 10) fresh failing).1) ≤ 2
unfolding latch_state find count
fleet_limit_example =
    fleet_limit 2 10 "ca" fresh failing 107 (omega arith) (refl, refl) failing-InOrder

alarm_once_example :
    count (λ a. a.just_tripped) (run (attempt "ca" 2 10) fresh failing).1
    ≤ suc (count is_reset failing)
unfolding latch_state find count
alarm_once_example = alarm_once 2 10 "ca" fresh failing (refl, refl) failing-InOrder
