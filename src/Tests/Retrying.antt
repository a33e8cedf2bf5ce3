-- ===== src/Tests/Retrying.antt =====
-- A circuit breaker that opens after two calls, and the clients' loop on it.
use ctse_mood_rule_service.Common.{
  ℕ, ◌+◌, ◌≤◌, ◌<◌, suc, String, Bool, true, false, ◌≡◌, refl, ◌⊎◌, inl, inr, none, arith, ltb,
  ◌==◌, if◌then◌else◌, Bool-cases, Error, errorf, wrap, err,
}
use ctse_mood_rule_service.Common.Int.{pos, pos_part, ◌+ℤ◌}
use ctse_mood_rule_service.Clients.{
  Call, CircuitBreaker, Clock, Retries, Names, gave_up, conclude, call_with_retries,
}
use ctse_mood_rule_service.Clients.Attempts.{
  goes_on, outside_after, answer_after, all_go_on, last_error, verdict, call_with_retries-Ends,
}
use ctse_mood_rule_service.Clients.Calls.{IsBreaker, call_with_retries_calls}

abbrev says_open : Error → Bool
says_open (errorf text) = text == "circuit breaker is open"
says_open (wrap text e) = false

-- What is outside is the number of calls that the service has had.
abbrev pub tripping : CircuitBreaker ℕ String
tripping = record {
  execute = λ request w. if ltb w 2 then request w else (err (errorf "circuit breaker is open"), w);
  is_open_state = says_open;
}

abbrev pub counting : ℕ → ℕ
counting w = w

pub tripping-IsBreaker : IsBreaker tripping counting
tripping-IsBreaker = record {
  executes = λ request w. elim (Bool-cases (ltb w 2)) [
    | inl closed ↦ inr (w, (request w).1, rw closed refl, refl, refl)
    | inr o ↦ inl (errorf "circuit breaker is open", w, rw o refl, refl)
  ];
}

-- No time passes.
abbrev pub still : Clock ℕ
still = record { sleep = λ d w. w; now = λ w. 0 }

abbrev pub three_more : Retries
three_more = record { max_retries = pos 3; retry_backoff = pos 100 }

abbrev pub names : Names
names = record {
  service = "auth";
  method = "GetUserMood";
  error_label = "auth_service";
  task = "get user mood";
}

abbrev pub failing : Call ℕ String
failing w = (err (errorf "unavailable"), suc w)

-- Two rounds reach the service, the third finds the breaker open.
test_outside : (call_with_retries still names three_more tripping failing 0).outside ≡ 2
unfolding call_with_retries
test_outside = refl

call_with_retries-Ends_example :
    ((k : ℕ) × (k < pos_part (pos 3 +ℤ pos 1))
      × (all_go_on tripping still (pos 100) failing k 0 0 ≡ true)
      × (goes_on tripping still
            (pos 100)
            failing
            (answer_after tripping still (pos 100) failing k 0 0)
          ≡ false)
      × (call_with_retries still names three_more tripping failing 0
          ≡ conclude still names three_more 0 (
            verdict (answer_after tripping still (pos 100) failing k 0 0),
            outside_after tripping still (pos 100) failing (suc k) 0 0,
          )))
    ⊎ ((all_go_on tripping still (pos 100) failing (pos_part (pos 3 +ℤ pos 1)) 0 0 ≡ true)
        × (call_with_retries still names three_more tripping failing 0
            ≡ conclude still names three_more 0 (
              gave_up (
                  last_error tripping still (pos 100) failing (pos_part (pos 3 +ℤ pos 1)) 0 none 0),
              outside_after tripping still (pos 100) failing (pos_part (pos 3 +ℤ pos 1)) 0 0,
            )))
call_with_retries-Ends_example = call_with_retries-Ends still names three_more tripping failing 0

call_with_retries_calls_example :
    counting (call_with_retries still names three_more tripping failing 0).outside
    ≤ 0 + pos_part (pos 3 +ℤ pos 1)
call_with_retries_calls_example =
    call_with_retries_calls still names three_more tripping counting failing 0 tripping-IsBreaker
      (λ d w. refl) (λ v. omega arith)
