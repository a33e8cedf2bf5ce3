-- ===== src/Clients/Attempts.antt =====
-- How the retry loop of the clients ends, for any breaker: the rounds one after the other, each on
-- what the one before has left, and the first that does not go on.
use ctse_mood_rule_service.Common.{
  ℕ, ◌<◌, zero, suc, Bool, true, false, not, ◌&&◌, ◌≡◌, refl, ◌∙◌, ap, ◌⊎◌, inl, inr, Option, none,
  some, arith, Bool-cases, Error, Result, ok, err, Result-cases,
}
use ctse_mood_rule_service.Common.Int.{ℤ, pos, negsuc, pos_part, ◌+ℤ◌}
use ctse_mood_rule_service.Clients.{
  Call, CircuitBreaker, Clock, Retries, Names, Outcome, succeeded, gave_up, rounds, back_off,
  try_from, conclude, call_with_retries,
}

pub rounds_lem : (max_retries : ℤ) → rounds max_retries ≡ pos_part (max_retries +ℤ pos 1)
unfolding rounds ◌+ℤ◌
rounds_lem (pos n) = ground arith
rounds_lem (negsuc n) = ground arith

-- what a round's answer means if the loop ends with it
abbrev pub verdict : {A : Type 0} → Result A → Outcome A
verdict (ok a) = succeeded a
verdict (err e) = gave_up (some e)

abbrev error_of : {A : Type 0} → Result A → Option Error
error_of (ok a) = none
error_of (err e) = some e

module _ {W A : Type 0} (breaker : CircuitBreaker W A) (clock : Clock W) (retry_backoff : ℤ)
    (request : Call W A) where
  -- One round: the pause, and the call through the breaker.
  abbrev round : ℕ → W → Result A × W
  round attempt w = breaker.execute request (back_off breaker clock retry_backoff attempt w)

  -- The loop goes on after an error, but not after that of an open breaker.
  abbrev pub goes_on : Result A → Bool
  goes_on (ok a) = false
  goes_on (err e) = not (breaker.is_open_state e)

  -- What is outside after the given number of rounds, from the given round on.
  unfoldable pub outside_after : ℕ → ℕ → W → W
  outside_after zero attempt w = w
  outside_after (suc k) attempt w = outside_after k (suc attempt) (round attempt w).1

  -- The answer of the round after so many others.
  unfoldable pub answer_after : ℕ → ℕ → W → Result A
  answer_after zero attempt w = (round attempt w).0
  answer_after (suc k) attempt w = answer_after k (suc attempt) (round attempt w).1

  -- So many rounds all go on.
  unfoldable pub all_go_on : ℕ → ℕ → W → Bool
  all_go_on zero attempt w = true
  all_go_on (suc k) attempt w =
      goes_on (round attempt w).0 && all_go_on k (suc attempt) (round attempt w).1

  -- The error of the last of so many rounds, or the given one if there are none.
  unfoldable pub last_error : ℕ → ℕ → Option Error → W → Option Error
  last_error zero attempt before w = before
  last_error (suc k) attempt before w =
      last_error k (suc attempt) (error_of (round attempt w).0) (round attempt w).1

  -- Of `n` rounds the first that does not go on decides, or all go on.
  abbrev Ends : ℕ → ℕ → Option Error → W → Outcome A × W → Type 0
  Ends n attempt before w end =
      ((k : ℕ) × (k < n)
        × (all_go_on k attempt w ≡ true)
        × (goes_on (answer_after k attempt w) ≡ false)
        × (end ≡ (verdict (answer_after k attempt w), outside_after (suc k) attempt w)))
      ⊎ ((all_go_on n attempt w ≡ true)
          × (end ≡ (gave_up (last_error n attempt before w), outside_after n attempt w)))

  try_from-Ends :
      (n attempt : ℕ) (before : Option Error) (w : W)
      → Ends n attempt before w (try_from breaker clock retry_backoff request n attempt before w)
  unfolding try_from outside_after answer_after all_go_on last_error
  try_from-Ends zero attempt before w = inr (refl, refl)
  try_from-Ends (suc n) attempt before w = elim (Result-cases (round attempt w).0) [
    | inl (a, e) ↦ inl (0, omega arith, refl, rw e refl, rw (e, try_from) refl)
    | inr (x, e) ↦ elim (Bool-cases (breaker.is_open_state x)) [
      | inl o ↦ inl (0, omega arith, refl, rw (e, o) refl, rw (e, o, try_from) refl)
      | inr o ↦
          let w' = (round attempt w).1 in
          let same : try_from breaker clock retry_backoff request (suc n) attempt before w
              ≡ try_from breaker clock retry_backoff request n (suc attempt) (some x) w' =
            rw (e, o, try_from) refl in
          elim (try_from-Ends n (suc attempt) (some x) w') [
            | inl (k, l, g, stops, end) ↦
                inl (suc k, omega arith, rw (e, o, all_go_on) g, stops, same ∙ end)
            | inr (g, end) ↦ inr (rw (e, o, all_go_on) g, rw (e, last_error) (same ∙ end))
          ]
    ]
  ]

module _ {W A : Type 0} (clock : Clock W) (names : Names) (retries : Retries)
    (breaker : CircuitBreaker W A) (request : Call W A) where
  -- A method of a client makes its rounds, at most `maxRetries` + 1 of them (none if `maxRetries` is
  -- negative), each on what the one before has left: either the first round that is no failure, or
  -- that finds the breaker open, decides the answer; or every round fails otherwise, and the last
  -- error is reported.
  pub call_with_retries-Ends :
      (w : W)
      → let n = pos_part (retries.max_retries +ℤ pos 1) in
        let backoff = retries.retry_backoff in
        let d = call_with_retries clock names retries breaker request w in
        ((k : ℕ) × (k < n)
          × (all_go_on breaker clock backoff request k 0 w ≡ true)
          × (goes_on breaker clock backoff request
                (answer_after breaker clock backoff request k 0 w)
              ≡ false)
          × (d
              ≡ conclude clock names retries (clock.now w) (
                verdict (answer_after breaker clock backoff request k 0 w),
                outside_after breaker clock backoff request (suc k) 0 w,
              )))
        ⊎ ((all_go_on breaker clock backoff request n 0 w ≡ true)
            × (d
                ≡ conclude clock names retries (clock.now w) (
                  gave_up (last_error breaker clock backoff request n 0 none w),
                  outside_after breaker clock backoff request n 0 w,
                )))
  unfolding call_with_retries
  call_with_retries-Ends w =
      rw (← rounds_lem retries.max_retries)
        (elim (try_from-Ends breaker clock retries.retry_backoff request
          (rounds retries.max_retries) 0 none w) [
            | inl (k, l, g, stops, end) ↦
                inl (k, l, g, stops, ap (conclude clock names retries (clock.now w)) end)
            | inr (g, end) ↦ inr (g, ap (conclude clock names retries (clock.now w)) end)
          ])
