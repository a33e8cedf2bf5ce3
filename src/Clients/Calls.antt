-- ===== src/Clients/Calls.antt =====
-- How often the other service is called, for a breaker that behaves as gobreaker documents.
use ctse_mood_rule_service.Common.{
  ℕ, ◌+◌, ◌≤◌, zero, suc, Bool, true, false, ◌≡◌, refl, ◌⊎◌, inl, inr, Option, none, some, arith,
  ltb, Bool-cases, Error, err, is_ok, Result-cases,
}
use ctse_mood_rule_service.Common.Int.{ℤ, ◌*ℤ◌, ◌+ℤ◌, pos, pos_part}
use ctse_mood_rule_service.Clients.Attempts.{rounds_lem}
use ctse_mood_rule_service.Clients.{
  Call, CircuitBreaker, Clock, Retries, Names, Outcome, succeeded, gave_up, rounds, back_off,
  try_from, conclude, call_with_retries,
}

-- `Execute` either refuses, with an error of its own and without a call of the request, or runs the
-- request once and answers as the request does; its own book-keeping calls no service.
pub record IsBreaker {W A : Type 0} (breaker : CircuitBreaker W A) (calls : W → ℕ) : Type 0 where
  pub executes :
      (request : Call W A) (w : W)
      → ((e : Error) × (w' : W) × (breaker.execute request w ≡ (err e, w')) × (calls w' ≡ calls w))
        ⊎ ((before : W) × (after : W) × (breaker.execute request w ≡ ((request before).0, after))
            × (calls before ≡ calls w)
            × (calls after ≡ calls (request before).1))

abbrev has_succeeded : {A : Type 0} → Outcome A → Bool
has_succeeded (succeeded a) = true
has_succeeded (gave_up e) = false

-- A pause calls no service.
abbrev pub PausesQuietly : {W : Type 0} → Clock W → (W → ℕ) → Type 0
PausesQuietly {W} clock calls = (d : ℤ) (w : W) → calls (clock.sleep d w) ≡ calls w

module _ {W A : Type 0} (breaker : CircuitBreaker W A) (clock : Clock W) (calls : W → ℕ)
    (lawful : IsBreaker breaker calls) (quiet : PausesQuietly clock calls) (retry_backoff : ℤ)
    (request : Call W A) where
  calls-back_off :
      (attempt : ℕ) (w : W) → calls (back_off breaker clock retry_backoff attempt w) ≡ calls w
  unfolding back_off
  calls-back_off attempt w = elim (Bool-cases (ltb 0 attempt)) [
    | inl e ↦ rw e (quiet (pos attempt *ℤ retry_backoff) w)
    | inr e ↦ rw e refl
  ]

  calls-execute :
      ((w : W) → calls (request w).1 ≤ suc (calls w))
      → (w : W) → calls (breaker.execute request w).1 ≤ suc (calls w)
  calls-execute once w = elim (lawful.executes request w) [
    | inl (e, w', q, same) ↦ rw q (omega arith)
    | inr (before, after, q, b, a) ↦ rw q (omega (arith, once before))
  ]

  calls-try_from :
      ((w : W) → calls (request w).1 ≤ suc (calls w))
      → (n attempt : ℕ) (before : Option Error) (w : W)
      → calls (try_from breaker clock retry_backoff request n attempt before w).1 ≤ calls w + n
  unfolding try_from
  calls-try_from once zero attempt before w = omega arith
  calls-try_from once (suc n) attempt before w =
      let start = back_off breaker clock retry_backoff attempt w in
      let paused = calls-back_off attempt w in
      let called = calls-execute once start in
      elim (Result-cases (breaker.execute request start).0) [
        | inl (a, e) ↦ rw (e, try_from) (omega (arith, paused, called))
        | inr (x, e) ↦ elim (Bool-cases (breaker.is_open_state x)) [
          | inl o ↦ rw (e, o, try_from) (omega (arith, paused, called))
          | inr o ↦
              let rest =
                calls-try_from once n (suc attempt) (some x) (breaker.execute request start).1 in
              rw (e, o, try_from) (omega (arith, paused, called, rest))
        ]
      ]

module _ {W A : Type 0} (breaker : CircuitBreaker W A) (clock : Clock W) (calls : W → ℕ)
    (lawful : IsBreaker breaker calls) (retry_backoff : ℤ) (request : Call W A) where
  -- If the request never succeeds, neither does what the breaker makes of it.
  execute_fails :
      ((w : W) → is_ok (request w).0 ≡ false)
      → (w : W) → is_ok (breaker.execute request w).0 ≡ false
  execute_fails never w = elim (lawful.executes request w) [
    | inl (e, w', q, same) ↦ rw q refl
    | inr (before, after, q, b, a) ↦ rw q (never before)
  ]

  try_from_fails :
      ((w : W) → is_ok (request w).0 ≡ false)
      → (n attempt : ℕ) (before : Option Error) (w : W)
      → has_succeeded (try_from breaker clock retry_backoff request n attempt before w).0 ≡ false
  unfolding try_from
  try_from_fails never zero attempt before w = refl
  try_from_fails never (suc n) attempt before w =
      let start = back_off breaker clock retry_backoff attempt w in
      elim (Result-cases (breaker.execute request start).0) [
        | inl (a, e) ↦ absurd (let no_success = execute_fails never start in cc)
        | inr (x, e) ↦ elim (Bool-cases (breaker.is_open_state x)) [
          | inl o ↦ rw (e, o, try_from) refl
          | inr o ↦
              rw (e, o, try_from)
                (try_from_fails never n (suc attempt) (some x) (breaker.execute request start).1)
        ]
      ]

module _ {W A : Type 0} (clock : Clock W) (names : Names) (retries : Retries) where
  conclude-outside :
      (start : ℕ) (end : Outcome A × W) → (conclude clock names retries start end).outside ≡ end.1
  unfolding conclude
  conclude-outside start (succeeded a, w) = refl
  conclude-outside start (gave_up e, w) = refl

  conclude_fails :
      (start : ℕ) (end : Outcome A × W)
      → has_succeeded end.0 ≡ false
      → is_ok (conclude clock names retries start end).answer ≡ false
  unfolding conclude
  conclude_fails start (succeeded a, w) h = h
  conclude_fails start (gave_up e, w) h = refl

  -- If the breaker runs a request at most once in an `Execute`, if a request calls the service at most
  -- once, and a pause does not, then a method calls it at most `maxRetries` + 1 times, and not at all
  -- if `maxRetries` is negative.
  pub call_with_retries_calls :
      (breaker : CircuitBreaker W A) (calls : W → ℕ) (request : Call W A) (w : W)
      → IsBreaker breaker calls
      → PausesQuietly clock calls
      → ((v : W) → calls (request v).1 ≤ suc (calls v))
      → calls (call_with_retries clock names retries breaker request w).outside
        ≤ calls w + pos_part (retries.max_retries +ℤ pos 1)
  unfolding call_with_retries
  call_with_retries_calls breaker calls request w lawful quiet once =
      let bounded =
        calls-try_from breaker clock calls lawful quiet retries.retry_backoff request once
          (rounds retries.max_retries) 0 none w in
      rw conclude-outside (omega (arith, bounded, rounds_lem retries.max_retries))

  pub call_with_retries_fails :
      (breaker : CircuitBreaker W A) (calls : W → ℕ) (request : Call W A) (w : W)
      → IsBreaker breaker calls
      → ((v : W) → is_ok (request v).0 ≡ false)
      → is_ok (call_with_retries clock names retries breaker request w).answer ≡ false
  unfolding call_with_retries
  call_with_retries_fails breaker calls request w lawful never =
      conclude_fails (clock.now w)
        (try_from breaker clock retries.retry_backoff request (rounds retries.max_retries) 0 none w)
        (try_from_fails breaker clock calls lawful retries.retry_backoff request never
          (rounds retries.max_retries) 0 none w)
