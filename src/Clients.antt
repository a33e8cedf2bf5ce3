-- ===== src/Clients.antt =====
-- internal/grpc/clients: the loop that the methods of both clients share, over the circuit breaker of
-- github.com/sony/gobreaker, which is a parameter. `W` is the state of everything outside: the
-- breaker's counts, the other service, the clock. The deadline of an attempt is part of what the call of
-- the service answers. Log lines are left out.
pub mod Breaker
pub mod Attempts
pub mod Calls
pub mod Auth
pub mod Catalog
use Prim.Native.Nat.{◌/◌}
use Prim.Native.String.{◌++◌}
use ctse_mood_rule_service.Common.{
  ℕ, suc, zero, ◌-◌, String, Bool, true, false, Option, none, some, List, [], ◌∷◌, ltb,
  if◌then◌else◌, Error, errorf, wrap, Result, ok, err,
}
use ctse_mood_rule_service.Common.Int.{ℤ, pos, negsuc, ◌+ℤ◌, ◌*ℤ◌}
use ctse_mood_rule_service.Common.Decimal.{format_int}

-- A call that works on what is outside.
abbrev pub Call : Type 0 → Type 0 → Type 0
Call W A = W → Result A × W

-- `CircuitBreaker.Execute` at one type of answers, and the test for `gobreaker.ErrOpenState`.
pub record CircuitBreaker (W A : Type 0) : Type 0 where
  pub execute : Call W A → Call W A
  pub is_open_state : Error → Bool

-- `time.Sleep`, and the clock, in nanoseconds.
pub record Clock (W : Type 0) : Type 0 where
  pub sleep : ℤ → W → W
  pub now : W → ℕ

-- The fields of a client that the loop reads.
pub record Retries : Type 0 where
  pub max_retries : ℤ
  pub retry_backoff : ℤ

-- A change of the metrics: `ExternalServiceDuration` (service, method, status, milliseconds) and
-- `ErrorsTotal`.
pub data Metric : Type 0 where
  external_service_duration : String → String → String → ℕ → Metric
  errors_total : String → Metric

-- How the loop ends: with an answer, or with the last error, which is nil if there was no attempt.
pub data Outcome (A : Type 0) : Type 0 where
  succeeded : A → Outcome A
  gave_up : Option Error → Outcome A

-- How often `for attempt := 0; attempt <= maxRetries; attempt++` goes round.
unfoldable pub rounds : ℤ → ℕ
rounds (pos n) = suc n
rounds (negsuc n) = 0

module _ {W A : Type 0} (breaker : CircuitBreaker W A) (clock : Clock W) (retry_backoff : ℤ) where
  -- `if attempt > 0 { time.Sleep(time.Duration(attempt) * retryBackoff) }`
  unfoldable pub back_off : ℕ → W → W
  back_off attempt w = if ltb 0 attempt then clock.sleep (pos attempt *ℤ retry_backoff) w else w

  -- The loop, from a round on: how many are left, its number, the last error.
  unfoldable pub try_from : Call W A → ℕ → ℕ → Option Error → W → Outcome A × W
  unfolding back_off
  try_from request zero attempt last_err w = (gave_up last_err, w)
  try_from request (suc left) attempt last_err w =
      let (r, w') = breaker.execute request (back_off attempt w) in
      elim r [
        | ok result ↦ (succeeded result, w')
        | err e ↦ elim (breaker.is_open_state e) [
          | true ↦ (gave_up (some e), w')
          | false ↦ try_from request left (suc attempt) (some e) w'
        ]
      ]

-- "…: %w", also of a nil error.
unfoldable pub wrap_last : String → Option Error → Error
wrap_last text none = errorf (text ++ ": %!w(<nil>)")
wrap_last text (some e) = wrap text e

-- "failed to … after %d attempts"
unfoldable pub after_attempts : String → ℤ → String
unfolding format_int ◌+ℤ◌
after_attempts what max_retries =
    "failed to " ++ (what ++ (" after " ++ (format_int (max_retries +ℤ pos 1) ++ " attempts")))

-- What a method leaves behind: its answer, what is outside, and its changes of the metrics.
pub record Done (W A : Type 0) : Type 0 where
  pub answer : Result A
  pub outside : W
  pub metrics : List Metric

-- The names that a method uses: the labels of its metrics, and what it says that it failed to do.
pub record Names : Type 0 where
  pub service : String
  pub method : String
  pub error_label : String
  pub task : String

-- `time.Since(startTime).Milliseconds()`
unfoldable pub elapsed : {W : Type 0} → Clock W → ℕ → W → ℕ
elapsed clock start_time w = (clock.now w - start_time) / 1_000_000

module _ {W A : Type 0} (clock : Clock W) (names : Names) (retries : Retries) where
  -- What follows the loop, or the return from within it.
  unfoldable pub conclude : ℕ → Outcome A × W → Done W A
  unfolding elapsed wrap_last after_attempts
  conclude start_time (succeeded result, w) = record {
    answer = ok result;
    outside = w;
    metrics =
        external_service_duration names.service names.method "success" (elapsed clock start_time w)
        ∷ [];
  }
  conclude start_time (gave_up last_err, w) = record {
    answer = err (wrap_last (after_attempts names.task retries.max_retries) last_err);
    outside = w;
    metrics =
        external_service_duration names.service names.method "error" (elapsed clock start_time w)
        ∷ errors_total names.error_label
        ∷ [];
  }

  -- A method, given its request.
  unfoldable pub call_with_retries : CircuitBreaker W A → Call W A → W → Done W A
  unfolding try_from rounds conclude
  call_with_retries breaker request w =
      conclude (clock.now w)
        (try_from breaker clock retries.retry_backoff request (rounds retries.max_retries) 0 none w)
