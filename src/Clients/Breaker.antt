-- ===== src/Clients/Breaker.antt =====
-- The settings that both clients give to `gobreaker.NewCircuitBreaker`. What happens on a change of the
-- breaker's state is a log line, which is left out, and the gauge of Metrics.antt.
use ctse_mood_rule_service.Common.{ℕ, String, Bool, ◌&&◌, leb}
use ctse_mood_rule_service.Common.Int.{ℤ, pos}
use ctse_mood_rule_service.Float.{Float64}
use ctse_mood_rule_service.Config.{CircuitBreakerConfig}

-- The fields of `gobreaker.Counts` that are read.
pub record Counts : Type 0 where
  pub requests : ℕ
  pub total_failures : ℕ

pub record Settings (F : Type 0) : Type 0 where
  pub name : String
  pub max_requests : ℕ
  pub interval : ℤ
  pub timeout : ℤ
  pub ready_to_trip : Counts → Bool

module _ {F : Type 0} ⦃fl : Float64 F⦄ where
  -- The ratio is computed first; it is NaN without requests.
  unfoldable pub ready_to_trip : F → Counts → Bool
  ready_to_trip failure_ratio counts =
      let ratio =
        fl.div (fl.of_int (pos counts.total_failures)) (fl.of_int (pos counts.requests)) in
      leb 3 counts.requests && fl.ge ratio failure_ratio

  unfoldable pub settings_of : String → CircuitBreakerConfig F → Settings F
  unfolding ready_to_trip
  settings_of name cfg = record {
    name = name;
    max_requests = cfg.max_requests;
    interval = cfg.interval;
    timeout = cfg.timeout;
    ready_to_trip = ready_to_trip cfg.failure_ratio;
  }
