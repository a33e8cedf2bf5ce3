-- ===== src/Server/Health.antt =====
-- `HealthCheck` of internal/grpc/server.go.
use Prim.Native.String.{◌++◌}
use ctse_mood_rule_service.Common.{String, Option, none, some, [], ◌∷◌, Dict, Error, errorf, wrap}
use ctse_mood_rule_service.Common.Decimal.{format_nat}
use ctse_mood_rule_service.Engine.{get_rule_count}
use ctse_mood_rule_service.Cache.{ping}
use ctse_mood_rule_service.Server.{Client, no_client, nil_pointer, client, Server}

pub record HealthCheckResponse : Type 0 where
  pub status : String
  pub dependencies : Dict String

-- `Error`
unfoldable pub error_text : Error → String
error_text (errorf text) = text
error_text (wrap text e) = text ++ (": " ++ error_text e)

pub redis_health : Option Error → String
unfolding error_text
redis_health none = "healthy"
redis_health (some e) = "unhealthy: " ++ error_text e

-- A nil pointer in the interface is not `== nil`.
pub client_health : {A : Type 0} → Client A → String
client_health no_client = "unavailable (degraded mode)"
client_health nil_pointer = "healthy"
client_health (client f) = "healthy"

module _ {F B P : Type 0} where
  unfoldable pub health_check : Server F B P → HealthCheckResponse
  unfolding ping redis_health get_rule_count format_nat client_health
  health_check s = record {
    status = "healthy";
    dependencies =
        ("redis", redis_health (ping s.cache))
        ∷ ("rule_engine", "healthy (" ++ (format_nat (get_rule_count s.engine) ++ " rules loaded)"))
        ∷ ("auth_service", client_health s.auth_client)
        ∷ ("product_catalog", client_health s.product_client)
        ∷ [];
  }
