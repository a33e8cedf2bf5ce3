-- ===== src/Clients/Auth.antt =====
-- internal/grpc/clients/auth_client.go.
pub mod Failing
use ctse_mood_rule_service.Common.{
  ℕ, String, Option, none, some, Error, errorf, Result, ok, err, wrap,
}
use ctse_mood_rule_service.Common.Int.{ℤ}
use ctse_mood_rule_service.Server.{GetUserMood}
use ctse_mood_rule_service.Float.{Float64}
use ctse_mood_rule_service.Config.{ServiceEndpoint}
use ctse_mood_rule_service.Clients.Breaker.{Settings, settings_of}
use ctse_mood_rule_service.Clients.{
  Call, CircuitBreaker, Clock, Retries, Names, Done, call_with_retries,
}

-- `conn.Close`, for a connection that may be nil
pub record AuthClient (W : Type 0) : Type 0 where
  pub circuit_breaker : CircuitBreaker W String
  pub retries : Retries
  pub conn : Option (W → Option Error × W)

-- `NewAuthClient`: `dial` is `grpc.Dial`, which answers how to close the connection.
unfoldable pub new_auth_client :
    {F W : Type 0} ⦃fl : Float64 F⦄
    → (String → Result (W → Option Error × W))
    → (Settings F → CircuitBreaker W String)
    → ServiceEndpoint F
    → Result (AuthClient W)
unfolding settings_of
new_auth_client dial new_circuit_breaker cfg = elim (dial cfg.address) [
  | err e ↦ err (wrap "failed to connect to Auth Service" e)
  | ok close_conn ↦ ok (record {
    circuit_breaker = new_circuit_breaker (settings_of "AuthService" cfg.circuit_breaker);
    retries = record { max_retries = cfg.max_retries; retry_backoff = cfg.retry_backoff };
    conn = some close_conn;
  })
]

abbrev auth_names : Names
auth_names = record {
  service = "auth";
  method = "GetUserMood";
  error_label = "auth_service";
  task = "get user mood";
}

module _ {W : Type 0} where
  -- The function that `Execute` is given: the call of the service is commented out.
  unfoldable pub user_info_request : String → Call W String
  user_info_request user_id w = (err (errorf "GetUserInfo RPC not implemented in Auth Service"), w)

  -- `GetUserMood`
  unfoldable pub get_user_mood : Clock W → AuthClient W → String → String → W → Done W String
  unfolding user_info_request call_with_retries
  get_user_mood clock c user_id trace_id w =
      call_with_retries clock auth_names c.retries c.circuit_breaker (user_info_request user_id) w

  -- The client as the server sees it during one request.
  unfoldable pub auth_answers : Clock W → AuthClient W → W → GetUserMood
  auth_answers clock c w user_id trace_id = (get_user_mood clock c user_id trace_id w).answer

  -- `Close`
  unfoldable pub close : AuthClient W → W → Option Error × W
  close c w = elim c.conn [ none ↦ (none, w) | some close_conn ↦ close_conn w ]
