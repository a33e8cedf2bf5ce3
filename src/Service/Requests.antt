-- ===== src/Service/Requests.antt =====
-- What the clients that the service starts with make of its requests.
use ctse_mood_rule_service.Common.{ℕ, ◌≡◌, refl, ◌==◌, if◌then◌else◌, Result, ok, err}
use ctse_mood_rule_service.Float.{Float64}
use ctse_mood_rule_service.Engine.{RuleEngine}
use ctse_mood_rule_service.Cache.{MemoryCache}
use ctse_mood_rule_service.Clients.{Clock}
use ctse_mood_rule_service.Clients.Calls.{IsBreaker}
use ctse_mood_rule_service.Clients.Auth.{AuthClient, auth_answers}
use ctse_mood_rule_service.Clients.Auth.Failing.{get_user_mood_fails}
use ctse_mood_rule_service.Clients.Catalog.{ProductCatalogClient}
use ctse_mood_rule_service.Server.{UserContext, invalid_argument, internal}
use ctse_mood_rule_service.Server.Recommend.{Surroundings, trace_of, recommend}
use ctse_mood_rule_service.Server.Recommend.Failing.{
  End, failed_with, crashed, end_of, recommend_without_mood, recommend_nil_pointer,
}
use ctse_mood_rule_service.Service.{as_interface, new_server}

-- The breaker of a client, if there is a client, is one that answers what its request answers or an
-- error of its own; `calls` counts the requests that went out.
abbrev pub HasBreaker : {W : Type 0} → (W → ℕ) → Result (AuthClient W) → Type 0
HasBreaker calls (err e) = Unit {0}
HasBreaker calls (ok c) = IsBreaker c.circuit_breaker calls

-- How a request that names its user ends.
abbrev pub without_mood : {W : Type 0} → Result (AuthClient W) → End
without_mood (err e) = crashed
without_mood (ok c) = failed_with internal

module _ {F B W : Type 0} ⦃fl : Float64 F⦄ (clock : Clock W) (calls : W → ℕ)
    (env : Surroundings F B) (engine : RuleEngine F) (cache : MemoryCache B)
    (product_client : Result (ProductCatalogClient F W)) where
  -- Whatever the rules, the cache, the request and the product catalog are, a server with the clients
  -- that the start makes answers no recommendations: it reports an invalid argument if the request
  -- names no user; otherwise an internal error, since the auth client answers no mood, if the breaker
  -- of this client answers what its request answers or an error of its own; and if the connection to
  -- the auth service failed at the start, the request panics.
  pub recommend-new_server :
      (auth_client : Result (AuthClient W)) (req : UserContext) (w : W)
      → HasBreaker calls auth_client
      → end_of (recommend env req (new_server clock w engine cache auth_client product_client)).0
        ≡ (if req.user_id == "" then failed_with invalid_argument else without_mood auth_client)
  unfolding new_server as_interface auth_answers
  recommend-new_server (err e) req w lawful =
      recommend_nil_pointer env req (new_server clock w engine cache (err e) product_client) refl
  recommend-new_server (ok c) req w lawful =
      recommend_without_mood env req (new_server clock w engine cache (ok c) product_client)
        (auth_answers clock c w) refl
        (get_user_mood_fails clock c calls req.user_id (trace_of env req) w lawful)
