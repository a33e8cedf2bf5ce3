-- ===== src/Clients/Auth/Failing.antt =====
-- `GetUserMood` of internal/grpc/clients/auth_client.go answers no mood.
use ctse_mood_rule_service.Common.{ℕ, String, false, ◌≡◌, refl, is_ok}
use ctse_mood_rule_service.Clients.{Clock}
use ctse_mood_rule_service.Clients.Calls.{IsBreaker, call_with_retries_fails}
use ctse_mood_rule_service.Clients.Auth.{AuthClient, user_info_request, get_user_mood}

module _ {W : Type 0} (clock : Clock W) (c : AuthClient W) (calls : W → ℕ) where
  -- `GetUserMood` of the auth client fails for every user and trace, whatever is outside, if the
  -- breaker answers what its request answers or an error of its own.
  pub get_user_mood_fails :
      (user_id trace_id : String) (w : W)
      → IsBreaker c.circuit_breaker calls
      → is_ok (get_user_mood clock c user_id trace_id w).answer ≡ false
  unfolding get_user_mood user_info_request
  get_user_mood_fails user_id trace_id w lawful =
      call_with_retries_fails clock _ c.retries c.circuit_breaker calls (user_info_request user_id)
        w lawful (λ v. refl)
