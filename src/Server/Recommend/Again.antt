-- ===== src/Server/Recommend/Again.antt =====
-- A second call of `Recommend` within the time to live of the first one's answer.
use ctse_mood_rule_service.Common.{◌+◌, ◌≤◌, String, true, false, ◌≡◌, ap, ◌∙◌, ◌==◌, ok}
use ctse_mood_rule_service.Float.{Float64}
use ctse_mood_rule_service.Cache.{get, set}
use ctse_mood_rule_service.Server.{
  UserContext, ProductRecommendations, client, GetUserMood, response, Server, generate_cache_key,
}
use ctse_mood_rule_service.Server.Recommend.{
  GetProductsByFilters, Surroundings, trace_of, recommend,
}
use ctse_mood_rule_service.Server.Recommend.Answers.{requests, is_one}
use ctse_mood_rule_service.Server.Recommend.Caching.{
  is_fresh, from_cache_copy, recommend-Stores, get_just_set, recommend_finds,
}

module _ {F B : Type 0} ⦃fl : Float64 F⦄ where
  -- After a call with a user that computed the answer `r` with success, and whose JSON can be
  -- written and read back, a call for the same user, time of day, weather and mood answers `r`,
  -- marked as from the cache, and changes nothing, as long as it reads the cache within the time to
  -- live. The occasion, the preferences and the purchase history of the second request play no
  -- part: they are not in the key.
  pub recommend_again :
      (env later : Surroundings F B) (req again : UserContext)
      (s : Server F B (GetProductsByFilters F)) (f : GetUserMood) (mood : String)
      (r : ProductRecommendations F) (bytes : B)
      → (req.user_id == "") ≡ false
      → s.auth_client ≡ client f
      → f req.user_id (trace_of env req) ≡ ok mood
      → f again.user_id (trace_of later again) ≡ ok mood
      → again.user_id ≡ req.user_id
      → again.time_of_day ≡ req.time_of_day
      → again.weather ≡ req.weather
      → (recommend env req s).0 ≡ response r
      → is_one "success" (requests (recommend env req s).2) ≡ true
      → is_fresh r ≡ true
      → env.json.marshal r ≡ ok bytes
      → later.json.unmarshal bytes ≡ ok r
      → later.cache_get_time ≤ env.cache_set_time + s.cache.ttl
      → ((recommend later again (recommend env req s).1).0 ≡ response (from_cache_copy r))
        × ((recommend later again (recommend env req s).1).1 ≡ (recommend env req s).1)
  unfolding generate_cache_key
  recommend_again env later req again s f mood r bytes u c a b user time weather e l h m j within =
      let key = generate_cache_key s mood req.time_of_day req.weather req.user_id in
      let next : Server F B (GetProductsByFilters F) = record s {
        cache = (set env.json env.cache_set_time key r s.cache).0;
      } in
      let stored : (recommend env req s).1 ≡ next =
        recommend-Stores env req s f mood r u c a e l h in
      let same : generate_cache_key next mood again.time_of_day again.weather again.user_id ≡ key =
        cc in
      rw stored (
        recommend_finds later again next f mood r bytes (ap (λ x. x == "") user ∙ u) c b
          (ap (λ k. get later.cache_get_time k next.cache) same
            ∙ get_just_set env.json key r bytes env.cache_set_time later.cache_get_time s.cache m
                within)
          j h)
