-- ===== src/Tests/Serving.antt =====
-- The server's theorems at sample products and requests. The bytes of an answer are the answer, and a
-- Go map is gone through in the order of its entries.
use mathlib.Core.List.{Mem, Perm, Pairwise, mem-cons_self}
use mathlib.Core.List.Perm
use ctse_mood_rule_service.Common.{
  ◌≤◌, ◌+◌, String, true, false, ◌≡◌, ◌⊎◌, refl, some, List, [], ◌∷◌, map, any, test_of_mem, arith,
  keys, insert, lookup, ok, not,
}
use ctse_mood_rule_service.Common.Int.{pos, to_int32, ◌+ℤ◌, ◌*ℤ◌}
use ctse_mood_rule_service.Common.Decimal.{format_int}
use ctse_mood_rule_service.Model.{Rule, Product}
use ctse_mood_rule_service.Match.{matches, calculate_score}
use ctse_mood_rule_service.Engine.{new_rule_engine, load, evaluate}
use ctse_mood_rule_service.Cache.{Json, key_string, new_memory_cache, get, set}
use ctse_mood_rule_service.Sort.Exchange.{exchange_slice, exchange_sort}
use ctse_mood_rule_service.Ranking.{
  to_recommendation, rule_matches_product, score_product, score_products,
}
use ctse_mood_rule_service.Ranking.Laws.{scored_entry, score_products-perm, score_products-IsSorted}
use ctse_mood_rule_service.Filters.{MapRange, aggregate_filters}
use ctse_mood_rule_service.Filters.Texts.{times, once, lists_tag, lists_category, aggregate_texts}
use ctse_mood_rule_service.Filters.Prices.{
  RespectsMin, RespectsMax, IsMinOf, IsMaxOf, aggregate_bounds,
}
use ctse_mood_rule_service.Server.{
  UserContext, ProductRecommendations, client, GetUserMood, response, Server, validate_request,
  generate_cache_key, check_cache,
}
use ctse_mood_rule_service.Server.Recommend.{
  GetProductsByFilters, Surroundings, trace_of, recommend,
}
use ctse_mood_rule_service.Server.Recommend.Answers.{
  labels_fit, is_response, requests, is_one, recommend_counted,
}
use ctse_mood_rule_service.Server.Recommend.Caching.{from_cache_copy}
use ctse_mood_rule_service.Server.Recommend.Explaining.{Explains, key_of, recommend-Explains}
use ctse_mood_rule_service.Server.Recommend.Again.{recommend_again}
use ctse_mood_rule_service.Tests.Data.{
  Number, num, not_a_number, number_float, number_laws, rules, rule_engine, happy_morning,
  any_morning,
}

abbrev tea : Product Number
tea = record {
  product_id = "p1";
  name = "Tea";
  description = "Green";
  price = num (pos 4);
  category = "drinks";
  tags = "fresh" ∷ "cozy" ∷ [];
  image_url = "";
  in_stock = true;
}

abbrev blanket : Product Number
blanket = record tea { product_id = "p2"; name = "Blanket"; tags = "cozy" ∷ [] }

abbrev products : List (Product Number)
products = blanket ∷ tea ∷ []

-- a rule that asks for a price from 2 to 30
abbrev priced : Rule Number
priced = record happy_morning {
  actions = record happy_morning.actions {
    price_range = some (record { min = num (pos 2); max = num (pos 30) });
  };
}

abbrev in_order : MapRange
in_order = record { range = keys; range-perm = λ m. Perm.refl (keys m) }

unfoldable pub serving : Unit {0}
unfolding rule_matches_product score_product matches calculate_score evaluate load new_rule_engine
    exchange_sort insert lookup ◌+ℤ◌ ◌*ℤ◌ score_products recommend validate_request
    generate_cache_key check_cache set get key_string format_int to_int32 aggregate_filters
    to_recommendation new_memory_cache
serving = tt

score_products-perm_example :
    Perm
      (score_products products rules)
      (map (λ p. to_recommendation (scored_entry rules p)) products)
score_products-perm_example = score_products-perm products rules

all_numbers :
    (p : Product Number) → Mem p products → not_a_number (scored_entry rules p).score ≡ false
unfolding serving
all_numbers p m =
    let test = test_of_mem (λ p. not (not_a_number (scored_entry rules p).score)) products refl m in
    ground arith

score_products-IsSorted_example :
    Pairwise (λ a b. number_float.gt b.score a.score ≡ false) (score_products products rules)
score_products-IsSorted_example = score_products-IsSorted number_laws products rules all_numbers

aggregate_bounds_example :
    RespectsMin (aggregate_filters in_order (priced ∷ [])).min_price priced.actions.price_range
    × RespectsMax (aggregate_filters in_order (priced ∷ [])).max_price priced.actions.price_range
    × IsMinOf (num (pos 0)) (aggregate_filters in_order (priced ∷ [])).min_price (priced ∷ [])
    × IsMaxOf
        (num (pos 1_000_000))
        (aggregate_filters in_order (priced ∷ [])).max_price
        (priced ∷ [])
aggregate_bounds_example = aggregate_bounds number_laws in_order (priced ∷ []) priced mem-cons_self

aggregate_texts_example :
    (times "fresh" (aggregate_filters in_order rules).tags ≡ once (any (lists_tag "fresh") rules))
    × (times "fresh" (aggregate_filters in_order rules).categories
        ≡ once (any (lists_category "fresh") rules))
aggregate_texts_example = aggregate_texts in_order rules "fresh"

abbrev pub Answer : Type 0
Answer = ProductRecommendations Number

abbrev answer_json : Json Answer Answer
answer_json = record { marshal = ok; unmarshal = ok }

abbrev pub call : Surroundings Number Answer
call = record {
  new_uuid = "t1";
  start_time = 0;
  cache_get_time = 10;
  eval_start = 20;
  eval_end = 2_000_030;
  evaluate_duration = 2_000_000;
  cache_set_time = 3_000_000;
  end_time = 4_000_000;
  json = answer_json;
  slice = exchange_slice;
  order = in_order;
}

abbrev pub later_call : Surroundings Number Answer
later_call = record call { new_uuid = "t2"; cache_get_time = 5_000_000 }

abbrev pub request : UserContext
request = record {
  user_id = "u1";
  mood = "";
  time_of_day = "morning";
  weather = "rainy";
  occasion = "";
  user_preferences = [];
  purchase_history_tags = [];
  trace_id = "";
}

-- another occasion and other preferences
abbrev pub birthday : UserContext
birthday = record request { occasion = "birthday"; user_preferences = ("diet", "vegan") ∷ [] }

abbrev pub always_happy : GetUserMood
always_happy _ _ = ok "happy"

abbrev catalog : GetProductsByFilters Number
catalog _ _ _ = ok products

abbrev pub server : Server Number Answer (GetProductsByFilters Number)
server = record {
  engine = rule_engine;
  cache = new_memory_cache (pos 600_000_000_000);
  auth_client = client always_happy;
  product_client = client catalog;
}

recommend_counted_example :
    let step = recommend call request server in
    (labels_fit step.0 (requests step.2) ≡ true) × ((is_response step.0 ≡ true) ⊎ (step.1 ≡ server))
recommend_counted_example = recommend_counted call request server

abbrev pub two_ranked : Answer
two_ranked = record {
  recommendations = map to_recommendation (
      score_product (any_morning ∷ happy_morning ∷ []) tea
      ∷ score_product (any_morning ∷ happy_morning ∷ []) blanket
      ∷ []);
  trace_id = "t1";
  metadata = some (record {
    rules_evaluated = pos 2;
    rules_matched = pos 2;
    from_cache = false;
    evaluation_time_ms = 2;
    rule_version = "1";
  });
}

recommend_ranked : (recommend call request server).0 ≡ response two_ranked
unfolding serving
recommend_ranked = refl

recommend_success : is_one "success" (requests (recommend call request server).2) ≡ true
unfolding serving
recommend_success = refl

pub recommend_stored : (recommend call request server).1 ≡ record server {
  cache =
      (set call.json call.cache_set_time
        (key_of call request server "happy")
        two_ranked
        server.cache).0;
}
unfolding serving
recommend_stored = refl

within : 5_000_000 ≤ 3_000_000 + server.cache.ttl
unfolding serving
within = omega arith

recommend_again_example :
    ((recommend later_call birthday (recommend call request server).1).0
      ≡ response (from_cache_copy two_ranked))
    × ((recommend later_call birthday (recommend call request server).1).1
        ≡ (recommend call request server).1)
recommend_again_example =
    recommend_again call later_call request birthday server always_happy "happy" two_ranked
      two_ranked refl refl refl refl refl refl refl recommend_ranked recommend_success refl refl
      refl within

recommend-Explains_example :
    (get_user_mood : GetUserMood) × (mood : String) × (server.auth_client ≡ client get_user_mood)
    × (get_user_mood "u1" (trace_of call request) ≡ ok mood)
    × Explains call request server mood two_ranked (recommend call request server).1
recommend-Explains_example = recommend-Explains call request server two_ranked recommend_ranked
