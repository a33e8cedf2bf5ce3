-- ===== src/Metrics.antt =====
-- pkg/metrics/metrics.go: the collectors that are registered, and the changes of the metrics that the
-- other packages make, as calls of these collectors. Prometheus itself only outputs.
pub mod Labels
pub mod Counting
use ctse_mood_rule_service.Common.{
  ℕ, String, Bool, true, false, Option, List, [], ◌∷◌, ◌++◌, map, any, all, not, length, eqb, ◌==◌,
  ◌&&◌,
}
use ctse_mood_rule_service.Common.Int.{ℤ, pos}
use ctse_mood_rule_service.Server.{
  Event, requests_total, errors_total, cache_hit, cache_miss, request_duration,
  rule_evaluation_duration, rules_matched,
}
use ctse_mood_rule_service.Clients as Calling

pub data Kind : Type 0 where
  counter : Kind
  gauge : Kind
  -- the upper bounds of the buckets, in tenths
  histogram : List ℕ → Kind

-- A collector by its options and the names of its labels.
pub record Collector : Type 0 where
  pub name : String
  pub help : String
  pub kind : Kind
  pub labels : List String

unfoldable pub request_duration_collector : Collector
request_duration_collector = record {
  name = "mood_rule_request_duration_ms";
  help = "Duration of recommendation requests in milliseconds";
  kind = histogram (10 ∷ 50 ∷ 100 ∷ 250 ∷ 500 ∷ 750 ∷ 1_000 ∷ 2_500 ∷ 5_000 ∷ 10_000 ∷ []);
  labels = "method" ∷ "status" ∷ [];
}

unfoldable pub rule_evaluation_duration_collector : Collector
rule_evaluation_duration_collector = record {
  name = "mood_rule_evaluation_duration_ms";
  help = "Duration of rule evaluation in milliseconds";
  kind = histogram (1 ∷ 5 ∷ 10 ∷ 20 ∷ 50 ∷ 100 ∷ 250 ∷ 500 ∷ []);
  labels = [];
}

unfoldable pub cache_hits : Collector
cache_hits = record {
  name = "mood_rule_cache_hits_total";
  help = "Total number of cache hits";
  kind = counter;
  labels = [];
}

unfoldable pub cache_misses : Collector
cache_misses = record {
  name = "mood_rule_cache_misses_total";
  help = "Total number of cache misses";
  kind = counter;
  labels = [];
}

unfoldable pub kafka_reload_count : Collector
kafka_reload_count = record {
  name = "mood_rule_kafka_reload_total";
  help = "Total number of rule reloads triggered by Kafka";
  kind = counter;
  labels = [];
}

unfoldable pub rules_loaded : Collector
rules_loaded = record {
  name = "mood_rule_rules_loaded";
  help = "Number of rules currently loaded in memory";
  kind = gauge;
  labels = [];
}

unfoldable pub rule_version : Collector
rule_version = record {
  name = "mood_rule_version";
  help = "Current rule version";
  kind = gauge;
  labels = [];
}

unfoldable pub rules_matched_collector : Collector
rules_matched_collector = record {
  name = "mood_rule_rules_matched";
  help = "Number of rules matched per request";
  kind = histogram (0 ∷ 10 ∷ 20 ∷ 50 ∷ 100 ∷ 200 ∷ 500 ∷ 1_000 ∷ []);
  labels = [];
}

unfoldable pub external_service_duration_collector : Collector
external_service_duration_collector = record {
  name = "mood_rule_external_service_duration_ms";
  help = "Duration of external service calls in milliseconds";
  kind = histogram (100 ∷ 250 ∷ 500 ∷ 1_000 ∷ 2_500 ∷ 5_000 ∷ 10_000 ∷ 25_000 ∷ 50_000 ∷ []);
  labels = "service" ∷ "method" ∷ "status" ∷ [];
}

unfoldable pub circuit_breaker_state : Collector
circuit_breaker_state = record {
  name = "mood_rule_circuit_breaker_state";
  help = "Circuit breaker state (0=closed, 1=half-open, 2=open)";
  kind = gauge;
  labels = "service" ∷ [];
}

unfoldable pub requests_total_collector : Collector
requests_total_collector = record {
  name = "mood_rule_requests_total";
  help = "Total number of requests";
  kind = counter;
  labels = "method" ∷ "status" ∷ [];
}

unfoldable pub errors_total_collector : Collector
errors_total_collector = record {
  name = "mood_rule_errors_total";
  help = "Total number of errors";
  kind = counter;
  labels = "type" ∷ [];
}

-- What `promauto` registers, in the order of the variables.
unfoldable pub registered : List Collector
unfolding request_duration_collector rule_evaluation_duration_collector cache_hits cache_misses
    kafka_reload_count rules_loaded rule_version rules_matched_collector
    external_service_duration_collector circuit_breaker_state requests_total_collector
    errors_total_collector
registered =
    request_duration_collector ∷ rule_evaluation_duration_collector ∷ cache_hits ∷ cache_misses
    ∷ kafka_reload_count ∷ rules_loaded ∷ rule_version ∷ rules_matched_collector
    ∷ external_service_duration_collector ∷ circuit_breaker_state ∷ requests_total_collector
    ∷ errors_total_collector ∷ []

-- `Inc`, `Set` or `Observe` of a collector at the values of its labels.
pub data Change : Type 0 where
  inc : Collector → List String → Change
  set : Collector → List String → ℤ → Change
  observe : Collector → List String → ℕ → Change

-- `RecordCacheHit`
unfoldable pub record_cache_hit : Change
unfolding cache_hits
record_cache_hit = inc cache_hits []

-- `RecordCacheMiss`
unfoldable pub record_cache_miss : Change
unfolding cache_misses
record_cache_miss = inc cache_misses []

-- `GetCacheHitRatio`, at the number 0.0.
unfoldable pub get_cache_hit_ratio : {F : Type 0} → F → F
get_cache_hit_ratio zero_float = zero_float

-- The changes that `Recommend` makes.
unfoldable pub change_of_event : Event → Change
unfolding requests_total_collector errors_total_collector record_cache_hit record_cache_miss
    request_duration_collector rule_evaluation_duration_collector rules_matched_collector
change_of_event (requests_total status) = inc requests_total_collector ("Recommend" ∷ status ∷ [])
change_of_event (errors_total label) = inc errors_total_collector (label ∷ [])
change_of_event cache_hit = record_cache_hit
change_of_event cache_miss = record_cache_miss
change_of_event (request_duration status ms) =
    observe request_duration_collector ("Recommend" ∷ status ∷ []) ms
change_of_event (rule_evaluation_duration ms) = observe rule_evaluation_duration_collector [] ms
change_of_event (rules_matched n) = observe rules_matched_collector [] n

-- The changes that a call of another service makes.
unfoldable pub change_of_call : Calling.Metric → Change
unfolding external_service_duration_collector errors_total_collector
change_of_call (Calling.external_service_duration service method status ms) =
    observe external_service_duration_collector (service ∷ method ∷ status ∷ []) ms
change_of_call (Calling.errors_total label) = inc errors_total_collector (label ∷ [])

-- The gauge that `OnStateChange` of both clients sets to the number of the breaker's new state.
unfoldable pub on_state_change : String → ℕ → Change
unfolding circuit_breaker_state
on_state_change name to = set circuit_breaker_state (name ∷ []) (pos to)

-- The gauges that the start sets.
unfoldable pub changes_at_start : ℕ → ℤ → List Change
unfolding rules_loaded rule_version
changes_at_start count version = set rules_loaded [] (pos count) ∷ set rule_version [] version ∷ []
