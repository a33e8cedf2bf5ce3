-- ===== src/Server.antt =====
-- internal/grpc/server.go: the data of a request and of its answer, and the small methods of the
-- server. `Recommend` itself is in Server/Recommend.antt.
-- An error is read by what it prints, so `%v` and `%w` are both `wrap`. A log line changes nothing
-- that the server reads, and is left out.
pub mod Recommend
pub mod Health
use ctse_mood_rule_service.Common.{
  ℕ, String, Bool, true, false, Option, none, some, List, [], ◌∷◌, ◌==◌, if◌then◌else◌, Dict, Error,
  errorf, Result, ok, err,
}
use ctse_mood_rule_service.Common.Int.{ℤ}
use ctse_mood_rule_service.Engine.{RuleEngine, get_version}
use ctse_mood_rule_service.Cache.{CacheKey, Json, MemoryCache, get}
use ctse_mood_rule_service.Ranking.{ProductRecommendation}

-- The messages of proto/mood_rule_service.proto.
pub record UserContext : Type 0 where
  pub user_id : String
  pub mood : String
  pub time_of_day : String
  pub weather : String
  pub occasion : String
  pub user_preferences : Dict String
  pub purchase_history_tags : List String
  pub trace_id : String

pub record RecommendationMetadata : Type 0 where
  pub rules_evaluated : ℤ
  pub rules_matched : ℤ
  pub from_cache : Bool
  pub evaluation_time_ms : ℕ
  pub rule_version : String

pub record ProductRecommendations (F : Type 0) : Type 0 where
  pub recommendations : List (ProductRecommendation F)
  pub trace_id : String
  -- a pointer
  pub metadata : Option RecommendationMetadata

-- A value of an interface type: nil, an interface around a nil pointer (which is not `== nil`, and
-- whose methods read through the pointer), or an object.
pub data Client (A : Type 0) : Type 0 where
  no_client : Client A
  nil_pointer : Client A
  client : A → Client A

-- What a call of `GetUserMood` answers: user, trace.
abbrev pub GetUserMood : Type 0
GetUserMood = String → String → Result String

pub data Code : Type 0 where
  invalid_argument : Code
  failed_precondition : Code
  internal : Code
  unavailable : Code

pub record Status : Type 0 where
  pub code : Code
  pub message : Error

pub data Reply (F : Type 0) : Type 0 where
  response : ProductRecommendations F → Reply F
  failed : Status → Reply F
  -- a nil pointer was read
  panicked : Reply F

-- A change of the metrics of pkg/metrics; the label "Recommend" is left out, durations are in
-- milliseconds.
pub data Event : Type 0 where
  requests_total : String → Event
  errors_total : String → Event
  cache_hit : Event
  cache_miss : Event
  request_duration : String → ℕ → Event
  rule_evaluation_duration : ℕ → Event
  rules_matched : ℕ → Event

-- `P` is what `GetProductsByFilters` answers at its arguments.
pub record Server (F B P : Type 0) : Type 0 where
  pub engine : RuleEngine F
  pub cache : MemoryCache B
  pub auth_client : Client GetUserMood
  pub product_client : Client P

-- `validateRequest`
unfoldable pub validate_request : UserContext → Option Error
validate_request req = if req.user_id == "" then some (errorf "user_id is required") else none

-- What `checkCache` comes back with: nothing, an error, or the recommendations; or it panics, when
-- the stored JSON has no metadata to write `FromCache` to.
pub data Checked (F : Type 0) : Type 0 where
  not_cached : Checked F
  unreadable : Error → Checked F
  cached : ProductRecommendations F → Checked F
  no_metadata : Checked F

module _ {F : Type 0} where
  pub mark_from_cache : ProductRecommendations F → Option RecommendationMetadata → Checked F
  mark_from_cache r none = no_metadata
  mark_from_cache r (some m) =
      cached (record r { metadata = some (record m { from_cache = true }) })

  pub read_cached : Result (ProductRecommendations F) → Checked F
  unfolding mark_from_cache
  read_cached (err e) = unreadable e
  read_cached (ok r) = mark_from_cache r r.metadata

  pub check_data : {B : Type 0} → Json (ProductRecommendations F) B → Option B → Checked F
  unfolding read_cached
  check_data json none = not_cached
  check_data json (some bytes) = read_cached (json.unmarshal bytes)

  module _ {B P : Type 0} where
    -- `generateCacheKey`
    unfoldable pub generate_cache_key : Server F B P → String → String → String → String → CacheKey
    unfolding get_version
    generate_cache_key s mood time_of_day weather user_segment = record {
      mood = mood;
      time_of_day = time_of_day;
      weather = weather;
      segment = user_segment;
      rule_version = get_version s.engine;
    }

    -- `checkCache`, at the time at which the cache is read.
    unfoldable pub check_cache :
        Json (ProductRecommendations F) B → ℕ → CacheKey → Server F B P → Checked F
    unfolding check_data get
    check_cache json now key s = check_data json (get now key s.cache)
