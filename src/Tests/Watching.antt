-- ===== src/Tests/Watching.antt =====
-- The logger and the metrics at sample contexts and calls. A context is the list of its values.
use ctse_mood_rule_service.Common.{
  ℕ, String, Bool, true, false, Option, none, some, List, [], ◌∷◌, ◌≡◌, refl, ◌==◌, eq_iff,
  if◌then◌else◌, ok, Bool-cases, inl, inr,
}
use ctse_mood_rule_service.Server.{UserContext}
use ctse_mood_rule_service.Server.Recommend.{Surroundings}
use ctse_mood_rule_service.Server.Recommend.Answers.{is_response}
use ctse_mood_rule_service.Server.{invalid_argument, failed_precondition, internal, unavailable}
use ctse_mood_rule_service.Logger.{
  Key, context_key, other_key, AnyValue, Contexts, ContextLaws, with_trace_id, warn, Zap, written,
  init, log_at,
}
use ctse_mood_rule_service.Logger.Tracing.{Logs, trace_fields, init-log_at}
use ctse_mood_rule_service.Metrics.Counting.{Counted, has_code, requests-Counted}
use ctse_mood_rule_service.Tests.Data.{Number, number_float}
use ctse_mood_rule_service.Tests.Serving.{Answer, call, later_call, request, birthday, server}

abbrev same_key : Key → Key → Bool
same_key (context_key a) (context_key b) = a == b
same_key (other_key a) (other_key b) = a == b
same_key (context_key a) (other_key b) = false
same_key (other_key a) (context_key b) = false

same_key_refl : (k : Key) → same_key k k ≡ true
same_key_refl (context_key a) = (eq_iff a a).1 refl
same_key_refl (other_key a) = (eq_iff a a).1 refl

same_key_eq : (a b : Key) → same_key a b ≡ true → b ≡ a
same_key_eq (context_key a) (context_key b) h = let e = (eq_iff a b).0 h in cc
same_key_eq (other_key a) (other_key b) h = let e = (eq_iff a b).0 h in cc
same_key_eq (context_key a) (other_key b) h = absurd (cc)
same_key_eq (other_key a) (context_key b) h = absurd (cc)

abbrev Values : Type 0
Values = List (Key × AnyValue ℕ)

abbrev value_at : Values → Key → Option (AnyValue ℕ)
value_at [] k = none
value_at ((j, v) ∷ values) k = if same_key j k then some v else value_at values k

abbrev as_list : Contexts Values ℕ
as_list = record { background = []; with_value = λ c k v. (k, v) ∷ c; value = value_at }

as_list-ContextLaws : ContextLaws as_list
as_list-ContextLaws = record {
  here = λ c k v. rw (same_key_refl k) refl;
  elsewhere = λ c k j v differ. elim (Bool-cases (same_key k j)) [
    | inl e ↦ absurd (differ (same_key_eq k j e))
    | inr e ↦ rw e refl
  ];
  nowhere = λ k. refl;
}

-- A configuration is its number of changes, a logger its configuration.
abbrev plain_zap : Zap ℕ ℕ (String × String)
plain_zap = record {
  new_development_config = 0;
  new_production_config = 10;
  with_capital_color_level_encoder = λ g. 1;
  with_time_key = λ key g. g;
  with_iso8601_time_encoder = λ g. g;
  build = λ skip g. ok g;
  string_field = λ key v. (key, v);
  sync = λ log. none;
}

init-log_at_example :
    Logs
      (init plain_zap false)
      (λ log.
        log_at plain_zap as_list log warn
          (with_trace_id as_list (with_trace_id as_list [] "t0") "t1")
          "Cache check failed"
          (("error", "eof") ∷ []))
      (λ l. written l warn "Cache check failed" (("error", "eof") ∷ trace_fields plain_zap "t1"))
init-log_at_example =
    init-log_at as_list as_list-ContextLaws plain_zap false (with_trace_id as_list [] "t0") "t1"
      warn "Cache check failed" (("error", "eof") ∷ [])

abbrev calls : List (Surroundings Number Answer × UserContext)
calls = (call, request) ∷ (later_call, birthday) ∷ (call, record request { user_id = "" }) ∷ []

requests-Counted_example :
    Counted ("success" ∷ "no_matches" ∷ []) is_response calls server
    × Counted ("invalid_input" ∷ []) (has_code invalid_argument) calls server
    × Counted ("auth_unavailable" ∷ []) (has_code failed_precondition) calls server
    × Counted ("auth_error" ∷ "product_error" ∷ []) (has_code internal) calls server
    × Counted ("product_unavailable" ∷ []) (has_code unavailable) calls server
requests-Counted_example = requests-Counted calls server
