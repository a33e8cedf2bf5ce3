-- ===== src/Metrics/Labels.antt =====
-- Calls of the collectors that prometheus answers with a panic: two registered under one name, or another
-- number of values than there are labels. There are none.
use ctse_mood_rule_service.Common.{
  ℕ, String, Bool, true, false, ◌≡◌, refl, List, [], ◌∷◌, map, any, all, not, length, eqb, ◌==◌,
  ◌&&◌,
}
use ctse_mood_rule_service.Common.Int.{ℤ}
use ctse_mood_rule_service.Float.{Float64}
use ctse_mood_rule_service.Server.{
  UserContext, Server, Event, requests_total, errors_total, cache_hit, cache_miss, request_duration,
  rule_evaluation_duration, rules_matched,
}
use ctse_mood_rule_service.Server.Recommend.{GetProductsByFilters, Surroundings, recommend}
use ctse_mood_rule_service.Clients as Calling
use ctse_mood_rule_service.Clients.{Call, CircuitBreaker, Clock, Names, Retries, call_with_retries}
use ctse_mood_rule_service.Metrics.{
  Kind, counter, gauge, histogram, Collector, registered, Change, inc, set, observe,
  change_of_event, change_of_call, on_state_change, changes_at_start,
}

-- No name stands twice in the list.
abbrev pub all_differ : List String → Bool
all_differ [] = true
all_differ (name ∷ names) = not (any (λ other. other == name) names) && all_differ names

abbrev is_counter : Kind → Bool
is_counter counter = true
is_counter gauge = false
is_counter (histogram bounds) = false

abbrev is_gauge : Kind → Bool
is_gauge counter = false
is_gauge gauge = true
is_gauge (histogram bounds) = false

abbrev is_histogram : Kind → Bool
is_histogram counter = false
is_histogram gauge = false
is_histogram (histogram bounds) = true

-- The collector is registered, and the values are as many as its labels.
abbrev has_labels : Collector → List String → Bool
has_labels c values =
    any (λ other. other.name == c.name) registered && eqb (length values) (length c.labels)

-- It is called for what it is.
abbrev pub fits : Change → Bool
fits (inc c values) = is_counter c.kind && has_labels c values
fits (set c values x) = is_gauge c.kind && has_labels c values
fits (observe c values x) = is_histogram c.kind && has_labels c values

event_fits : (event : Event) → fits (change_of_event event) ≡ true
unfolding registered change_of_event
event_fits (requests_total status) = refl
event_fits (errors_total label) = refl
event_fits cache_hit = refl
event_fits cache_miss = refl
event_fits (request_duration status ms) = refl
event_fits (rule_evaluation_duration ms) = refl
event_fits (rules_matched n) = refl

call_fits : (metric : Calling.Metric) → fits (change_of_call metric) ≡ true
unfolding registered change_of_call
call_fits (Calling.external_service_duration service method status ms) = refl
call_fits (Calling.errors_total label) = refl

all_fit :
    {A : Type 0} (change : A → Change)
    → ((a : A) → fits (change a) ≡ true)
    → (xs : List A) → all fits (map change xs) ≡ true
all_fit change h [] = refl
all_fit change h (x ∷ xs) = rw (h x) (all_fit change h xs)

module _ {F B W A : Type 0} ⦃fl : Float64 F⦄ where
  -- The names of the registered collectors differ, and every change that a call of `Recommend`, a method
  -- of the clients, a change of a breaker's state or the start makes is of a registered collector: a
  -- counter is incremented, a gauge set, a histogram observes, each with as many values as it has
  -- labels.
  pub changes_fit :
      (env : Surroundings F B) (req : UserContext) (s : Server F B (GetProductsByFilters F))
      (clock : Clock W) (names : Names) (retries : Retries) (breaker : CircuitBreaker W A)
      (request : Call W A) (w : W) (name : String) (count to : ℕ) (version : ℤ)
      → (all_differ (map (λ c. c.name) registered) ≡ true)
        × (all fits (map change_of_event (recommend env req s).2) ≡ true)
        × (all fits
              (map change_of_call (call_with_retries clock names retries breaker request w).metrics)
            ≡ true)
        × (fits (on_state_change name to) ≡ true)
        × (all fits (changes_at_start count version) ≡ true)
  unfolding registered on_state_change changes_at_start
  changes_fit env req s clock names retries breaker request w name count to version = (
    refl,
    all_fit change_of_event event_fits (recommend env req s).2,
    all_fit change_of_call call_fits
        (call_with_retries clock names retries breaker request w).metrics,
    refl,
    refl,
  )
