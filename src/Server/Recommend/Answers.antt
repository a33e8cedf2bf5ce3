-- ===== src/Server/Recommend/Answers.antt =====
-- What each call of `Recommend` answers, counts and leaves alone.
use ctse_mood_rule_service.Common.{
  String, Bool, true, false, ◌≡◌, refl, ◌||◌, ◌⊎◌, Option, none, some, List, [], ◌∷◌, ◌==◌, Result,
  ok, err, inl, inr, Error,
}
use ctse_mood_rule_service.Float.{Float64}
use ctse_mood_rule_service.Model.{Rule, Product}
use ctse_mood_rule_service.Engine.{EvaluationStats}
use ctse_mood_rule_service.Cache.{CacheKey}
use ctse_mood_rule_service.Server.{
  UserContext, Client, no_client, nil_pointer, client, GetUserMood, Code, invalid_argument,
  failed_precondition, internal, unavailable, Reply, response, failed, panicked, Event,
  requests_total, Server, validate_request, Checked, not_cached, unreadable, cached, no_metadata,
}
use ctse_mood_rule_service.Server.Recommend.{
  GetProductsByFilters, Surroundings, Step, fails, finish, with_products, fetch_products,
  with_rules, after, evaluate_rules, with_cached, with_mood, fetch_mood, validated, trace_of,
  recommend,
}

-- The labels under which `RequestsTotal` was incremented.
abbrev pub requests : List Event → List String
requests [] = []
requests (requests_total label ∷ events) = label ∷ requests events
requests (_ ∷ events) = requests events

abbrev pub is_one : String → List String → Bool
is_one label [] = false
is_one label (l ∷ []) = l == label
is_one label (l ∷ k ∷ ls) = false

abbrev is_empty : List String → Bool
is_empty [] = true
is_empty (l ∷ ls) = false

abbrev pub code_fits : Code → List String → Bool
code_fits invalid_argument ls = is_one "invalid_input" ls
code_fits failed_precondition ls = is_one "auth_unavailable" ls
code_fits internal ls = is_one "auth_error" ls || is_one "product_error" ls
code_fits unavailable ls = is_one "product_unavailable" ls

-- The labels that go with a reply: one for each failure and each response, none for a panic.
abbrev pub labels_fit : {F : Type 0} → Reply F → List String → Bool
labels_fit (response r) ls = is_one "success" ls || is_one "no_matches" ls
labels_fit (failed status) ls = code_fits status.code ls
labels_fit panicked ls = is_empty ls

abbrev pub is_response : {F : Type 0} → Reply F → Bool
is_response (response r) = true
is_response (failed status) = false
is_response panicked = false

module _ {F B : Type 0} ⦃fl : Float64 F⦄ (env : Surroundings F B) where
  -- The metrics fit the reply, and the server has changed only if there is a response.
  abbrev IsSound : Server F B (GetProductsByFilters F) → Step F B → Type 0
  IsSound s (reply, s', events) =
      (labels_fit reply (requests events) ≡ true) × ((is_response reply ≡ true) ⊎ (s' ≡ s))

  module _ (trace_id : String) (key : CacheKey) where
    with_products-IsSound :
        (rules : List (Rule F)) (stats : EvaluationStats) (products : Result (List (Product F)))
        (s : Server F B (GetProductsByFilters F))
        → IsSound s (with_products env trace_id key rules stats products s)
    unfolding with_products fails finish
    with_products-IsSound rules stats (err e) s = (refl, inr refl)
    with_products-IsSound rules stats (ok products) s = (refl, inl refl)

    fetch_products-IsSound :
        (rules : List (Rule F)) (stats : EvaluationStats) (c : Client (GetProductsByFilters F))
        (s : Server F B (GetProductsByFilters F))
        → IsSound s (fetch_products env trace_id key rules stats c s)
    unfolding fetch_products fails
    fetch_products-IsSound rules stats no_client s = (refl, inr refl)
    fetch_products-IsSound rules stats nil_pointer s = (refl, inr refl)
    fetch_products-IsSound rules stats (client f) s = with_products-IsSound rules stats _ s

    with_rules-IsSound :
        (rules : List (Rule F)) (stats : EvaluationStats) (s : Server F B (GetProductsByFilters F))
        → IsSound s (with_rules env trace_id key rules stats s)
    unfolding with_rules finish
    with_rules-IsSound [] stats s = (refl, inl refl)
    with_rules-IsSound (rule ∷ rules) stats s =
        fetch_products-IsSound (rule ∷ rules) stats s.product_client s

    evaluate_rules-IsSound :
        (mood : String) (req : UserContext) (s : Server F B (GetProductsByFilters F))
        → IsSound s (evaluate_rules env trace_id mood key req s)
    unfolding evaluate_rules after
    evaluate_rules-IsSound mood req s = with_rules-IsSound _ _ s

    with_cached-IsSound :
        (mood : String) (req : UserContext) (c : Checked F)
        (s : Server F B (GetProductsByFilters F))
        → IsSound s (with_cached env trace_id mood key req c s)
    unfolding with_cached finish
    with_cached-IsSound mood req (cached r) s = (refl, inl refl)
    with_cached-IsSound mood req no_metadata s = (refl, inr refl)
    with_cached-IsSound mood req not_cached s = evaluate_rules-IsSound mood req s
    with_cached-IsSound mood req (unreadable e) s = evaluate_rules-IsSound mood req s

  with_mood-IsSound :
      (trace_id : String) (req : UserContext) (mood : Result String)
      (s : Server F B (GetProductsByFilters F))
      → IsSound s (with_mood env trace_id req mood s)
  unfolding with_mood fails
  with_mood-IsSound trace_id req (err e) s = (refl, inr refl)
  with_mood-IsSound trace_id req (ok mood) s = with_cached-IsSound trace_id _ mood req _ s

  fetch_mood-IsSound :
      (trace_id : String) (req : UserContext) (c : Client GetUserMood)
      (s : Server F B (GetProductsByFilters F))
      → IsSound s (fetch_mood env trace_id req c s)
  unfolding fetch_mood fails
  fetch_mood-IsSound trace_id req no_client s = (refl, inr refl)
  fetch_mood-IsSound trace_id req nil_pointer s = (refl, inr refl)
  fetch_mood-IsSound trace_id req (client f) s =
      with_mood-IsSound trace_id req (f req.user_id trace_id) s

  validated-IsSound :
      (trace_id : String) (req : UserContext) (e : Option Error)
      (s : Server F B (GetProductsByFilters F))
      → IsSound s (validated env trace_id req e s)
  unfolding validated fails
  validated-IsSound trace_id req (some e) s = (refl, inr refl)
  validated-IsSound trace_id req none s = fetch_mood-IsSound trace_id req s.auth_client s

  -- A call that fails or panics leaves the whole server, its cache included, as it was. `RequestsTotal`
  -- counts a call that answers exactly once, under a label that goes with the code of its status (or
  -- with its response), and does not count a call that panics.
  pub recommend_counted :
      (req : UserContext) (s : Server F B (GetProductsByFilters F))
      → let step = recommend env req s in
        (labels_fit step.0 (requests step.2) ≡ true) × ((is_response step.0 ≡ true) ⊎ (step.1 ≡ s))
  unfolding recommend
  recommend_counted req s = validated-IsSound (trace_of env req) req (validate_request req) s
