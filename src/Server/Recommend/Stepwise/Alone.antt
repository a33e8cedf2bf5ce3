-- ===== src/Server/Recommend/Stepwise/Alone.antt =====
-- A request that runs alone is a call of `Recommend`.
use ctse_mood_rule_service.Common.{
  String, ◌≡◌, refl, sym, ◌∙◌, ap, Option, none, some, List, [], ◌∷◌, Error, Result, ok, err,
}
use ctse_mood_rule_service.Float.{Float64}
use ctse_mood_rule_service.Model.{Rule, Product}
use ctse_mood_rule_service.Engine.{EvaluationStats}
use ctse_mood_rule_service.Cache.{CacheKey}
use ctse_mood_rule_service.Server.{
  UserContext, Client, no_client, nil_pointer, client, GetUserMood, Server, validate_request,
  Checked, not_cached, unreadable, cached, no_metadata,
}
use ctse_mood_rule_service.Server.Recommend.{
  GetProductsByFilters, Surroundings, Step, fails, with_products, fetch_products, with_rules, after,
  evaluate_rules, with_cached, with_mood, fetch_mood, validated, trace_of, recommend,
}
use ctse_mood_rule_service.Server.Recommend.Stepwise.{
  Pc, arrived, missed, replied, begin_mood, begin, looked_up, matched, got_products, ask_products,
  advance, run,
}

module _ {F B : Type 0} ⦃fl : Float64 F⦄ (env : Surroundings F B) (req : UserContext)
    (s : Server F B (GetProductsByFilters F)) where
  abbrev ends : Step F B → Pc F × Server F B (GetProductsByFilters F)
  ends step = (replied step.0, step.1)

  alone-got_products :
      (key : CacheKey) (rules : List (Rule F)) (stats : EvaluationStats)
      (answer : Result (List (Product F)))
      → run env req 1 (got_products env req key rules stats answer) s
        ≡ ends (with_products env (trace_of env req) key rules stats answer s)
  unfolding run advance got_products with_products fails
  alone-got_products key rules stats (err e) = refl
  alone-got_products key rules stats (ok products) = refl

  alone-ask_products :
      (key : CacheKey) (rules : List (Rule F)) (stats : EvaluationStats)
      (c : Client (GetProductsByFilters F))
      → run env req 1 (ask_products env req key rules stats c) s
        ≡ ends (fetch_products env (trace_of env req) key rules stats c s)
  unfolding run advance ask_products fetch_products fails
  alone-ask_products key rules stats no_client = refl
  alone-ask_products key rules stats nil_pointer = refl
  alone-ask_products key rules stats (client get_products) = alone-got_products key rules stats _

  alone-matched :
      (key : CacheKey) (rules : List (Rule F)) (stats : EvaluationStats)
      → run env req 2 (matched env req key rules stats) s
        ≡ ends (with_rules env (trace_of env req) key rules stats s)
  unfolding run advance matched with_rules
  alone-matched key [] stats = refl
  alone-matched key (rule ∷ rules) stats =
      alone-ask_products key (rule ∷ rules) stats s.product_client

  alone-missed :
      (mood : String) (key : CacheKey)
      → run env req 3 (missed mood key) s
        ≡ ends (evaluate_rules env (trace_of env req) mood key req s)
  unfolding run advance evaluate_rules after
  alone-missed mood key = alone-matched key _ _

  alone-looked_up :
      (mood : String) (key : CacheKey) (c : Checked F)
      → run env req 3 (looked_up env req mood key c) s
        ≡ ends (with_cached env (trace_of env req) mood key req c s)
  unfolding run advance looked_up with_cached
  alone-looked_up mood key (cached r) = refl
  alone-looked_up mood key no_metadata = refl
  alone-looked_up mood key not_cached = alone-missed mood key
  alone-looked_up mood key (unreadable e) = alone-missed mood key

  alone-begin_mood :
      (answer : Result String)
      → run env req 5 (begin_mood env req answer) s
        ≡ ends (with_mood env (trace_of env req) req answer s)
  unfolding run advance begin_mood with_mood fails
  alone-begin_mood (err e) = refl
  alone-begin_mood (ok mood) = alone-looked_up mood _ _

  alone-begin :
      (e : Option Error) (c : Client GetUserMood)
      → s.auth_client ≡ c
      → run env req 5 (begin env req e c) s ≡ ends (validated env (trace_of env req) req e s)
  unfolding run advance begin validated fetch_mood fails
  alone-begin (some e) c h = refl
  alone-begin none no_client h = ap (λ x. ends (fetch_mood env (trace_of env req) req x s)) (sym h)
  alone-begin none nil_pointer h =
      ap (λ x. ends (fetch_mood env (trace_of env req) req x s)) (sym h)
  alone-begin none (client f) h =
      alone-begin_mood _ ∙ ap (λ x. ends (fetch_mood env (trace_of env req) req x s)) (sym h)

  -- A request whose steps no other thread comes between answers as `Recommend` does, and leaves the
  -- server as it does; it takes at most six steps.
  pub run-recommend :
      run env req 6 arrived s ≡ (replied (recommend env req s).0, (recommend env req s).1)
  unfolding run advance recommend
  run-recommend = alone-begin (validate_request req) s.auth_client refl
