-- ===== src/Ranking.antt =====
-- `scoreProducts` of internal/grpc/server.go: a score and the names of the matching rules for every
-- product, the exchange sort by score, and the conversion to the response's records.
pub mod Laws
use mathlib.Core.List.{foldl}
use ctse_mood_rule_service.Common.{
  String, Bool, true, false, List, [], ◌∷◌, ◌++◌, map, any, ◌==◌, if◌then◌else◌,
}
use ctse_mood_rule_service.Common.Int.{pos}
use ctse_mood_rule_service.Float.{Float64}
use ctse_mood_rule_service.Model.{Rule, Product}
use ctse_mood_rule_service.Match.{calculate_score}
use ctse_mood_rule_service.Sort.Exchange.{exchange_sort}

-- `pb.ProductRecommendation`
pub record ProductRecommendation (F : Type 0) : Type 0 where
  pub product_id : String
  pub name : String
  pub description : String
  pub price : F
  pub category : String
  pub tags : List String
  pub score : F
  pub image_url : String
  pub matched_rules : List String

pub record ScoredProduct (F : Type 0) : Type 0 where
  pub product : Product F
  pub score : F
  pub matched_rules : List String

module _ {F : Type 0} where
  -- The two inner loops, which break at the first common tag.
  unfoldable pub rule_matches_product : Product F → Rule F → Bool
  rule_matches_product product rule =
      any (λ tag. any (λ product_tag. tag == product_tag) product.tags) rule.actions.tags

  unfoldable pub to_recommendation : ScoredProduct F → ProductRecommendation F
  to_recommendation sp = record {
    product_id = sp.product.product_id;
    name = sp.product.name;
    description = sp.product.description;
    price = sp.product.price;
    category = sp.product.category;
    tags = sp.product.tags;
    score = sp.score;
    image_url = sp.product.image_url;
    matched_rules = sp.matched_rules;
  }

  module _ ⦃fl : Float64 F⦄ where
    -- One round of the loop over the rules.
    pub add_rule : ScoredProduct F → Rule F → ScoredProduct F
    unfolding rule_matches_product
    add_rule sp rule =
        if rule_matches_product sp.product rule
        then record sp {
          score = fl.add sp.score (calculate_score rule);
          matched_rules = sp.matched_rules ++ rule.name ∷ [];
        }
        else sp

    unfoldable pub score_product : List (Rule F) → Product F → ScoredProduct F
    unfolding add_rule
    score_product rules product =
        foldl add_rule (record { product = product; score = fl.of_int (pos 0); matched_rules = [] })
          rules

    -- `scored[j].score > scored[i].score`
    pub scores_higher : ScoredProduct F → ScoredProduct F → Bool
    scores_higher a b = fl.gt a.score b.score

    unfoldable pub score_products :
        List (Product F) → List (Rule F) → List (ProductRecommendation F)
    unfolding score_product scores_higher to_recommendation exchange_sort
    score_products products rules =
        map to_recommendation (exchange_sort scores_higher (map (score_product rules) products))
