-- ===== src/Ranking/Laws.antt =====
-- What the ranking of `scoreProducts` keeps, counts and orders.
use mathlib.Core.List.{Mem, Perm, Pairwise, foldl, mem-map, map-map, append-nil, append_assoc}
use mathlib.Core.Path.{fun_ext, subst}
use mathlib.Core.List.Perm
use mathlib.Core.List.Pairwise
use mathlib.Core.Logic.{∥∥₁_elim}
use ctse_mood_rule_service.Common.{
  String, Bool, true, false, not, ◌≡◌, refl, sym, ◌∙◌, ◌↔◌, List, [], ◌∷◌, ◌++◌, map, filter, arith,
  ◌==◌, eq_iff, Bool-cases, inl, inr, false_prop, true_prop, witness_of_any, any_of_mem,
}
use ctse_mood_rule_service.Common.Int.{pos}
use ctse_mood_rule_service.Float.{Float64, Float64Laws}
use ctse_mood_rule_service.Model.{Rule, Product}
use ctse_mood_rule_service.Match.{calculate_score}
use ctse_mood_rule_service.Sort.{IsStrictWeak}
use ctse_mood_rule_service.Sort.Exchange.{exchange_sort-perm, exchange_sort-IsSorted}
use ctse_mood_rule_service.Ranking.{
  ScoredProduct, rule_matches_product, to_recommendation, add_rule, score_product, scores_higher,
  score_products,
}

module _ {F : Type 0} where
  -- A rule matches a product exactly if they share a tag.
  pub rule_matches_product_iff :
      (product : Product F) (rule : Rule F)
      → (rule_matches_product product rule ≡ true)
        ↔ ((tag : String) × Mem tag rule.actions.tags × Mem tag product.tags)
  unfolding rule_matches_product
  rule_matches_product_iff product rule = (
    λ h.
        let (tag, m, found) = witness_of_any _ rule.actions.tags h in
        let (other, n, same) = witness_of_any _ product.tags found in
        (tag, m, rw ((eq_iff tag other).0 same) n),
    λ (tag, m, n).
        any_of_mem _ rule.actions.tags
          (any_of_mem (λ other. tag == other) product.tags ((eq_iff tag tag).1 refl) n) m,
  )

  module _ ⦃fl : Float64 F⦄ where
    matching : Product F → List (Rule F) → List (Rule F)
    matching product = filter (rule_matches_product product)

    add_rules :
        (rules : List (Rule F)) (sp : ScoredProduct F)
        → foldl add_rule sp rules ≡ record {
          product = sp.product;
          score = foldl fl.add sp.score (map calculate_score (matching sp.product rules));
          matched_rules = sp.matched_rules ++ map (λ r. r.name) (matching sp.product rules);
        }
    unfolding matching add_rule
    add_rules [] sp = λ i. record sp { matched_rules = sym (append-nil sp.matched_rules) i }
    add_rules (r ∷ rules) sp = elim (Bool-cases (rule_matches_product sp.product r)) [
      | inl e ↦ rw e (
          add_rules rules (record sp {
            score = fl.add sp.score (calculate_score r);
            matched_rules = sp.matched_rules ++ r.name ∷ [];
          })
          ∙ rw append_assoc)
      | inr e ↦ rw e (add_rules rules sp)
    ]

    -- The entry of one product, said without the loops: the scores of the rules that share a tag
    -- with it, added from the left to 0, and the names of these rules.
    abbrev pub scored_entry : List (Rule F) → Product F → ScoredProduct F
    scored_entry rules product =
        let hits = filter (rule_matches_product product) rules in
        record {
          product = product;
          score = foldl fl.add (fl.of_int (pos 0)) (map calculate_score hits);
          matched_rules = map (λ r. r.name) hits;
        }

    score_product-scored_entry :
        (rules : List (Rule F)) (product : Product F)
        → score_product rules product ≡ scored_entry rules product
    unfolding score_product matching
    score_product-scored_entry rules product =
        add_rules rules
          (record { product = product; score = fl.of_int (pos 0); matched_rules = [] })

    -- Every product of the catalogue is recommended exactly once, with the sum of the scores and
    -- the names of the rules that share a tag with it.
    pub score_products-perm :
        (products : List (Product F)) (rules : List (Rule F))
        → Perm
            (score_products products rules)
            (map (λ product. to_recommendation (scored_entry rules product)) products)
    unfolding score_products
    score_products-perm products rules =
        subst
          (λ (entry : Product F → ScoredProduct F).
            Perm (score_products products rules) (map (λ p. to_recommendation (entry p)) products))
          (fun_ext (score_product-scored_entry rules))
          (rw map-map at (
            Perm.map to_recommendation
              (exchange_sort-perm scores_higher (map (score_product rules) products))))

    has_number : ScoredProduct F → Bool
    has_number sp = not (fl.is_nan sp.score)

    module _ (laws : Float64Laws fl) where
      scores_higher-IsStrictWeak : IsStrictWeak scores_higher has_number
      unfolding scores_higher has_number
      scores_higher-IsStrictWeak = record {
        asymm = λ a b h. laws.gt_asymm a.score b.score h;
        trans = λ a b c g h k. laws.gt_trans c.score b.score a.score (ground arith) k h;
      }

      -- If `>` has its laws and no product's score is NaN, the recommendations stand by falling
      -- score: none scores higher than one before it.
      pub score_products-IsSorted :
          (products : List (Product F)) (rules : List (Rule F))
          → ((product : Product F)
              → Mem product products
              → fl.is_nan (scored_entry rules product).score ≡ false)
          → Pairwise (λ a b. fl.gt b.score a.score ≡ false) (score_products products rules)
      unfolding score_products has_number scores_higher to_recommendation
      score_products-IsSorted products rules g =
          Pairwise.map (λ a b. false_prop (fl.gt b.score a.score)) to_recommendation (λ a b h. h)
            (exchange_sort-IsSorted scores_higher scores_higher-IsStrictWeak
              (map (score_product rules) products)
              (λ sp m. ∥∥₁_elim (mem-map.0 m) (true_prop (has_number sp)) (λ (product, n, e).
                let entry = sym e ∙ score_product-scored_entry rules product in
                rw entry (rw (g product n)))))
