-- ===== src/Filters.antt =====
-- `aggregateFilters` of internal/grpc/server.go: the tags, the categories and the price range that
-- the matched rules ask for together. Go goes through a map in no fixed order: `MapRange` is the
-- order that a run takes, some rearrangement of the keys.
pub mod Texts
pub mod Prices
use mathlib.Core.List.{Perm}
use ctse_mood_rule_service.Common.{
  String, Bool, true, ◌&&◌, Option, none, some, List, [], ◌∷◌, if◌then◌else◌, Dict, insert, keys,
}
use ctse_mood_rule_service.Common.Int.{pos}
use ctse_mood_rule_service.Float.{Float64}
use ctse_mood_rule_service.Model.{Rule, PriceRange}

pub record MapRange : Type 0 where
  pub range : Dict Bool → List String
  pub range-perm : (m : Dict Bool) → Perm (range m) (keys m)

pub record Filters (F : Type 0) : Type 0 where
  pub tags : List String
  pub categories : List String
  pub min_price : F
  pub max_price : F

-- The variables of the loop over the rules.
pub record Aggregate (F : Type 0) : Type 0 where
  pub tag_map : Dict Bool
  pub category_map : Dict Bool
  pub min_price : F
  pub max_price : F

-- `for _, x := range xs { m[x] = true }`
pub mark_all : List String → Dict Bool → Dict Bool
mark_all [] m = m
mark_all (x ∷ xs) m = mark_all xs (insert x true m)

module _ {F : Type 0} ⦃fl : Float64 F⦄ where
  pub raise_min : F → Option (PriceRange F) → F
  raise_min min_price none = min_price
  raise_min min_price (some range) = if fl.gt range.min min_price then range.min else min_price

  -- `Max > 0 && Max < maxPrice`
  pub lower_max : F → Option (PriceRange F) → F
  lower_max max_price none = max_price
  lower_max max_price (some range) =
      if fl.gt range.max (fl.of_int (pos 0)) && fl.gt max_price range.max
      then range.max
      else max_price

  -- One round of the loop over the rules.
  pub add_filters : Rule F → Aggregate F → Aggregate F
  unfolding mark_all raise_min lower_max
  add_filters rule a = record {
    tag_map = mark_all rule.actions.tags a.tag_map;
    category_map = mark_all rule.actions.categories a.category_map;
    min_price = raise_min a.min_price rule.actions.price_range;
    max_price = lower_max a.max_price rule.actions.price_range;
  }

  pub add_all_filters : List (Rule F) → Aggregate F → Aggregate F
  unfolding add_filters
  add_all_filters [] a = a
  add_all_filters (rule ∷ rules) a = add_all_filters rules (add_filters rule a)

  abbrev pub no_filters : Aggregate F
  no_filters = record {
    tag_map = [];
    category_map = [];
    min_price = fl.of_int (pos 0);
    max_price = fl.of_int (pos 1_000_000);
  }

  unfoldable pub aggregate_filters : MapRange → List (Rule F) → Filters F
  unfolding add_all_filters
  aggregate_filters order rules =
      let a = add_all_filters rules no_filters in
      record {
        tags = order.range a.tag_map;
        categories = order.range a.category_map;
        min_price = a.min_price;
        max_price = a.max_price;
      }
