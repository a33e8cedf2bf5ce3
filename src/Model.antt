-- ===== src/Model.antt =====
-- internal/model/rule.go and internal/model/product.go: the data of rules and products.
-- `float64` is the parameter `F`; a UUID is its 128 bits read as one number; a time is in
-- nanoseconds since the epoch; a Go map is a `Dict`; a pointer that may be nil is an `Option`.
use ctse_mood_rule_service.Common.{ℕ, String, Bool, List, Option, Dict}
use ctse_mood_rule_service.Common.Int.{ℤ}

pub record PriceRange (F : Type 0) : Type 0 where
  pub min : F
  pub max : F

pub record RuleConditions : Type 0 where
  pub mood : List String
  pub time_of_day : List String
  pub weather : List String
  pub occasion : List String
  pub preferences : Dict String
  pub tags : List String
  -- "AND" or "OR"
  pub logic : String

pub record RuleActions (F : Type 0) : Type 0 where
  pub tags : List String
  pub categories : List String
  pub price_range : Option (PriceRange F)
  pub boost : F
  pub filters : Dict String

pub record Rule (F : Type 0) : Type 0 where
  pub id : ℕ
  pub name : String
  pub priority : ℤ
  pub conditions : RuleConditions
  pub actions : RuleActions F
  pub weight : F
  pub version : ℤ
  pub active : Bool
  pub created_at : ℕ
  pub updated_at : ℕ

pub record MatchContext : Type 0 where
  pub mood : String
  pub time_of_day : String
  pub weather : String
  pub occasion : String
  pub preferences : Dict String
  pub purchase_history_tags : List String

pub record Product (F : Type 0) : Type 0 where
  pub product_id : String
  pub name : String
  pub description : String
  pub price : F
  pub category : String
  pub tags : List String
  pub image_url : String
  pub in_stock : Bool
