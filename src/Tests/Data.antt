-- ===== src/Tests/Data.antt =====
-- A float64 whose values are the integers and NaN, and sample rules, contexts and caches.
use Prim.Native.Nat.{◌/◌}
use ctse_mood_rule_service.Common.{
  not, eqb, if◌then◌else◌, Bool, true, false, ◌≡◌, refl, none, List, [], ◌∷◌, ok,
}
use ctse_mood_rule_service.Common.Int.{ℤ, pos, ◌+ℤ◌, ◌*ℤ◌, gtb_ℤ, gtb_ℤ_asymm, gtb_ℤ_trans}
use ctse_mood_rule_service.Float.{Float64, Float64Laws}
use ctse_mood_rule_service.Model.{Rule, RuleConditions, RuleActions, MatchContext}
use ctse_mood_rule_service.Engine.{RuleEngine, RuleStore, new_rule_engine, load}

pub data Number : Type 0 where
  nan : Number
  num : ℤ → Number

abbrev lift : (ℤ → ℤ → ℤ) → Number → Number → Number
lift f (num a) (num b) = num (f a b)
lift f _ _ = nan

abbrev pub greater : Number → Number → Bool
greater (num a) (num b) = gtb_ℤ a b
greater _ _ = false

abbrev pub not_a_number : Number → Bool
not_a_number nan = true
not_a_number (num a) = false

-- of numbers that are not negative, rounded down
abbrev divide : Number → Number → Number
divide (num (pos a)) (num (pos b)) = if eqb b 0 then nan else num (pos (a / b))
divide _ _ = nan

abbrev at_least : Number → Number → Bool
at_least (num a) (num b) = not (gtb_ℤ b a)
at_least _ _ = false

instance abbrev pub number_float : Float64 Number
number_float = record {
  of_int = num;
  add = lift ◌+ℤ◌;
  mul = lift ◌*ℤ◌;
  div = divide;
  gt = greater;
  ge = at_least;
  is_nan = not_a_number;
}

greater_asymm : (a b : Number) → greater a b ≡ true → greater b a ≡ false
greater_asymm (num a) (num b) h = gtb_ℤ_asymm a b h
greater_asymm nan _ h = cc
greater_asymm (num a) nan h = cc

greater_trans :
    (a b c : Number)
    → not_a_number b ≡ false
    → greater a b ≡ false
    → greater b c ≡ false
    → greater a c ≡ false
greater_trans (num a) (num b) (num c) n h k = gtb_ℤ_trans a b c h k
greater_trans a nan c n h k = cc
greater_trans nan (num b) _ n h k = refl
greater_trans (num a) (num b) nan n h k = refl

greater_numbers :
    (a b : Number) → greater a b ≡ true → (not_a_number a ≡ false) × (not_a_number b ≡ false)
greater_numbers (num a) (num b) h = (refl, refl)
greater_numbers nan _ h = absurd (cc)
greater_numbers (num a) nan h = absurd (cc)

pub number_laws : Float64Laws number_float
number_laws = record {
  gt_asymm = greater_asymm;
  gt_trans = greater_trans;
  gt_numbers = greater_numbers;
  of_int_number = λ n. refl;
  million_pos = refl;
}

abbrev pub no_conditions : RuleConditions
no_conditions = record {
  mood = [];
  time_of_day = [];
  weather = [];
  occasion = [];
  preferences = [];
  tags = [];
  logic = "AND";
}

abbrev pub no_actions : RuleActions Number
no_actions = record {
  tags = [];
  categories = [];
  price_range = none;
  boost = num (pos 0);
  filters = [];
}

abbrev pub happy_morning : Rule Number
happy_morning = record {
  id = 1;
  name = "Happy Morning";
  priority = pos 100;
  conditions = record no_conditions { mood = "happy" ∷ []; time_of_day = "morning" ∷ [] };
  actions = record no_actions { tags = "fresh" ∷ "energizing" ∷ [] };
  weight = num (pos 2);
  version = pos 1;
  active = true;
  created_at = 0;
  updated_at = 0;
}

-- "OR" over a mood and a weather
abbrev pub sad_or_rainy : Rule Number
sad_or_rainy = record happy_morning {
  id = 2;
  name = "Comfort";
  priority = pos 90;
  conditions = record no_conditions { mood = "sad" ∷ []; weather = "rainy" ∷ []; logic = "OR" };
  actions = record no_actions { tags = "cozy" ∷ [] };
}

-- no mood: it matches every one
abbrev pub any_morning : Rule Number
any_morning = record happy_morning {
  id = 3;
  name = "Morning";
  priority = pos 100;
  conditions = record no_conditions { time_of_day = "morning" ∷ [] };
  weight = num (pos 3);
}

abbrev pub rules : List (Rule Number)
rules = happy_morning ∷ sad_or_rainy ∷ any_morning ∷ []

abbrev pub store : RuleStore Number
store = record { get_all_active_rules = ok rules; get_max_version = ok (pos 1) }

abbrev pub rule_engine : RuleEngine Number
rule_engine = (load store new_rule_engine).0

abbrev pub rainy_morning : MatchContext
rainy_morning = record {
  mood = "happy";
  time_of_day = "morning";
  weather = "rainy";
  occasion = "";
  preferences = [];
  purchase_history_tags = [];
}
