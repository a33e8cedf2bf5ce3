-- ===== src/Tests/Rules.antt =====
-- Rules, the engine and its theorems at the sample rules.
use mathlib.Core.List.{Mem, Perm, Pairwise, mem-cons_self, mem-cons, not-mem-nil}
use mathlib.Core.Logic.Or
use ctse_mood_rule_service.Common.{
  ◌<◌, ◌+◌, ◌≡◌, ◌≢◌, refl, ◌↔◌, true, false, ◌&&◌, ◌==◌, String, [], ◌∷◌, arith, eq_iff, insert,
  lookup, filter, leb, test_of_mem, String-set,
}
use ctse_mood_rule_service.Common.Int.{◌+ℤ◌, ◌*ℤ◌}
use ctse_mood_rule_service.Model.{Rule}
use ctse_mood_rule_service.Match.{matches, calculate_score}
use ctse_mood_rule_service.Match.Logic.{
  Criterion, by_weather, IsAsked, AllMet, SomeMet, matches-and_iff, matches-or_iff,
}
use ctse_mood_rule_service.Engine.{load, new_rule_engine, evaluate, candidate_rules}
use ctse_mood_rule_service.Engine.Index.{IsIndexed, load-IsIndexed, new_rule_engine-IsIndexed}
use ctse_mood_rule_service.Engine.Selection.{
  IsOffered, evaluate-mem_iff, evaluate-and_iff, evaluate-or_missing,
}
use ctse_mood_rule_service.Engine.Multiplicity.{count, offers, FiledOnce, evaluate-perm}
use ctse_mood_rule_service.Engine.Order.{has_score, Ranked, evaluate-Ranked}
use ctse_mood_rule_service.Sort.{AllGood}
use ctse_mood_rule_service.Sort.Exchange.{exchange_slice, exchange_sort}
use ctse_mood_rule_service.Tests.Data.{
  Number, number_float, number_laws, rules, store, rule_engine, rainy_morning, happy_morning,
  sad_or_rainy, any_morning,
}

-- Texts that the comparison tells apart are different.
pub differ : (a b : String) → (a == b) ≡ false → a ≢ b
differ a b h e = ground (arith, eq_iff a b)

and_is_not_or : happy_morning.conditions.logic ≢ "OR"
and_is_not_or = differ "AND" "OR" refl

mem-single : {a b : String} → Mem a (b ∷ []) → a ≡ b
mem-single {a} {b} m =
    Or.elim (String-set a b) (mem-cons.0 m) (λ e. e) (λ k. absurd (not-mem-nil k))

one_listed : 0 < 1
one_listed = omega arith

program : Unit {0}
unfolding matches calculate_score load evaluate new_rule_engine exchange_sort insert lookup ◌+ℤ◌
    ◌*ℤ◌
program = tt

-- the two morning rules, the higher score first; the "OR" rule is not returned
evaluate_morning :
    (evaluate exchange_slice rule_engine rainy_morning 7).0 ≡ any_morning ∷ happy_morning ∷ []
unfolding program
evaluate_morning = refl

rule_engine-IsIndexed : IsIndexed rule_engine
rule_engine-IsIndexed = load-IsIndexed store new_rule_engine new_rule_engine-IsIndexed

evaluate-mem_iff_example :
    Mem happy_morning (evaluate exchange_slice rule_engine rainy_morning 7).0 ↔ (
      Mem happy_morning rule_engine.rules
      × (matches happy_morning rainy_morning ≡ true)
      × IsOffered happy_morning rainy_morning.mood)
evaluate-mem_iff_example =
    evaluate-mem_iff exchange_slice rule_engine rainy_morning 7 happy_morning rule_engine-IsIndexed

evaluate-and_iff_example :
    Mem happy_morning (evaluate exchange_slice rule_engine rainy_morning 7).0
    ↔ (Mem happy_morning rule_engine.rules × (matches happy_morning rainy_morning ≡ true))
evaluate-and_iff_example =
    evaluate-and_iff exchange_slice rule_engine rainy_morning 7 happy_morning rule_engine-IsIndexed
      and_is_not_or

happy_is_not_listed : ¬ Mem {A = String} "happy" ("sad" ∷ [])
happy_is_not_listed m = absurd (differ "happy" "sad" refl (mem-single m))

star_is_not_listed : ¬ Mem {A = String} "*" ("sad" ∷ [])
star_is_not_listed m = absurd (differ "*" "sad" refl (mem-single m))

evaluate-or_missing_example :
    (matches sad_or_rainy rainy_morning ≡ true)
    × (¬ Mem sad_or_rainy (evaluate exchange_slice rule_engine rainy_morning 7).0)
evaluate-or_missing_example =
    evaluate-or_missing exchange_slice rule_engine rainy_morning 7 sad_or_rainy by_weather
      rule_engine-IsIndexed refl refl one_listed happy_is_not_listed star_is_not_listed one_listed
      mem-cons_self

no_star : rainy_morning.mood ≢ "*"
no_star = differ "happy" "*" refl

filed_once : FiledOnce rainy_morning.mood rule_engine.rules
unfolding program
filed_once r m =
    let test =
      test_of_mem
        (λ (rule : Rule Number).
          leb (count "happy" rule.conditions.mood + count "*" rule.conditions.mood) 1)
        rules refl m in
    ground arith

evaluate-perm_example :
    Perm
      (evaluate exchange_slice rule_engine rainy_morning 7).0
      (filter (λ r. offers rainy_morning.mood r && matches r rainy_morning) rule_engine.rules)
evaluate-perm_example =
    evaluate-perm exchange_slice rule_engine rainy_morning rule_engine-IsIndexed no_star filed_once
      7

all_scored : AllGood has_score (candidate_rules rule_engine rainy_morning)
unfolding program candidate_rules
all_scored r m = test_of_mem has_score (candidate_rules rule_engine rainy_morning) refl m

evaluate-Ranked_example : Pairwise Ranked (evaluate exchange_slice rule_engine rainy_morning 7).0
evaluate-Ranked_example =
    evaluate-Ranked number_laws exchange_slice rule_engine rainy_morning 7 all_scored

matches-and_iff_example : (matches happy_morning rainy_morning ≡ true) ↔ (
    (happy_morning.active ≡ true)
    × ((c : Criterion) × IsAsked happy_morning.conditions c)
    × AllMet happy_morning.conditions rainy_morning)
matches-and_iff_example = matches-and_iff happy_morning rainy_morning and_is_not_or

matches-or_iff_example :
    (matches sad_or_rainy rainy_morning ≡ true)
    ↔ ((sad_or_rainy.active ≡ true) × SomeMet sad_or_rainy.conditions rainy_morning)
matches-or_iff_example = matches-or_iff sad_or_rainy rainy_morning refl
