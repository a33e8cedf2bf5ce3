-- ===== src/Engine/Multiplicity.antt =====
-- How often `Evaluate` returns a rule.
use mathlib.Core.List.{Mem, Perm, append_assoc, perm_append_comm, mem-cons_self, mem-cons_of_mem}
use mathlib.Core.List.Perm
use ctse_mood_rule_service.Common.{
  ℕ, suc, ◌+◌, ◌≤◌, String, Bool, true, ◌&&◌, ◌≡◌, ◌≢◌, refl, List, [], ◌∷◌, ◌++◌, arith, ltb,
  if◌then◌else◌, ◌==◌, eq_iff, Bool-cases, inl, inr, length, filter, filter-perm, filter-filter,
  length-perm, length-filter-le,
}
use ctse_mood_rule_service.Float.{Float64}
use ctse_mood_rule_service.Model.{Rule, MatchContext}
use ctse_mood_rule_service.Match.{matches}
use ctse_mood_rule_service.Sort.{SortSlice}
use ctse_mood_rule_service.Engine.{RuleEngine, candidate_rules, before, evaluate, get_rule_count}
use ctse_mood_rule_service.Engine.Index.{entries, copies, filed, IsIndexed, at_mood-filed}

-- How often a text stands in a list.
abbrev pub count : String → List String → ℕ
count key [] = 0
count key (k ∷ ks) = if k == key then suc (count key ks) else count key ks

-- Four lists, the middle two changed over.
perm_regroup {ℓ} :
    {A : Type ℓ} (x a y b : List A) → Perm ((x ++ a) ++ (y ++ b)) ((x ++ y) ++ (a ++ b))
perm_regroup x a y b =
    rw (append_assoc x a (y ++ b), append_assoc x y (a ++ b))
      (Perm.append_left x (
        rw (← append_assoc a y b, ← append_assoc y a b)
          (Perm.append_right b (perm_append_comm a y))))

module _ {F : Type 0} where
  -- The rule lists no mood, or the given one, or "*".
  abbrev pub offers : String → Rule F → Bool
  offers mood r =
      if ltb 0 (length r.conditions.mood)
      then ltb 0 (count mood r.conditions.mood + count "*" r.conditions.mood)
      else true

  -- No rule lists the mood twice, or both the mood and "*".
  abbrev pub FiledOnce : String → List (Rule F) → Type 0
  FiledOnce mood rs =
      (r : Rule F) → Mem r rs → count mood r.conditions.mood + count "*" r.conditions.mood ≤ 1

  copies-count :
      (key : String) (ks : List String) (r : Rule F)
      → count key ks ≤ 1
      → copies key ks r ≡ (if ltb 0 (count key ks) then r ∷ [] else [])
  unfolding copies
  copies-count key [] r h = refl
  copies-count key (k ∷ ks) r h = ground (arith, copies-count key ks r)

  copies-offers :
      (mood : String) (r : Rule F)
      → mood ≢ "*"
      → count mood r.conditions.mood + count "*" r.conditions.mood ≤ 1
      → copies mood (entries r) r ++ copies "*" (entries r) r
        ≡ (if offers mood r then r ∷ [] else [])
  unfolding copies
  copies-offers mood r h once = ground (
    arith,
    copies-count mood r.conditions.mood r,
    copies-count "*" r.conditions.mood r,
    eq_iff "*" mood,
  )

  filed-perm :
      (mood : String) (rs : List (Rule F))
      → mood ≢ "*"
      → FiledOnce mood rs
      → Perm (filed mood rs ++ filed "*" rs) (filter (offers mood) rs)
  unfolding filed
  filed-perm mood [] h once = Perm.rfl
  filed-perm mood (r ∷ rs) h once =
      let rest = filed-perm mood rs h (λ a m. once a (mem-cons_of_mem r m)) in
      let whole =
        perm_regroup (copies mood (entries r) r) (filed mood rs) (copies "*" (entries r) r)
          (filed "*" rs) in
      Perm.trans whole (
        rw (copies-offers mood r h (once r mem-cons_self)) (elim (Bool-cases (offers mood r)) [
          | inl e ↦ rw e (Perm.cons r rest)
          | inr e ↦ rw e rest
        ]))

  module _ ⦃fl : Float64 F⦄ (slice : SortSlice (Rule F)) (e : RuleEngine F) (ctx : MatchContext)
      (indexed : IsIndexed e) (no_star : ctx.mood ≢ "*") (once : FiledOnce ctx.mood e.rules) where
    candidates-perm : Perm (candidate_rules e ctx) (filter (offers ctx.mood) e.rules)
    unfolding candidate_rules
    candidates-perm =
        rw (at_mood-filed ctx.mood e indexed, at_mood-filed "*" e indexed)
          (filed-perm ctx.mood e.rules no_star once)

    -- In an engine whose index is that of its rules, if the mood is not "*" and no loaded rule lists the
    -- mood twice, "*" twice, or both the mood and "*", then `Evaluate` returns each loaded rule as often as it is loaded if the rule
    -- lists the mood, "*" or no mood and matches, and otherwise not at all.
    pub evaluate-perm :
        (duration : ℕ)
        → Perm
            (evaluate slice e ctx duration).0
            (filter (λ r. offers ctx.mood r && matches r ctx) e.rules)
    unfolding evaluate
    evaluate-perm duration =
        let test = λ (rule : Rule F). matches rule ctx in
        Perm.trans (slice.sort-perm before (filter test (candidate_rules e ctx)))
          (rw (← filter-filter test (offers ctx.mood) e.rules) (filter-perm test candidates-perm))

    -- In an engine whose index is that of its rules, if the mood is not "*" and no loaded rule lists the
    -- mood twice, "*" twice, or both the mood and "*", then `Evaluate` reports no more rules matched than evaluated, and no more
    -- evaluated than are loaded.
    pub evaluate_stats :
        (duration : ℕ)
        → let stats = (evaluate slice e ctx duration).1 in
          (stats.rules_matched ≤ stats.rules_evaluated) × (stats.rules_evaluated ≤ get_rule_count e)
    unfolding evaluate get_rule_count
    evaluate_stats duration =
        let test = λ (rule : Rule F). matches rule ctx in
        let candidates = candidate_rules e ctx in
        (
          omega (
            arith,
            length-perm (slice.sort-perm before (filter test candidates)),
            length-filter-le test candidates,
          ),
          omega (arith, length-perm candidates-perm, length-filter-le (offers ctx.mood) e.rules),
        )
