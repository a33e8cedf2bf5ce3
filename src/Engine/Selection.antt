-- ===== src/Engine/Selection.antt =====
-- Which rules `Evaluate` returns.
use mathlib.Core.List.{Mem, Mem-prop, mem-append, mem-cons_self}
use mathlib.Core.List.Perm
use mathlib.Core.Logic.{◌∨₁◌, ∨₁_prop}
use mathlib.Core.Logic.Or
use mathlib.Core.HLevel.{×_prop, ⊥_prop}
use ctse_mood_rule_service.Common.{
  ℕ, ◌<◌, String, true, ◌≡◌, ◌≢◌, ◌↔◌, ltb, lt→ltb, ltb→lt, Bool-cases, inl, inr, length, filter,
  mem-filter,
}
use ctse_mood_rule_service.Float.{Float64}
use ctse_mood_rule_service.Model.{Rule, MatchContext}
use ctse_mood_rule_service.Match.{matches}
use ctse_mood_rule_service.Match.Logic.{
  Criterion, by_mood, IsAsked, IsMet, matches-and_iff, matches-or_iff,
}
use ctse_mood_rule_service.Sort.{SortSlice}
use ctse_mood_rule_service.Engine.{RuleEngine, candidate_rules, before, evaluate}
use ctse_mood_rule_service.Engine.Index.{entries, IsIndexed, mem-at_mood_iff}

module _ {F : Type 0} where
  -- The index offers the rule for the mood.
  abbrev pub IsOffered : Rule F → String → Type 0
  IsOffered r mood = Mem mood (entries r) ∨₁ Mem "*" (entries r)

  mem-candidates_iff :
      (e : RuleEngine F) (ctx : MatchContext) (r : Rule F)
      → IsIndexed e
      → Mem r (candidate_rules e ctx) ↔ (Mem r e.rules × IsOffered r ctx.mood)
  unfolding candidate_rules
  mem-candidates_iff e ctx r h =
      let here = mem-at_mood_iff ctx.mood e r h in
      let every = mem-at_mood_iff "*" e r h in
      (
        λ m.
            Or.elim (×_prop Mem-prop ∨₁_prop) (mem-append.0 m)
              (λ i. ((here.0 i).0, Or.inl (here.0 i).1))
              (λ i. ((every.0 i).0, Or.inr (every.0 i).1)),
        λ (m, offered).
            mem-append.1 (
              Or.elim ∨₁_prop offered (λ k. Or.inl (here.1 (m, k))) (λ k. Or.inr (every.1 (m, k)))),
      )

  -- A rule that is no "OR" rule and matches either lists the mood of the context or lists none.
  and-IsOffered :
      (r : Rule F) (ctx : MatchContext)
      → r.conditions.logic ≢ "OR"
      → matches r ctx ≡ true
      → IsOffered r ctx.mood
  and-IsOffered r ctx l t = elim (Bool-cases (ltb 0 (length r.conditions.mood))) [
    | inl e ↦
        rw e (
          Or.inl
            (((matches-and_iff r ctx l).0 t).2 by_mood (ltb→lt 0 (length r.conditions.mood) e)))
    | inr e ↦ rw e (Or.inr mem-cons_self)
  ]

  module _ ⦃fl : Float64 F⦄ (slice : SortSlice (Rule F)) (e : RuleEngine F)
      (ctx : MatchContext) where
    -- `Evaluate` returns exactly the loaded rules that match the context and that the index offers
    -- for its mood, in an engine whose index is that of its rules.
    pub evaluate-mem_iff :
        (duration : ℕ) (r : Rule F)
        → IsIndexed e
        → Mem r (evaluate slice e ctx duration).0
          ↔ (Mem r e.rules × (matches r ctx ≡ true) × IsOffered r ctx.mood)
    unfolding evaluate
    evaluate-mem_iff duration r h =
        let test = λ (rule : Rule F). matches rule ctx in
        let sorted =
          Perm.mem_iff {a = r} (slice.sort-perm before (filter test (candidate_rules e ctx))) in
        let kept = mem-filter test {a = r} (candidate_rules e ctx) in
        let found = mem-candidates_iff e ctx r h in
        (
          λ m.
              let (i, t) = kept.0 (sorted.0 m) in
              let (loaded, offered) = found.0 i in (loaded, t, offered),
          λ (loaded, t, offered). sorted.1 (kept.1 (found.1 (loaded, offered), t)),
        )

    -- In an engine whose index is that of its rules, the index loses nothing for rules whose logic
    -- is not "OR": such a rule is returned exactly if it is loaded and matches.
    pub evaluate-and_iff :
        (duration : ℕ) (r : Rule F)
        → IsIndexed e
        → r.conditions.logic ≢ "OR"
        → Mem r (evaluate slice e ctx duration).0 ↔ (Mem r e.rules × (matches r ctx ≡ true))
    evaluate-and_iff duration r h l =
        let whole = evaluate-mem_iff duration r h in
        (
          λ m. let (loaded, t, _) = whole.0 m in (loaded, t),
          λ (loaded, t). whole.1 (loaded, t, and-IsOffered r ctx l t),
        )

    -- In an engine whose index is that of its rules, an active "OR" rule that lists moods, neither
    -- the context's nor "*" among them, matches a context that meets any other criterion that it
    -- asks about, and `Evaluate` does not return it.
    pub evaluate-or_missing :
        (duration : ℕ) (r : Rule F) (c : Criterion)
        → IsIndexed e
        → r.conditions.logic ≡ "OR"
        → r.active ≡ true
        → 0 < length r.conditions.mood
        → ¬ Mem ctx.mood r.conditions.mood
        → ¬ Mem "*" r.conditions.mood
        → IsAsked r.conditions c
        → IsMet r.conditions ctx c
        → (matches r ctx ≡ true) × (¬ Mem r (evaluate slice e ctx duration).0)
    evaluate-or_missing duration r c h l active moods here every asked met =
        let none_offered : ¬ IsOffered r ctx.mood =
          rw (lt→ltb 0 (length r.conditions.mood) moods) (λ o. Or.elim ⊥_prop o here every) in
        (
          (matches-or_iff r ctx l).1 (active, (c, asked, met)),
          λ m. none_offered ((evaluate-mem_iff duration r h).0 m).2,
        )
