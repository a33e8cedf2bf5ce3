-- ===== src/Engine/Index.antt =====
-- What `buildIndex` stores: each rule once under every entry of its list of moods, and a rule with
-- no moods once under "*", in the order of the rules.
use mathlib.Core.List.{
  Mem, Mem-prop, mem-cons, mem-append, mem-cons_self, mem-cons_of_mem, not-mem-nil, append_assoc,
  append-nil,
}
use mathlib.Core.Logic.Or
use mathlib.Core.Logic.{∨₁_prop}
use mathlib.Core.HLevel.{×_prop}
use ctse_mood_rule_service.Common.{
  String, ◌≡◌, refl, sym, ◌∙◌, ◌↔◌, Option, none, some, List, [], ◌∷◌, ◌++◌, arith, ◌==◌, eq_iff,
  ltb, if◌then◌else◌, Bool-cases, inl, inr, lookup, lookup-insert, length, Error, wrap, ok, ◌⊎◌,
  Result-cases,
}
use ctse_mood_rule_service.Model.{Rule}
use ctse_mood_rule_service.Engine.{
  RuleEngine, MoodIndex, or_nil, at_mood, append_at, append_at_all, index_rule, index_rules,
  build_index, load, reload, RuleStore, new_rule_engine,
}

module _ {F : Type 0} where
  -- The keys under which a rule is filed.
  abbrev pub entries : Rule F → List String
  entries r = if ltb 0 (length r.conditions.mood) then r.conditions.mood else "*" ∷ []

  -- The rule once for each time that the key stands in the list.
  unfoldable pub copies : String → List String → Rule F → List (Rule F)
  copies key [] r = []
  copies key (k ∷ ks) r = if k == key then r ∷ copies key ks r else copies key ks r

  unfoldable pub filed : String → List (Rule F) → List (Rule F)
  filed key [] = []
  filed key (r ∷ rs) = copies key (entries r) r ++ filed key rs

  at_mood-append_at :
      (key mood : String) (r : Rule F) (index : MoodIndex F)
      → at_mood key (append_at mood r index) ≡ at_mood key index ++ copies key (mood ∷ []) r
  unfolding at_mood append_at copies
  at_mood-append_at key mood r index = ground (
    arith,
    lookup-insert mood key (or_nil (lookup mood index) ++ r ∷ []) index,
    eq_iff mood key,
    append-nil (or_nil (lookup key index)),
  )

  at_mood-append_at_all :
      (key : String) (moods : List String) (r : Rule F) (index : MoodIndex F)
      → at_mood key (append_at_all moods r index) ≡ at_mood key index ++ copies key moods r
  unfolding append_at_all copies
  at_mood-append_at_all key [] r index = rw append-nil
  at_mood-append_at_all key (m ∷ ms) r index =
      at_mood-append_at_all key ms r (append_at m r index)
      ∙ ground (
        arith,
        at_mood-append_at key m r index,
        append_assoc (at_mood key index) (r ∷ []) (copies key ms r),
        append-nil (at_mood key index),
      )

  at_mood-index_rule :
      (key : String) (r : Rule F) (index : MoodIndex F)
      → at_mood key (index_rule r index) ≡ at_mood key index ++ copies key (entries r) r
  unfolding index_rule
  at_mood-index_rule key r index = ground (
    arith,
    at_mood-append_at_all key r.conditions.mood r index,
    at_mood-append_at key "*" r index,
  )

  at_mood-index_rules :
      (key : String) (rs : List (Rule F)) (index : MoodIndex F)
      → at_mood key (index_rules rs index) ≡ at_mood key index ++ filed key rs
  unfolding index_rules filed
  at_mood-index_rules key [] index = rw append-nil
  at_mood-index_rules key (r ∷ rs) index =
      at_mood-index_rules key rs (index_rule r index) ∙ rw (at_mood-index_rule, append_assoc)

  mem-copies :
      {P : Type 0} (key : String) (ks : List String) (a r : Rule F)
      → IsProp P
      → (a ≡ r → Mem key ks → P)
      → Mem a (copies key ks r)
      → P
  unfolding copies
  mem-copies key [] a r prop use_it m = absurd (not-mem-nil m)
  mem-copies key (k ∷ ks) a r prop use_it m =
      let deeper = λ (n : Mem a (copies key ks r)).
        mem-copies key ks a r prop (λ e i. use_it e (mem-cons_of_mem k i)) n in
      elim (Bool-cases (k == key)) [
        | inl e ↦
            Or.elim prop (mem-cons.0 (rw e at m))
              (λ here. use_it here (rw ((eq_iff k key).0 e) mem-cons_self)) deeper
        | inr e ↦ deeper (rw e at m)
      ]

  copies-mem : (key : String) (ks : List String) (r : Rule F) → Mem key ks → Mem r (copies key ks r)
  unfolding copies
  copies-mem key [] r m = absurd (not-mem-nil m)
  copies-mem key (k ∷ ks) r m = elim (Bool-cases (k == key)) [
    | inl e ↦ rw e mem-cons_self
    | inr e ↦ rw e (
        Or.elim Mem-prop (mem-cons.0 m) (λ here. absurd (cc (e, (eq_iff k key).1 (sym here))))
          (λ later. copies-mem key ks r later))
  ]

  mem_of_mem-filed :
      (key : String) (rs : List (Rule F)) (a : Rule F)
      → Mem a (filed key rs)
      → Mem a rs × Mem key (entries a)
  unfolding filed
  mem_of_mem-filed key [] a m = absurd (not-mem-nil m)
  mem_of_mem-filed key (r ∷ rs) a m =
      Or.elim (×_prop Mem-prop Mem-prop) (mem-append.0 m)
        (mem-copies key (entries r) a r (×_prop Mem-prop Mem-prop)
          (λ e i. (rw e mem-cons_self, rw e i)))
        (λ later. let (i, k) = mem_of_mem-filed key rs a later in (mem-cons_of_mem r i, k))

  mem-filed_of_mem :
      (key : String) (rs : List (Rule F)) (a : Rule F)
      → Mem a rs
      → Mem key (entries a)
      → Mem a (filed key rs)
  unfolding filed
  mem-filed_of_mem key [] a m k = absurd (not-mem-nil m)
  mem-filed_of_mem key (r ∷ rs) a m k = mem-append.1 (
      Or.elim ∨₁_prop (mem-cons.0 m)
        (λ here. Or.inl (rw here (copies-mem key (entries r) r (rw here at k))))
        (λ later. Or.inr (mem-filed_of_mem key rs a later k)))

  -- The index is the one that `buildIndex` makes of the rules.
  abbrev pub IsIndexed : RuleEngine F → Type 0
  IsIndexed e = e.rules_by_mood ≡ (build_index e).rules_by_mood

  pub at_mood-filed :
      (key : String) (e : RuleEngine F)
      → IsIndexed e
      → at_mood key e.rules_by_mood ≡ filed key e.rules
  unfolding build_index at_mood filed lookup
  at_mood-filed key e h = rw h (at_mood-index_rules key e.rules [])

  -- Under a key the index of an indexed engine holds exactly the loaded rules that are filed there.
  pub mem-at_mood_iff :
      (key : String) (e : RuleEngine F) (r : Rule F)
      → IsIndexed e
      → Mem r (at_mood key e.rules_by_mood) ↔ (Mem r e.rules × Mem key (entries r))
  mem-at_mood_iff key e r h =
      rw (at_mood-filed key e h)
        (mem_of_mem-filed key e.rules r, λ (m, k). mem-filed_of_mem key e.rules r m k)

  -- A `Load` or a `Reload`, failing or not, leaves the engine with the index of its rules.
  pub load-IsIndexed :
      (store : RuleStore F) (e : RuleEngine F) → IsIndexed e → IsIndexed (load store e).0
  unfolding load
  load-IsIndexed store e h = ground arith

  pub reload-IsIndexed :
      (store : RuleStore F) (e : RuleEngine F) → IsIndexed e → IsIndexed (reload store e).0
  unfolding reload
  reload-IsIndexed store e h = ground arith

  pub new_rule_engine-IsIndexed : IsIndexed new_rule_engine
  unfolding new_rule_engine build_index
  new_rule_engine-IsIndexed = refl

  -- The engine holds what the store answers, and the index of it.
  pub record Holds (store : RuleStore F) (e : RuleEngine F) : Type 0 where
    pub rules : store.get_all_active_rules ≡ ok e.rules
    pub version : store.get_max_version ≡ ok e.version
    pub indexed : IsIndexed e

  -- All or nothing: no error, and the engine holds the store's answers; or an error, and the
  -- engine is the old one.
  abbrev pub Updated : RuleStore F → RuleEngine F → RuleEngine F × Option Error → Type 0
  Updated store e (e', error) =
      ((error ≡ none) × Holds store e') ⊎ ((x : Error) × (error ≡ some x) × (e' ≡ e))

  -- `Load` is all or nothing: either it reports no error, and the engine holds the rules and the version
  -- that the store answers and the index of these rules; or it reports one, and the engine is as it was.
  pub load-Updated : (store : RuleStore F) (e : RuleEngine F) → Updated store e (load store e)
  unfolding load build_index
  load-Updated store e = elim (Result-cases store.get_all_active_rules) [
    | inr (x, p) ↦ rw (p, load) (inr (wrap "failed to load rules" x, refl, refl))
    | inl (rules, p) ↦ elim (Result-cases store.get_max_version) [
      | inr (x, q) ↦ rw (p, q, load) (inr (wrap "failed to get max version" x, refl, refl))
      | inl (version, q) ↦
          rw (p, q, load) (inl (refl, record { rules = refl; version = refl; indexed = refl }))
    ]
  ]

  -- `Reload` is all or nothing: either it reports no error, and the engine holds the rules and the
  -- version that the store answers and the index of these rules; or it reports one, and the engine is
  -- as it was.
  pub reload-Updated : (store : RuleStore F) (e : RuleEngine F) → Updated store e (reload store e)
  unfolding reload build_index
  reload-Updated store e = elim (Result-cases store.get_all_active_rules) [
    | inr (x, p) ↦ rw (p, reload) (inr (wrap "failed to reload rules" x, refl, refl))
    | inl (rules, p) ↦ elim (Result-cases store.get_max_version) [
      | inr (x, q) ↦ rw (p, q, reload) (inr (wrap "failed to get max version" x, refl, refl))
      | inl (version, q) ↦
          rw (p, q, reload) (inl (refl, record { rules = refl; version = refl; indexed = refl }))
    ]
  ]
