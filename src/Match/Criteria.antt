-- ===== src/Match/Criteria.antt =====
-- What the loops of internal/model/rule.go decide, as predicates on the members of lists and maps.
use mathlib.Core.List.{Mem, mem-cons, not-mem-nil, mem-cons_self, mem-cons_of_mem}
use mathlib.Core.Logic.Or
use ctse_mood_rule_service.Common.{
  String, Bool, true, false, ◌≡◌, refl, ◌∙◌, ◌↔◌, Option, none, some, List, [], ◌∷◌, arith, ◌==◌,
  eq_iff, Dict, lookup, insert, lookup-insert, if◌then◌else◌, true_prop, Bool-cases, inl, inr, any,
  any_of_mem, witness_of_any, String-set,
}
use ctse_mood_rule_service.Match.{
  matches_slice, matches_preferences, preference_fails, mark_tags, is_marked, any_marked,
  matches_tags,
}

matches_slice-mem : (v : String) (cs : List String) → matches_slice v cs ≡ true → Mem v cs
unfolding matches_slice
matches_slice-mem v [] h = absurd (cc)
matches_slice-mem v (c ∷ cs) h = elim (Bool-cases (v == c)) [
  | inl e ↦ rw ((eq_iff v c).0 e) mem-cons_self
  | inr e ↦ mem-cons_of_mem c (matches_slice-mem v cs (rw e at h))
]

mem-matches_slice : (v : String) (cs : List String) → Mem v cs → matches_slice v cs ≡ true
unfolding matches_slice
mem-matches_slice v [] m = absurd (not-mem-nil m)
mem-matches_slice v (c ∷ cs) m =
    Or.elim (true_prop (matches_slice v (c ∷ cs))) (mem-cons.0 m)
      (λ here. ground (arith, eq_iff v c)) (λ later. ground (arith, mem-matches_slice v cs later))

-- `matchesSlice` holds exactly of the members.
pub matches_slice_iff : (v : String) (cs : List String) → (matches_slice v cs ≡ true) ↔ Mem v cs
matches_slice_iff v cs = (matches_slice-mem v cs, mem-matches_slice v cs)

-- The user's map has every entry of the rule's.
abbrev pub HasAll : Dict String → Dict String → Type 0
HasAll user rule = (e : String × String) → Mem e rule → lookup e.0 user ≡ some e.1

-- Some tag stands in both lists.
abbrev pub Share : List String → List String → Type 0
Share user rule = (t : String) × Mem t rule × Mem t user

preference_fails_iff :
    (o : Option String) (v : String) → (preference_fails o v ≡ false) ↔ (o ≡ some v)
unfolding preference_fails
preference_fails_iff none v = ground arith
preference_fails_iff (some u) v = ground (arith, eq_iff u v)

lookup_prop : (o : Option String) (v : String) → IsProp (o ≡ some v)
lookup_prop o v = hlevel String-set

matches_preferences-HasAll :
    (user rule : Dict String) → matches_preferences user rule ≡ true → HasAll user rule
unfolding matches_preferences
matches_preferences-HasAll user [] h e m = absurd (not-mem-nil m)
matches_preferences-HasAll user ((k, v) ∷ rule) h e m =
    elim (Bool-cases (preference_fails (lookup k user) v)) [
      | inl fails ↦ absurd (cc)
      | inr fits ↦
          Or.elim (lookup_prop (lookup e.0 user) e.1) (mem-cons.0 m)
            (λ here. rw here ((preference_fails_iff (lookup k user) v).0 fits))
            (λ later. matches_preferences-HasAll user rule (rw fits at h) e later)
    ]

HasAll-matches_preferences :
    (user rule : Dict String) → HasAll user rule → matches_preferences user rule ≡ true
unfolding matches_preferences
HasAll-matches_preferences user [] h = refl
HasAll-matches_preferences user ((k, v) ∷ rule) h =
    rw ((preference_fails_iff (lookup k user) v).1 (h (k, v) mem-cons_self))
      (HasAll-matches_preferences user rule (λ e m. h e (mem-cons_of_mem (k, v) m)))

-- `matchesPreferences` holds exactly if the user's map has every entry of the rule's, in whatever
-- order the rule's map is gone through.
pub matches_preferences_iff :
    (user rule : Dict String) → (matches_preferences user rule ≡ true) ↔ HasAll user rule
matches_preferences_iff user rule =
    (matches_preferences-HasAll user rule, HasAll-matches_preferences user rule)

is_marked-mark_tags :
    (m : Dict Bool) (tags : List String) (t : String)
    → is_marked (mark_tags m tags) t ≡ (if matches_slice t tags then true else is_marked m t)
unfolding mark_tags is_marked matches_slice
is_marked-mark_tags m [] t = refl
is_marked-mark_tags m (x ∷ tags) t = ground (
  arith,
  is_marked-mark_tags (insert x true m) tags t,
  lookup-insert x t true m,
  eq_iff x t,
  eq_iff t x,
)

any_marked-any : (m : Dict Bool) (tags : List String) → any_marked m tags ≡ any (is_marked m) tags
unfolding any_marked
any_marked-any m [] = refl
any_marked-any m (t ∷ tags) = rw (any_marked-any m tags)

is_marked-all :
    (tags : List String) (t : String) → is_marked (mark_tags [] tags) t ≡ matches_slice t tags
unfolding is_marked
is_marked-all tags t = unfold lookup in ground (arith, is_marked-mark_tags [] tags t)

matches_tags-Share : (user rule : List String) → matches_tags user rule ≡ true → Share user rule
unfolding matches_tags
matches_tags-Share user rule h =
    let (t, m, marked) =
      witness_of_any (is_marked (mark_tags [] user)) rule (rw any_marked-any at h) in
    (t, m, (matches_slice_iff t user).0 (rw is_marked-all at marked))

Share-matches_tags : (user rule : List String) → Share user rule → matches_tags user rule ≡ true
unfolding matches_tags
Share-matches_tags user rule (t, m, k) = rw any_marked-any (
    any_of_mem (is_marked (mark_tags [] user)) rule
      (is_marked-all user t ∙ mem-matches_slice t user k) m)

-- `matchesTags` holds exactly if the two lists share a tag.
pub matches_tags_iff : (user rule : List String) → (matches_tags user rule ≡ true) ↔ Share user rule
matches_tags_iff user rule = (matches_tags-Share user rule, Share-matches_tags user rule)
