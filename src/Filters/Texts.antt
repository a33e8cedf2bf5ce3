-- ===== src/Filters/Texts.antt =====
-- The tags and the categories of `aggregateFilters`: the union of what the matched rules list.
use ctse_mood_rule_service.Common.{
  ℕ, String, Bool, true, false, ◌≡◌, refl, ◌∙◌, ap, Option, none, some, List, [], ◌∷◌, arith, ◌==◌,
  eq_iff, if◌then◌else◌, contains, Dict, lookup, insert, keys, IsMap, insert-IsMap, any, filter,
  length, filter-perm, length-perm,
}
use ctse_mood_rule_service.Float.{Float64}
use ctse_mood_rule_service.Model.{Rule}
use ctse_mood_rule_service.Filters.{
  MapRange, Aggregate, mark_all, add_filters, add_all_filters, no_filters, aggregate_filters,
}

-- How often a text stands in a list.
abbrev pub times : String → List String → ℕ
times t xs = length (filter (λ x. x == t) xs)

-- once or not at all
abbrev pub once : Bool → ℕ
once b = if b then 1 else 0

abbrev is_present : Option Bool → Bool
is_present none = false
is_present (some _) = true

once_if : (b : Bool) → (if b then true else false) ≡ b
once_if true = refl
once_if false = refl

times-keys :
    (t : String) (m : Dict Bool) → IsMap m → times t (keys m) ≡ once (is_present (lookup t m))
unfolding lookup
times-keys t [] h = refl
times-keys t ((k, v) ∷ m) h = ground (arith, times-keys t m h.1, eq_iff k t)

mark_all-IsMap : (xs : List String) (m : Dict Bool) → IsMap m → IsMap (mark_all xs m)
unfolding mark_all
mark_all-IsMap [] m h = h
mark_all-IsMap (x ∷ xs) m h = mark_all-IsMap xs (insert x true m) (insert-IsMap x true m h)

present-insert :
    (x t : String) (m : Dict Bool)
    → is_present (lookup t (insert x true m)) ≡ (if x == t then true else is_present (lookup t m))
unfolding lookup insert
present-insert x t [] = ground arith
present-insert x t ((k, v) ∷ m) =
    ground (arith, present-insert x t m, eq_iff x t, eq_iff k x, eq_iff k t)

present-mark_all :
    (t : String) (xs : List String) (m : Dict Bool)
    → is_present (lookup t (mark_all xs m))
      ≡ (if contains xs t then true else is_present (lookup t m))
unfolding mark_all
present-mark_all t [] m = refl
present-mark_all t (x ∷ xs) m =
    ground (arith, present-mark_all t xs (insert x true m), present-insert x t m)

-- A list and a rearrangement of it hold a text equally often.
times-perm :
    (t : String) (m : Dict Bool) (order : MapRange) → times t (order.range m) ≡ times t (keys m)
times-perm t m order = length-perm (filter-perm (λ x. x == t) (order.range-perm m))

module _ {F : Type 0} ⦃fl : Float64 F⦄ where
  abbrev pub lists_tag : String → Rule F → Bool
  lists_tag t r = contains r.actions.tags t

  abbrev pub lists_category : String → Rule F → Bool
  lists_category t r = contains r.actions.categories t

  maps-IsMap :
      (rules : List (Rule F)) (a : Aggregate F)
      → IsMap a.tag_map
      → IsMap a.category_map
      → IsMap (add_all_filters rules a).tag_map × IsMap (add_all_filters rules a).category_map
  unfolding add_all_filters add_filters
  maps-IsMap [] a h k = (h, k)
  maps-IsMap (r ∷ rules) a h k =
      maps-IsMap rules (add_filters r a) (mark_all-IsMap r.actions.tags a.tag_map h)
        (mark_all-IsMap r.actions.categories a.category_map k)

  present-tags :
      (t : String) (rules : List (Rule F)) (a : Aggregate F)
      → is_present (lookup t (add_all_filters rules a).tag_map)
        ≡ (if any (lists_tag t) rules then true else is_present (lookup t a.tag_map))
  unfolding add_all_filters add_filters
  present-tags t [] a = refl
  present-tags t (r ∷ rules) a =
      ground
        (arith, present-tags t rules (add_filters r a), present-mark_all t r.actions.tags a.tag_map)

  present-categories :
      (t : String) (rules : List (Rule F)) (a : Aggregate F)
      → is_present (lookup t (add_all_filters rules a).category_map)
        ≡ (if any (lists_category t) rules then true else is_present (lookup t a.category_map))
  unfolding add_all_filters add_filters
  present-categories t [] a = refl
  present-categories t (r ∷ rules) a = ground (
    arith,
    present-categories t rules (add_filters r a),
    present-mark_all t r.actions.categories a.category_map,
  )

  -- A tag stands exactly once among the tags of the query if some matched rule lists it and not at
  -- all otherwise, and so do the categories, in whatever order the maps are gone through.
  pub aggregate_texts :
      (order : MapRange) (rules : List (Rule F)) (t : String)
      → (times t (aggregate_filters order rules).tags ≡ once (any (lists_tag t) rules))
        × (times t (aggregate_filters order rules).categories ≡ once (any (lists_category t) rules))
  unfolding aggregate_filters lookup
  aggregate_texts order rules t =
      let a = add_all_filters rules no_filters in
      let (tags, categories) = maps-IsMap rules no_filters tt tt in
      (
        times-perm t a.tag_map order
            ∙ times-keys t a.tag_map tags
            ∙ ap once (present-tags t rules no_filters ∙ once_if (any (lists_tag t) rules)),
        times-perm t a.category_map order
            ∙ times-keys t a.category_map categories
            ∙ ap once
                (present-categories t rules no_filters ∙ once_if (any (lists_category t) rules)),
      )
