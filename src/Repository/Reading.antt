-- ===== src/Repository/Reading.antt =====
-- Which rules the engine holds after a `Load` through the repository.
use mathlib.Core.List.{Mem, Mem-prop, mem-map, mem-map_of_mem, exists_of_mem-map}
use mathlib.Core.Logic.{∥∥₁_elim, ∥∥₁_map, ∥∥₁_prop}
use ctse_mood_rule_service.Common.{
  ℕ, true, ◌≡◌, refl, ◌↔◌, inl, inr, Option, none, some, List, [], ◌∷◌, map, ok, Result-cases, ◌∙◌,
  ap,
}
use ctse_mood_rule_service.Model.{Rule}
use ctse_mood_rule_service.Engine.{RuleEngine, load}
use ctse_mood_rule_service.Engine.Index.{load-Updated}
use ctse_mood_rule_service.Repository.{
  Row, Pool, RuleJson, scan_rule, scan_all, iterated, get_all_active_rules, rule_store,
}
use ctse_mood_rule_service.Repository.Table.{Columns, IsTable}

module _ {F B : Type 0} (json : RuleJson F B) where
  scan_all-map :
      (rows : List (Row F B)) (rules : List (Rule F))
      → scan_all json (map ok rows) ≡ ok rules
      → map (scan_rule json) rows ≡ map ok rules
  unfolding scan_all
  scan_all-map [] [] h = refl
  scan_all-map [] (x ∷ rules) h = absurd (cc)
  scan_all-map (row ∷ rows) rules h = elim (Result-cases (scan_rule json row)) [
    | inr (e, q) ↦ absurd (let failed = rw (q, scan_all) at h in cc)
    | inl (rule, q) ↦ elim (Result-cases (scan_all json (map ok rows))) [
      | inr (e, p) ↦ absurd (let failed = rw (q, p, scan_all) at h in cc)
      | inl (rest, p) ↦
          let done : ok (rule ∷ rest) ≡ ok rules = rw (q, p, scan_all) at h in
          let whole : rule ∷ rest ≡ rules = cc in
          rw (q, ← whole) (ap (λ xs. ok rule ∷ xs) (scan_all-map rows rest p))
    ]
  ]

  mem-scan_all :
      (r : Rule F) (rows : List (Row F B)) (rules : List (Rule F))
      → scan_all json (map ok rows) ≡ ok rules
      → Mem r rules ↔ ∥ ((row : Row F B) × Mem row rows × (scan_rule json row ≡ ok r)) ∥₁
  mem-scan_all r rows rules h =
      let same = scan_all-map rows rules h in
      (
        λ m. mem-map.0 (rw (← same) at (mem-map_of_mem ok m)),
        λ k.
            ∥∥₁_elim (exists_of_mem-map (rw same at (mem-map.1 k))) Mem-prop
              (λ (a, m, e). let same_rule : a ≡ r = cc in rw (← same_rule) m),
      )

module _ {F B D : Type 0} (pool : Pool F B D) (json : RuleJson F B) (columns : Columns B)
    (find : ℕ → D → Option (Row F B)) (table : IsTable pool columns find) where
  get_all_active_rules-ok :
      (d : D) (rows : List (Row F B)) (rules : List (Rule F))
      → pool.query_active d ≡ ok (map ok rows, none)
      → get_all_active_rules pool json d ≡ ok rules
      → scan_all json (map ok rows) ≡ ok rules
  unfolding get_all_active_rules iterated
  get_all_active_rules-ok d rows rules q h = elim (Result-cases (scan_all json (map ok rows))) [
    | inr (e, p) ↦ absurd (let failed = rw (q, p, get_all_active_rules) at h in cc)
    | inl (rest, p) ↦
        let done : ok rest ≡ ok rules = rw (q, p, get_all_active_rules) at h in p ∙ done
  ]

  -- After a `Load` with no error through the repository, whose query delivered every row, each row of the
  -- query has been scanned without an error and the engine holds their rules in the order of the rows;
  -- and these are exactly the rules that a row of the table which was active when the query ran scans
  -- to. It needs a table that does what the statements say.
  pub load-mem_iff :
      (first second : D) (rows : List (Row F B)) (e : RuleEngine F) (r : Rule F)
      → pool.query_active first ≡ ok (map ok rows, none)
      → (load (rule_store pool json first second) e).1 ≡ none
      → (map (scan_rule json) rows ≡ map ok (load (rule_store pool json first second) e).0.rules)
        × (Mem r (load (rule_store pool json first second) e).0.rules
            ↔ ∥ (
                (row : Row F B) × (find row.id first ≡ some row)
                × (row.active ≡ true)
                × (scan_rule json row ≡ ok r)) ∥₁)
  unfolding rule_store
  load-mem_iff first second rows e r q done =
      elim (load-Updated (rule_store pool json first second) e) [
        | inr (x, failed, same) ↦ absurd (cc)
        | inl (fine, holds) ↦
            let scanned = get_all_active_rules-ok first rows _ q holds.rules in
            let both = mem-scan_all json r rows _ scanned in
            (
              scan_all-map json rows _ scanned,
              (
                λ m. ∥∥₁_elim (both.0 m) ∥∥₁_prop (λ (row, k, s).
                    ∥∥₁_map ((table.active first rows row q).0 k) (λ (f, a). (row, f, a, s))),
                λ k. both.1 (
                    ∥∥₁_map k
                      (λ (row, f, a, s). (row, (table.active first rows row q).1 ∣ (f, a) ∣₁, s))),
              ),
            )
      ]
