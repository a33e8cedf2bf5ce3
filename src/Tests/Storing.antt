-- ===== src/Tests/Storing.antt =====
-- The repository's theorems on a table that has room for one rule.
use mathlib.Core.List.{Mem}
use ctse_mood_rule_service.Common.{
  ℕ, String, map, true, ◌≡◌, refl, ◌↔◌, ◌⊎◌, none, some, [], ◌∷◌, Error, wrap, ok, err,
}
use ctse_mood_rule_service.Engine.{new_rule_engine, load}
use ctse_mood_rule_service.Repository.{
  scan_failed, Row, stamp, get_all_active_rules, get_max_version, scan_all, to_row, scan_rule,
  get_rule_by_id, create_rule, rule_store,
}
use ctse_mood_rule_service.Repository.Writing.{as_stored, RoundTrips, get_rule_by_id-create_rule}
use ctse_mood_rule_service.Repository.Reading.{load-mem_iff}
use ctse_mood_rule_service.Tests.Data.{Number, happy_morning}
use ctse_mood_rule_service.Tests.OneRow.{
  Column, conditions_column, actions_column, json, columns, find, pool, pool-IsTable,
}

happy_texts : RoundTrips json columns happy_morning
happy_texts = record {
  conditions_text = conditions_column happy_morning.conditions;
  actions_text = actions_column happy_morning.actions;
  conditions_written = refl;
  actions_written = refl;
  conditions_read = refl;
  actions_read = refl;
}

abbrev uuid_string : ℕ → String
uuid_string id = "00000000-0000-0000-0000-000000000001"

created : (create_rule pool json 7 123_456 happy_morning none).answer ≡ none
unfolding create_rule
created = refl

get_rule_by_id-create_rule_example :
    let w = create_rule pool json 7 123_456 happy_morning none in
    let answer = get_rule_by_id pool json uuid_string w.rule.id w.database in
    (answer ≡ ok (as_stored columns (stamp 7 123_456 happy_morning)))
    ⊎ ((e : Error) × (pool.query_by_id w.rule.id w.database ≡ scan_failed e)
        × (answer ≡ err (wrap "failed to get rule" e)))
get_rule_by_id-create_rule_example =
    get_rule_by_id-create_rule pool json columns find pool-IsTable uuid_string 7 123_456
      happy_morning none happy_texts created

abbrev happy_columns : Column × Column
happy_columns = (conditions_column happy_morning.conditions, actions_column happy_morning.actions)

-- The row of the rule in the table.
abbrev happy_row : Row Number Column
happy_row = record (to_row happy_morning happy_columns) { created_at = 1000 }

loaded : (load (rule_store pool json (some happy_row) (some happy_row)) new_rule_engine).1 ≡ none
unfolding load rule_store get_all_active_rules get_max_version scan_all scan_rule to_row
loaded = refl

load-mem_iff_example :
    let loaded_rules =
      (load (rule_store pool json (some happy_row) (some happy_row)) new_rule_engine).0.rules in
    (map (scan_rule json) (happy_row ∷ []) ≡ map ok loaded_rules)
    × (Mem happy_morning loaded_rules
        ↔ ∥ (
            (row : Row Number Column) × (find row.id (some happy_row) ≡ some row)
            × (row.active ≡ true)
            × (scan_rule json row ≡ ok happy_morning)) ∥₁)
unfolding to_row
load-mem_iff_example =
    load-mem_iff pool json columns find pool-IsTable (some happy_row) (some happy_row)
      (happy_row ∷ []) new_rule_engine happy_morning refl loaded
