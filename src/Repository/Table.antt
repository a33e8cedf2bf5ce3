-- ===== src/Repository/Table.antt =====
-- What the SQL statements do to the table `rules` of migrations/, as far as the code relies on it: the
-- table is read through `find`, the row of an id, its primary key.
use ctse_mood_rule_service.Common.{
  ℕ, true, ◌≡◌, ◌⊎◌, ◌↔◌, Option, none, some, List, map, eqb, if◌then◌else◌, Error, ok,
}
use mathlib.Core.List.{Mem}
use ctse_mood_rule_service.Repository.{Row, Scanned, no_rows, scan_failed, scanned, Pool}

-- How a column gives back what it was given: JSONB in its own layout, a timestamp in microseconds.
pub record Columns (B : Type 0) : Type 0 where
  pub jsonb : B → B
  pub timestamp : ℕ → ℕ

module _ {F B : Type 0} where
  unfoldable pub stored : Columns B → Row F B → Row F B
  stored columns row = record row {
    conditions = columns.jsonb row.conditions;
    actions = columns.jsonb row.actions;
    created_at = columns.timestamp row.created_at;
    updated_at = columns.timestamp row.updated_at;
  }

  abbrev pub scan_of : Option (Row F B) → Scanned F B
  scan_of none = no_rows
  scan_of (some row) = scanned row

  -- A query answers from the table, or fails. An `INSERT` that succeeds has added its row under an id
  -- that was free; after one that fails nothing is known, since an error can also come after the commit.
  pub record IsTable {D : Type 0} (pool : Pool F B D) (columns : Columns B)
      (find : ℕ → D → Option (Row F B)) : Type 0 where
    pub by_id :
        (id : ℕ) (d : D)
        → (pool.query_by_id id d ≡ scan_of (find id d))
          ⊎ ((e : Error) × (pool.query_by_id id d ≡ scan_failed e))
    pub active :
        (d : D) (rows : List (Row F B)) (row : Row F B)
        → pool.query_active d ≡ ok (map ok rows, none)
        → Mem row rows ↔ ∥ ((find row.id d ≡ some row) × (row.active ≡ true)) ∥₁
    pub insert :
        (row : Row F B) (d : D)
        → ((e : Error) × (d' : D) × (pool.exec_insert row d ≡ (some e, d')))
          ⊎ ((d' : D) × (pool.exec_insert row d ≡ (none, d'))
              × (find row.id d ≡ none)
              × ((j : ℕ)
                  → find j d' ≡ (if eqb row.id j then some (stored columns row) else find j d)))
