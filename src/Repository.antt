-- ===== src/Repository.antt =====
-- internal/repository/rule_repository.go: the rules in the database. The pool of pgx is the parameter
-- `Pool`, one operation for each of the SQL statements, over the state `D` of the database; the JSON of
-- conditions and actions is the parameter `RuleJson` over bytes `B`. A UUID is its 128 bits.
pub mod Table
pub mod Writing
pub mod Reading
use Prim.Native.String.{◌++◌}
use ctse_mood_rule_service.Common.{
  ℕ, String, Bool, Option, none, some, List, [], ◌∷◌, ◌==◌, eqb, if◌then◌else◌, Error, errorf, wrap,
  Result, ok, err, ◌>>=◌, or_wrap,
}
use ctse_mood_rule_service.Common.Int.{ℤ}
use ctse_mood_rule_service.Model.{Rule, RuleConditions, RuleActions}
use ctse_mood_rule_service.Cache.{Json}
use ctse_mood_rule_service.Engine.{RuleStore}

-- A row of the table `rules`, in the order of the columns.
pub record Row (F B : Type 0) : Type 0 where
  pub id : ℕ
  pub name : String
  pub priority : ℤ
  pub conditions : B
  pub actions : B
  pub weight : F
  pub version : ℤ
  pub active : Bool
  pub created_at : ℕ
  pub updated_at : ℕ

-- What `Scan` of a single row comes to: `pgx.ErrNoRows`, another error, or the row.
pub data Scanned (F B : Type 0) : Type 0 where
  no_rows : Scanned F B
  scan_failed : Error → Scanned F B
  scanned : Row F B → Scanned F B

pub record Pool (F B D : Type 0) : Type 0 where
  -- the rows, each scanned or failed, and what `rows.Err` says after them
  pub query_active : D → Result (List (Result (Row F B)) × Option Error)
  pub query_by_id : ℕ → D → Scanned F B
  pub query_max_version : D → Result ℤ
  pub exec_insert : Row F B → D → Option Error × D
  -- the number of rows affected; an update leaves `created_at` as it is in the table
  pub exec_update : Row F B → D → Result ℕ × D
  pub exec_delete : ℕ → D → Result ℕ × D
  pub close_pool : D → D

pub record RuleJson (F B : Type 0) : Type 0 where
  pub conditions : Json RuleConditions B
  pub actions : Json (RuleActions F) B

-- A method that writes: its error, the rule behind its pointer, and the database.
pub record Written (F D : Type 0) : Type 0 where
  pub answer : Option Error
  pub rule : Rule F
  pub database : D

-- `if err != nil { … }; if result.RowsAffected() == 0 { … }`
unfoldable pub affected_error : String → String → Result ℕ → Option Error
affected_error text id_text (err e) = some (wrap text e)
affected_error text id_text (ok n) =
    if eqb n 0 then some (errorf ("rule not found: " ++ id_text)) else none

pub iterated : {F : Type 0} → Option Error → List (Rule F) → Result (List (Rule F))
iterated none rules = ok rules
iterated (some e) rules = err (wrap "error iterating rules" e)

-- The changes of the rule before it is inserted: `uuid.Nil` is 0.
unfoldable pub stamp : {F : Type 0} → ℕ → ℕ → Rule F → Rule F
stamp new_uuid now rule = record rule {
  id = if eqb rule.id 0 then new_uuid else rule.id;
  created_at = now;
  updated_at = now;
}

pub inserted : {F D : Type 0} → Rule F → Option Error × D → Written F D
inserted rule (none, d) = record { answer = none; rule = rule; database = d }
inserted rule (some e, d) = record {
  answer = some (wrap "failed to create rule" e);
  rule = rule;
  database = d;
}

unfoldable pub to_row : {F B : Type 0} → Rule F → B × B → Row F B
to_row rule (conditions_json, actions_json) = record {
  id = rule.id;
  name = rule.name;
  priority = rule.priority;
  conditions = conditions_json;
  actions = actions_json;
  weight = rule.weight;
  version = rule.version;
  active = rule.active;
  created_at = rule.created_at;
  updated_at = rule.updated_at;
}

module _ {F B : Type 0} (json : RuleJson F B) where
  -- The end of `scanRule`, from the row that `Scan` has filled in.
  unfoldable pub scan_rule : Row F B → Result (Rule F)
  scan_rule row = do
    conditions ← or_wrap "failed to unmarshal conditions" (json.conditions.unmarshal row.conditions)
    actions ← or_wrap "failed to unmarshal actions" (json.actions.unmarshal row.actions)
    ok (record {
      id = row.id;
      name = row.name;
      priority = row.priority;
      conditions = conditions;
      actions = actions;
      weight = row.weight;
      version = row.version;
      active = row.active;
      created_at = row.created_at;
      updated_at = row.updated_at;
    })

  -- The loop over the rows.
  unfoldable pub scan_all : List (Result (Row F B)) → Result (List (Rule F))
  unfolding scan_rule
  scan_all [] = ok []
  scan_all (r ∷ rows) = do
    rule ← or_wrap "failed to scan rule" (r >>= scan_rule)
    rules ← scan_all rows
    ok (rule ∷ rules)

  pub found_rule : (ℕ → String) → ℕ → Scanned F B → Result (Rule F)
  unfolding scan_rule
  found_rule uuid_string id no_rows = err (errorf ("rule not found: " ++ uuid_string id))
  found_rule uuid_string id (scan_failed e) = err (wrap "failed to get rule" e)
  found_rule uuid_string id (scanned row) = or_wrap "failed to get rule" (scan_rule row)

  -- Both texts, in the order in which they are marshalled.
  unfoldable pub marshal_rule : Rule F → Result (B × B)
  marshal_rule rule = do
    conditions_json ←
        or_wrap "failed to marshal conditions" (json.conditions.marshal rule.conditions)
    actions_json ← or_wrap "failed to marshal actions" (json.actions.marshal rule.actions)
    ok (conditions_json, actions_json)

module _ {F B D : Type 0} (pool : Pool F B D) where
  -- `GetMaxVersion`
  unfoldable pub get_max_version : D → Result ℤ
  get_max_version d = or_wrap "failed to get max version" (pool.query_max_version d)

  -- `DeleteRule`
  unfoldable pub delete_rule : (ℕ → String) → ℕ → D → Option Error × D
  unfolding affected_error
  delete_rule uuid_string id d =
      let (r, d') = pool.exec_delete id d in
      (affected_error "failed to delete rule" (uuid_string id) r, d')

  -- `Close`
  unfoldable pub close : D → D
  close d = pool.close_pool d

module _ {F B D : Type 0} (pool : Pool F B D) (json : RuleJson F B) where
  -- `GetAllActiveRules`
  unfoldable pub get_all_active_rules : D → Result (List (Rule F))
  unfolding scan_all iterated
  get_all_active_rules d = do
    rows ← or_wrap "failed to query rules" (pool.query_active d)
    rules ← scan_all json rows.0
    iterated rows.1 rules

  -- `GetRuleByID`; the first argument prints a UUID.
  unfoldable pub get_rule_by_id : (ℕ → String) → ℕ → D → Result (Rule F)
  unfolding found_rule
  get_rule_by_id uuid_string id d = found_rule json uuid_string id (pool.query_by_id id d)

  -- `CreateRule`
  unfoldable pub create_rule : ℕ → ℕ → Rule F → D → Written F D
  unfolding marshal_rule to_row stamp inserted
  create_rule new_uuid now rule d = elim (marshal_rule json rule) [
    | err e ↦ record { answer = some e; rule = rule; database = d }
    | ok texts ↦
        let rule' = stamp new_uuid now rule in
        inserted rule' (pool.exec_insert (to_row rule' texts) d)
  ]

  -- `UpdateRule`
  unfoldable pub update_rule : (ℕ → String) → ℕ → Rule F → D → Written F D
  unfolding marshal_rule to_row affected_error
  update_rule uuid_string now rule d = elim (marshal_rule json rule) [
    | err e ↦ record { answer = some e; rule = rule; database = d }
    | ok texts ↦
        let rule' = record rule { updated_at = now } in
        let (r, d') = pool.exec_update (to_row rule' texts) d in
        record {
          answer = affected_error "failed to update rule" (uuid_string rule.id) r;
          rule = rule';
          database = d';
        }
  ]

  -- The repository as the rule engine sees it: `Load` asks at two moments.
  unfoldable pub rule_store : D → D → RuleStore F
  rule_store first second = record {
    get_all_active_rules = get_all_active_rules first;
    get_max_version = get_max_version pool second;
  }
