-- ===== src/Repository/Writing.antt =====
-- That a rule is read back as it was written.
use ctse_mood_rule_service.Common.{
  ℕ, String, ◌≡◌, refl, ◌∙◌, ap, ◌⊎◌, inl, inr, Option, none, some, arith, eqb_iff, Error, wrap, ok,
  err,
}
use ctse_mood_rule_service.Model.{Rule}
use ctse_mood_rule_service.Repository.{
  scan_failed, Row, Pool, RuleJson, Written, scan_rule, found_rule, get_rule_by_id, marshal_rule,
  to_row, stamp, inserted, create_rule,
}
use ctse_mood_rule_service.Repository.Table.{Columns, stored, IsTable}

-- What the table gives back of a rule that was written to it.
abbrev pub as_stored : {F B : Type 0} → Columns B → Rule F → Rule F
as_stored columns rule = record rule {
  created_at = columns.timestamp rule.created_at;
  updated_at = columns.timestamp rule.updated_at;
}

module _ {F B : Type 0} (json : RuleJson F B) (columns : Columns B) where
  -- The JSON of the rule can be written, and read back through the column.
  pub record RoundTrips (rule : Rule F) : Type 0 where
    pub conditions_text : B
    pub actions_text : B
    pub conditions_written : json.conditions.marshal rule.conditions ≡ ok conditions_text
    pub actions_written : json.actions.marshal rule.actions ≡ ok actions_text
    pub conditions_read :
        json.conditions.unmarshal (columns.jsonb conditions_text) ≡ ok rule.conditions
    pub actions_read : json.actions.unmarshal (columns.jsonb actions_text) ≡ ok rule.actions

  marshal_rule-RoundTrips :
      (rule : Rule F) (h : RoundTrips rule)
      → marshal_rule json rule ≡ ok (h.conditions_text, h.actions_text)
  unfolding marshal_rule
  marshal_rule-RoundTrips rule h = rw (h.conditions_written, h.actions_written, marshal_rule) refl

  scan_rule-stored :
      (rule : Rule F) (new_uuid now : ℕ) (h : RoundTrips rule)
      → let written = stamp new_uuid now rule in
        scan_rule json (stored columns (to_row written (h.conditions_text, h.actions_text)))
        ≡ ok (as_stored columns written)
  unfolding scan_rule stored to_row stamp
  scan_rule-stored rule new_uuid now h = rw (h.conditions_read, h.actions_read, scan_rule) refl

module _ {F B D : Type 0} (pool : Pool F B D) (json : RuleJson F B) (columns : Columns B)
    (find : ℕ → D → Option (Row F B)) (table : IsTable pool columns find) where
  get-found :
      (uuid_string : ℕ → String) (id : ℕ) (d : D) (row : Row F B) (rule : Rule F)
      → find id d ≡ some row
      → scan_rule json row ≡ ok rule
      → (get_rule_by_id pool json uuid_string id d ≡ ok rule)
        ⊎ ((e : Error) × (pool.query_by_id id d ≡ scan_failed e)
            × (get_rule_by_id pool json uuid_string id d ≡ err (wrap "failed to get rule" e)))
  unfolding get_rule_by_id found_rule
  get-found uuid_string id d row rule f s = elim (table.by_id id d) [
    | inl q ↦ inl (rw (q, f, s) refl)
    | inr (e, q) ↦ inr (e, q, rw q refl)
  ]

  -- A rule that `CreateRule` has created with no error is read back by its id, with the id and the
  -- times that it was given, the times as the column keeps them, unless the query by the id itself
  -- fails, with whose error it fails then. It needs JSON that can be read back, and a table that does
  -- what the statements say.
  pub get_rule_by_id-create_rule :
      (uuid_string : ℕ → String) (new_uuid now : ℕ) (rule : Rule F) (d : D)
      → RoundTrips json columns rule
      → (create_rule pool json new_uuid now rule d).answer ≡ none
      → let w = create_rule pool json new_uuid now rule d in
        let answer = get_rule_by_id pool json uuid_string w.rule.id w.database in
        (answer ≡ ok (as_stored columns (stamp new_uuid now rule)))
        ⊎ ((e : Error) × (pool.query_by_id w.rule.id w.database ≡ scan_failed e)
            × (answer ≡ err (wrap "failed to get rule" e)))
  unfolding create_rule inserted
  get_rule_by_id-create_rule uuid_string new_uuid now rule d h done =
      let written = stamp new_uuid now rule in
      let row = to_row written (h.conditions_text, h.actions_text) in
      let made : create_rule pool json new_uuid now rule d
          ≡ inserted written (pool.exec_insert row d) =
        rw (marshal_rule-RoundTrips json columns rule h, create_rule) refl in
      elim (table.insert row d) [
        | inl (e, d', q) ↦
            let whole = made ∙ ap (inserted written) q in
            absurd (let failed = ap (λ (w : Written F D). w.answer) whole in cc)
        | inr (d', q, new, rows) ↦
            let whole = made ∙ ap (inserted written) q in
            let there : find row.id d' ≡ some (stored columns row) =
              ground (arith, rows row.id, eqb_iff row.id row.id) in
            rw whole (
              get-found uuid_string row.id d' (stored columns row) (as_stored columns written) there
                (scan_rule-stored json columns rule new_uuid now h))
      ]
