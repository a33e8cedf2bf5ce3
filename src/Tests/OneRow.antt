-- ===== src/Tests/OneRow.antt =====
-- A table that has room for one rule, and why it is one. The bytes of a column are the value itself, and
-- times are kept in whole thousands.
use Prim.Native.Nat.{◌/◌}
use mathlib.Core.List.{Mem, Mem-prop, mem-cons, mem-cons_self, not-mem-nil}
use mathlib.Core.Logic.{∥∥₁_elim, ∥∥₁_prop}
use mathlib.Core.Logic.Or
use ctse_mood_rule_service.Common.{
  ℕ, ◌*◌, Bool, true, false, ◌≡◌, refl, sym, ap, ◌∙◌, ◌↔◌, ◌⊎◌, inl, inr, Option, none, some, List,
  [], ◌∷◌, map, arith, eqb, eqb_iff, if◌then◌else◌, Bool-cases, Error, errorf, Result, ok, err,
}
use ctse_mood_rule_service.Common.Int.{pos}
use ctse_mood_rule_service.Model.{RuleConditions, RuleActions}
use ctse_mood_rule_service.Repository.{Row, Pool, RuleJson}
use ctse_mood_rule_service.Repository.Table.{Columns, stored, scan_of, IsTable}
use ctse_mood_rule_service.Tests.Data.{Number}

pub data Column : Type 0 where
  conditions_column : RuleConditions → Column
  actions_column : RuleActions Number → Column

abbrev read_conditions : Column → Result RuleConditions
read_conditions (conditions_column c) = ok c
read_conditions (actions_column a) = err (errorf "not conditions")

abbrev read_actions : Column → Result (RuleActions Number)
read_actions (conditions_column c) = err (errorf "not actions")
read_actions (actions_column a) = ok a

abbrev pub json : RuleJson Number Column
json = record {
  conditions = record { marshal = λ c. ok (conditions_column c); unmarshal = read_conditions };
  actions = record { marshal = λ a. ok (actions_column a); unmarshal = read_actions };
}

abbrev pub columns : Columns Column
columns = record { jsonb = λ b. b; timestamp = λ t. t / 1000 * 1000 }

abbrev pub Table : Type 0
Table = Option (Row Number Column)

abbrev pub find : ℕ → Table → Option (Row Number Column)
find id none = none
find id (some row) = if eqb row.id id then some row else none

abbrev active_rows : Table → List (Result (Row Number Column))
active_rows none = []
active_rows (some row) = if row.active then ok row ∷ [] else []

abbrev insert_row : Row Number Column → Table → Option Error × Table
insert_row row none = (none, some (stored columns row))
insert_row row (some old) = (some (errorf "no room"), some old)

abbrev update_row : Row Number Column → Table → Result ℕ × Table
update_row row none = (ok 0, none)
update_row row (some old) =
    if eqb row.id old.id
    then (ok 1, some (record (stored columns row) { created_at = old.created_at }))
    else (ok 0, some old)

abbrev delete_row : ℕ → Table → Result ℕ × Table
delete_row id none = (ok 0, none)
delete_row id (some old) = if eqb id old.id then (ok 1, none) else (ok 0, some old)

abbrev pub pool : Pool Number Column Table
pool = record {
  query_active = λ d. ok (active_rows d, none);
  query_by_id = λ id d. scan_of (find id d);
  query_max_version = λ d. ok (pos 1);
  exec_insert = insert_row;
  exec_update = update_row;
  exec_delete = delete_row;
  close_pool = λ d. d;
}

abbrev Answer : Type 0
Answer = Result (List (Result (Row Number Column)) × Option Error)

found_one : (x row : Row Number Column) → find row.id (some x) ≡ some row → x ≡ row
found_one x row h = elim (Bool-cases (eqb x.id row.id)) [
  | inl e ↦ let there = rw e at h in cc
  | inr e ↦ absurd (let gone = rw e at h in cc)
]

find_own : (x : Row Number Column) → find x.id (some x) ≡ some x
find_own x = ground (arith, eqb_iff x.id x.id)

active_none :
    (x : Row Number Column) (rows : List (Row Number Column)) (row : Row Number Column)
    → x.active ≡ false
    → ◌≡◌ {A = Answer} (ok ([], none)) (ok (map ok rows, none))
    → Mem row rows ↔ ∥ ((find row.id (some x) ≡ some row) × (row.active ≡ true)) ∥₁
active_none x [] row off q = (
  λ m. absurd (not-mem-nil m),
  λ t. ∥∥₁_elim t Mem-prop (λ (f, a).
      let same : x ≡ row = found_one x row f in
      absurd (let on : x.active ≡ true = rw same a in cc)),
)
active_none x (r ∷ rows) row off q = absurd (cc)

active_one :
    (x : Row Number Column) (rows : List (Row Number Column)) (row : Row Number Column)
    → x.active ≡ true
    → ◌≡◌ {A = Answer} (ok (ok x ∷ [], none)) (ok (map ok rows, none))
    → Mem row rows ↔ ∥ ((find row.id (some x) ≡ some row) × (row.active ≡ true)) ∥₁
active_one x [] row on q = absurd (cc)
active_one x (r ∷ s ∷ rows) row on q = absurd (cc)
active_one x (r ∷ []) row on q =
    let same : r ≡ x = cc in
    (
      λ m.
          Or.elim ∥∥₁_prop (mem-cons.0 m)
            (λ here. ∣ (rw (here, same) (find_own x), rw (here, same) on) ∣₁)
            (λ later. absurd (not-mem-nil later)),
      λ t.
          ∥∥₁_elim t Mem-prop (λ (f, a). let it = found_one x row f in rw (same, it) mem-cons_self),
    )

answered :
    (x : Row Number Column) (b : Bool)
    → x.active ≡ b
    → pool.query_active (some x) ≡ ok (if b then ok x ∷ [] else [], none)
answered x b h = ap (λ c. ok (if c then ok x ∷ [] else [], none)) h

active_law :
    (d : Table) (rows : List (Row Number Column)) (row : Row Number Column)
    → pool.query_active d ≡ ok (map ok rows, none)
    → Mem row rows ↔ ∥ ((find row.id d ≡ some row) × (row.active ≡ true)) ∥₁
active_law none [] row q =
    (λ m. absurd (not-mem-nil m), λ t. ∥∥₁_elim t Mem-prop (λ (f, a). absurd (cc)))
active_law none (r ∷ rows) row q = absurd (cc)
active_law (some x) rows row q = elim (Bool-cases x.active) [
  | inl on ↦ active_one x rows row on (sym (answered x true on) ∙ q)
  | inr off ↦ active_none x rows row off (sym (answered x false off) ∙ q)
]

insert_law :
    (row : Row Number Column) (d : Table)
    → ((e : Error) × (d' : Table) × (insert_row row d ≡ (some e, d')))
      ⊎ ((d' : Table) × (insert_row row d ≡ (none, d'))
          × (find row.id d ≡ none)
          × ((j : ℕ) → find j d' ≡ (if eqb row.id j then some (stored columns row) else find j d)))
unfolding stored
insert_law row none = inr (some (stored columns row), refl, refl, λ j. refl)
insert_law row (some old) = inl (errorf "no room", some old, refl)

pub pool-IsTable : IsTable pool columns find
pool-IsTable = record { by_id = λ id d. inl refl; active = active_law; insert = insert_law }
