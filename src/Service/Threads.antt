-- ===== src/Service/Threads.antt =====
-- The running service of cmd/server/main.go as threads that interleave: requests, in the steps of
-- Server/Recommend/Stepwise.antt, attempts of the handler of rule updates, in the steps of `Reload` of
-- internal/engine/rule_engine.go and the invalidation after it, changes of the database, and ticks of
-- the cache's clean-up. The handlers of cache invalidations that an update starts only log, and are left
-- out. An attempt of the handler may start at any moment, although no code of the repository publishes
-- rule_updated yet: the relation has more runs than the program, and serves for what no run can do. The
-- auth service and the product catalog are functions that do not change while the threads run.
pub mod Alone
pub mod Sanity
pub mod Loading
pub mod Versions
pub mod Responses
pub mod Fresh
use ctse_mood_rule_service.Common.{
  ℕ, zero, suc, eqb, String, ◌≡◌, Option, none, some, List, Error, wrap, Result, ok, err,
  if◌then◌else◌,
}
use ctse_mood_rule_service.Common.Int.{ℤ}
use ctse_mood_rule_service.Float.{Float64}
use ctse_mood_rule_service.Model.{Rule}
use ctse_mood_rule_service.Engine.{RuleStore, build_index}
use ctse_mood_rule_service.Cache.{invalidate_by_pattern, remove_expired}
use ctse_mood_rule_service.Server.{UserContext, Server}
use ctse_mood_rule_service.Server.Recommend.{GetProductsByFilters, Surroundings}
use ctse_mood_rule_service.Server.Recommend.Stepwise.{Pc, arrived, advance}

-- Where an attempt of the handler of rule updates stands.
pub data UpdatePc (F : Type 0) : Type 0 where
  -- before `GetAllActiveRules`
  published : UpdatePc F
  -- before `GetMaxVersion`
  queried : List (Rule F) → UpdatePc F
  -- before the write of the engine under its lock
  counted : List (Rule F) → ℤ → UpdatePc F
  -- before `InvalidateByPattern`
  installed : UpdatePc F
  -- what the handler returns
  updated : Option Error → UpdatePc F

module _ {F : Type 0} where
  pub got_rules : Result (List (Rule F)) → UpdatePc F
  got_rules (err x) =
      updated (some (wrap "failed to reload rules" (wrap "failed to reload rules" x)))
  got_rules (ok rules) = queried rules

  pub got_version : List (Rule F) → Result ℤ → UpdatePc F
  got_version rules (err x) =
      updated (some (wrap "failed to reload rules" (wrap "failed to get max version" x)))
  got_version rules (ok version) = counted rules version

  pub install : {B P : Type 0} → List (Rule F) → ℤ → Server F B P → Server F B P
  unfolding build_index
  install rules version s = record s {
    engine = build_index (record s.engine { rules = rules; version = version });
  }

  pub invalidate : {B P : Type 0} → Server F B P → Server F B P
  unfolding invalidate_by_pattern
  invalidate s = record s { cache = invalidate_by_pattern "*" s.cache }

  -- One step of an attempt, with what the database answers now.
  unfoldable pub advance_update :
      {B P : Type 0} → RuleStore F → UpdatePc F → Server F B P → UpdatePc F × Server F B P
  unfolding got_rules got_version install invalidate
  advance_update store published s = (got_rules store.get_all_active_rules, s)
  advance_update store (queried rules) s = (got_version rules store.get_max_version, s)
  advance_update store (counted rules version) s = (installed, install rules version s)
  advance_update store installed s = (updated none, invalidate s)
  advance_update store (updated answer) s = (updated answer, s)

  -- So many steps with no other thread between them.
  unfoldable pub run_update :
      {B P : Type 0} → ℕ → RuleStore F → UpdatePc F → Server F B P → UpdatePc F × Server F B P
  unfolding advance_update
  run_update zero store pc s = (pc, s)
  run_update (suc n) store pc s =
      let (pc', s') = advance_update store pc s in run_update n store pc' s'

-- A goroutine: not started, a call of `Recommend`, or an attempt of the handler.
pub data Thread (F B : Type 0) : Type 0 where
  idle : Thread F B
  recommends : Surroundings F B → UserContext → Pc F → Thread F B
  updates : UpdatePc F → Thread F B

-- `database` is what its queries answer at the moment.
pub record System (F B : Type 0) : Type 0 where
  pub server : Server F B (GetProductsByFilters F)
  pub database : RuleStore F
  pub threads : ℕ → Thread F B

-- The family with another value at one index.
unfoldable pub put {ℓ} : {A : Type ℓ} → ℕ → A → (ℕ → A) → ℕ → A
put i a f j = if eqb i j then a else f j

module _ {F B : Type 0} ⦃fl : Float64 F⦄ where
  -- One step of a thread, and what it leaves of the server.
  unfoldable pub advance_thread :
      RuleStore F
      → Thread F B
      → Server F B (GetProductsByFilters F)
      → Thread F B × Server F B (GetProductsByFilters F)
  unfolding advance advance_update
  advance_thread store idle s = (idle, s)
  advance_thread store (recommends env req pc) s =
      let (pc', s') = advance env req pc s in (recommends env req pc', s')
  advance_thread store (updates pc) s =
      let (pc', s') = advance_update store pc s in (updates pc', s')

  abbrev pub move : ℕ → System F B → System F B
  move i s =
      let (thread, server) = advance_thread s.database (s.threads i) s.server in
      record s { server = server; threads = put i thread s.threads }

  -- A step of the service.
  pub data Happens (s : System F B) : System F B → Type 0 where
    arrives :
        (i : ℕ) (env : Surroundings F B) (req : UserContext)
        → s.threads i ≡ idle
        → Happens s (record s { threads = put i (recommends env req arrived) s.threads })
    is_published :
        (i : ℕ)
        → s.threads i ≡ idle
        → Happens s (record s { threads = put i (updates published) s.threads })
    moves : (i : ℕ) → Happens s (move i s)
    changes : (store : RuleStore F) → Happens s (record s { database = store })
    ticks :
        (now : ℕ)
        → Happens s
            (record s { server = record s.server { cache = remove_expired now s.server.cache } })

  pub data Reaches (s : System F B) : System F B → Type 0 where
    at_start : Reaches s s
    followed_by : {t u : System F B} → Reaches s t → Happens t u → Reaches s u
