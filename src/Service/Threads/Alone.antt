-- ===== src/Service/Threads/Alone.antt =====
-- An attempt of the handler of rule updates that no other thread comes between.
use ctse_mood_rule_service.Common.{◌≡◌, refl, Result-cases, inl, inr}
use ctse_mood_rule_service.Engine.{RuleStore, reload}
use ctse_mood_rule_service.EventBus.{EventBus}
use ctse_mood_rule_service.MoodHandler.{Payload}
use ctse_mood_rule_service.Server.{Server}
use ctse_mood_rule_service.Service.{after_reload, on_rule_updated}
use ctse_mood_rule_service.Service.Threads.{
  published, updated, got_rules, got_version, install, invalidate, run_update,
}

-- The steps of an attempt of the handler, with no other thread between them and the database as it is,
-- do what the handler does as a whole: they return its answer, and leave the engine and the cache as it
-- does.
pub run_update-on_rule_updated :
    {F B P : Type 0} (store : RuleStore F) (bus : EventBus Payload) (s : Server F B P)
    → let u = on_rule_updated store bus s.engine s.cache in
      run_update 4 store published s
      ≡ (updated u.answer, record s { engine = u.engine; cache = u.cache })
unfolding run_update got_rules got_version install invalidate on_rule_updated after_reload reload
run_update-on_rule_updated store bus s = elim (Result-cases store.get_all_active_rules) [
  | inr (x, p) ↦ rw (p, reload) refl
  | inl (rules, p) ↦ elim (Result-cases store.get_max_version) [
    | inr (x, q) ↦ rw (p, q, reload) refl
    | inl (version, q) ↦ rw (p, q, reload) refl
  ]
]
