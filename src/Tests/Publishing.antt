-- ===== src/Tests/Publishing.antt =====
-- The event bus with one handler that fails and one that does not.
use mathlib.Core.List.{Perm}
use mathlib.Core.List.Perm
use ctse_mood_rule_service.Common.{
  ◌≤◌, String, ◌≡◌, refl, ◌⊎◌, none, some, List, [], ◌∷◌, arith, insert, lookup, errorf,
}
use ctse_mood_rule_service.Common.Int.{pos}
use ctse_mood_rule_service.EventBus.{
  Event, Handler, EventBus, new_event_bus, handlers_of, subscribe, Running, add_error, collect,
  Step, handle, send, Steps, stop, step, spawn, err_capacity, PublishSync, published,
}
use ctse_mood_rule_service.EventBus.Subscriptions.{add, drop, run, live, handlers_after_run}
use ctse_mood_rule_service.EventBus.Publishing.{
  failures, reported, step_count, publish_sync-perm, PublishSync-ends,
}

abbrev broken : Handler String
broken event = some (errorf event.payload)

abbrev fine : Handler String
fine event = none

abbrev bus : EventBus String
bus = subscribe "mood_changed" fine (subscribe "mood_changed" broken (new_event_bus (pos 0)))

abbrev changed : Event String
changed = record { event_type = "mood_changed"; payload = "no cache" }

abbrev handlers : List (Handler String)
handlers = broken ∷ fine ∷ []

bus_unfolded : Unit {0}
unfolding handlers_of subscribe new_event_bus insert lookup spawn add_error collect err_capacity
bus_unfolded = tt

abbrev at_end : Running String
at_end = record { waiting = []; sending = []; err_chan = errorf "no cache" ∷ [] }

-- the second goroutine runs first
steps : Steps changed 2 (spawn handlers) at_end
unfolding bus_unfolded
steps = step _ _ _ (handle fine (broken ∷ []) _ (Perm.swap fine broken [])) (
    step _ _ _ (handle broken [] _ Perm.rfl)
      (step _ _ _ (send (errorf "no cache") [] _ Perm.rfl refl) (stop _)))

answered : PublishSync bus changed (some (errorf "no cache" ∷ []))
unfolding bus_unfolded
answered = published at_end (omega arith) steps (record { waiting = refl; sending = refl })

publish_sync-perm_example :
    Perm
      (reported (some (errorf "no cache" ∷ [])))
      (failures changed (handlers_of changed.event_type bus))
publish_sync-perm_example = publish_sync-perm changed bus (some (errorf "no cache" ∷ [])) answered

PublishSync-ends_example :
    (PublishSync bus changed (some (errorf "no cache" ∷ []))
      ⊎ ((g' : Running String) × Step changed 2 at_end g'))
    × (step_count changed 2 steps ≤ 4)
unfolding bus_unfolded
PublishSync-ends_example = PublishSync-ends changed bus at_end steps (omega arith)

handlers_after_run_example :
    handlers_of "mood_changed" (
      run
        (add "mood_changed" broken ∷ drop "mood_changed" ∷ add "mood_changed" fine ∷ [])
        (new_event_bus (pos 0)))
    ≡ live "mood_changed"
        (add "mood_changed" broken ∷ drop "mood_changed" ∷ add "mood_changed" fine ∷ [])
handlers_after_run_example =
    handlers_after_run (pos 0)
      (add "mood_changed" broken ∷ drop "mood_changed" ∷ add "mood_changed" fine ∷ [])
      "mood_changed"
