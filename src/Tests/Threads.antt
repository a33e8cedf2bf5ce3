-- ===== src/Tests/Threads.antt =====
-- Threads of the running service that interleave: a request and two updates of the rules.
use ctse_mood_rule_service.Common.{◌≡◌, refl, IsMap}
use ctse_mood_rule_service.Common.Int.{pos}
use ctse_mood_rule_service.Engine.Index.{IsIndexed}
use ctse_mood_rule_service.EventBus.{new_event_bus}
use ctse_mood_rule_service.Server.Recommend.Stepwise.{arrived}
use ctse_mood_rule_service.Service.{on_rule_updated}
use ctse_mood_rule_service.Service.Threads.{
  published, updated, run_update, idle, recommends, updates, System, put, move, arrives,
  is_published, moves, Reaches, at_start, followed_by,
}
use ctse_mood_rule_service.Service.Threads.Alone.{run_update-on_rule_updated}
use ctse_mood_rule_service.Service.Threads.Sanity.{threads-IsSane}
use ctse_mood_rule_service.Service.Threads.Loading.{FromDatabase, engine-FromDatabase}
use ctse_mood_rule_service.Tests.Data.{Number, number_float, store}
use ctse_mood_rule_service.Tests.Serving.{Answer, call, request, server}

update_alone :
    let u = on_rule_updated store (new_event_bus (pos 100)) server.engine server.cache in
    run_update 4 store published server
    ≡ (updated u.answer, record server { engine = u.engine; cache = u.cache })
update_alone = run_update-on_rule_updated store (new_event_bus (pos 100)) server

abbrev first : System Number Answer
first = record { server = server; database = store; threads = λ i. idle }

abbrev requested : System Number Answer
requested = record first { threads = put 0 (recommends call request arrived) first.threads }

abbrev notified : System Number Answer
notified = record requested { threads = put 1 (updates published) requested.threads }

abbrev two_queries : System Number Answer
two_queries = move 1 (move 1 notified)

abbrev half_way : System Number Answer
half_way = move 0 (move 0 (move 0 two_queries))

abbrev reloaded : System Number Answer
reloaded = move 1 (move 1 half_way)

abbrev last : System Number Answer
last = move 0 (move 0 (move 0 reloaded))

-- The request and the update take turns.
reached : Reaches first last
unfolding put
reached =
    let notified_now =
      followed_by (followed_by at_start (arrives 0 call request refl)) (is_published 1 refl) in
    let queried_now = followed_by (followed_by notified_now (moves 1)) (moves 1) in
    let half = followed_by (followed_by (followed_by queried_now (moves 0)) (moves 0)) (moves 0) in
    let reloaded_now = followed_by (followed_by half (moves 1)) (moves 1) in
    followed_by (followed_by (followed_by reloaded_now (moves 0)) (moves 0)) (moves 0)

threads-IsSane_example :
    IsIndexed last.server.engine
    × IsMap last.server.cache.store
    × (last.server.auth_client ≡ server.auth_client)
    × (last.server.product_client ≡ server.product_client)
threads-IsSane_example = threads-IsSane store (pos 600_000_000_000) first last refl refl reached

-- The moves of the request, after its arrival.
answering : Reaches requested last
unfolding put
answering =
    let notified_now = followed_by at_start (is_published 1 refl) in
    let queried_now = followed_by (followed_by notified_now (moves 1)) (moves 1) in
    let half = followed_by (followed_by (followed_by queried_now (moves 0)) (moves 0)) (moves 0) in
    let reloaded_now = followed_by (followed_by half (moves 1)) (moves 1) in
    followed_by (followed_by (followed_by reloaded_now (moves 0)) (moves 0)) (moves 0)

engine-FromDatabase_example : FromDatabase first last last.server.engine
engine-FromDatabase_example = engine-FromDatabase first last (λ i. refl) reached

-- The way up to the arrival of the request.
arriving : Reaches first requested
arriving = followed_by at_start (arrives 0 call request refl)
