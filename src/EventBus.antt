-- ===== src/EventBus.antt =====
-- internal/eventbus/eventbus.go: the subscribers of the event types, and the two ways to publish.
-- A payload is a value of `P`. A handler is what its call answers: an error or none; what else it does
-- is not the bus's. Every method reads or writes the map in one locked section. Log lines are left out.
pub mod Subscriptions
pub mod Publishing
use mathlib.Core.List.{Perm}
use ctse_mood_rule_service.Common.{
  ℕ, String, true, ◌≡◌, ◌<◌, Option, none, some, List, [], ◌∷◌, ◌++◌, ltb, if◌then◌else◌, Dict,
  lookup, insert, delete, length, Error,
}
use ctse_mood_rule_service.Common.Int.{ℤ, pos, negsuc}

-- `EventType`, a string
pub record Event (P : Type 0) : Type 0 where
  pub event_type : String
  pub payload : P

abbrev pub Handler : Type 0 → Type 0
Handler P = Event P → Option Error

pub record EventBus (P : Type 0) : Type 0 where
  pub subscribers : Dict (List (Handler P))
  pub buffer_size : ℕ

-- `if bufferSize <= 0 { bufferSize = 100 }`
pub positive_size : ℤ → ℕ
positive_size (pos n) = if ltb 0 n then n else 100
positive_size (negsuc n) = 100

-- `PublishSync` between the start of its goroutines and the end of its wait: those that have not
-- called their handler, those that have an error to send, and what the channel holds.
pub record Running (P : Type 0) : Type 0 where
  pub waiting : List (Handler P)
  pub sending : List Error
  pub err_chan : List Error

unfoldable pub add_error : Option Error → List Error → List Error
add_error none errors = errors
add_error (some e) errors = e ∷ errors

-- The answer of `PublishSync` from what the channel holds at its close: the errors that
-- "event handling errors: %v" prints, or nil.
unfoldable pub collect : List Error → Option (List Error)
collect [] = none
collect (e ∷ errors) = some (e ∷ errors)

module _ {P : Type 0} where
  unfoldable pub new_event_bus : ℤ → EventBus P
  unfolding positive_size
  new_event_bus buffer_size = record { subscribers = []; buffer_size = positive_size buffer_size }

  pub or_no_handlers : Option (List (Handler P)) → List (Handler P)
  or_no_handlers none = []
  or_no_handlers (some hs) = hs

  -- `eb.subscribers[eventType]`
  unfoldable pub handlers_of : String → EventBus P → List (Handler P)
  unfolding or_no_handlers
  handlers_of event_type eb = or_no_handlers (lookup event_type eb.subscribers)

  -- `Subscribe`: an empty slice in place of nil, then the append.
  unfoldable pub subscribe : String → Handler P → EventBus P → EventBus P
  unfolding handlers_of
  subscribe event_type handler eb = record eb {
    subscribers = insert event_type (handlers_of event_type eb ++ handler ∷ []) eb.subscribers;
  }

  unfoldable pub unsubscribe : String → EventBus P → EventBus P
  unsubscribe event_type eb = record eb { subscribers = delete event_type eb.subscribers }

  unfoldable pub subscriber_count : String → EventBus P → ℕ
  unfolding handlers_of
  subscriber_count event_type eb = length (handlers_of event_type eb)

  unfoldable pub clear : EventBus P → EventBus P
  clear eb = record eb { subscribers = [] }

  -- What some goroutine may do next. A send goes through only while the channel has room.
  pub data Step (event : Event P) (capacity : ℕ) : Running P → Running P → Type 0 where
    handle :
        (h : Handler P) (rest : List (Handler P)) (g : Running P)
        → Perm g.waiting (h ∷ rest)
        → Step event capacity g
            (record g { waiting = rest; sending = add_error (h event) g.sending })
    send :
        (e : Error) (rest : List Error) (g : Running P)
        → Perm g.sending (e ∷ rest)
        → ltb (length g.err_chan) capacity ≡ true
        → Step event capacity g (record g { sending = rest; err_chan = g.err_chan ++ e ∷ [] })

  pub data Steps (event : Event P) (capacity : ℕ) : Running P → Running P → Type 0 where
    stop : (g : Running P) → Steps event capacity g g
    step :
        (g g' g'' : Running P)
        → Step event capacity g g'
        → Steps event capacity g' g''
        → Steps event capacity g g''

  -- All goroutines started, none has run.
  unfoldable pub spawn : List (Handler P) → Running P
  spawn handlers = record { waiting = handlers; sending = []; err_chan = [] }

  -- `make(chan error, len(handlers))`
  unfoldable pub err_capacity : List (Handler P) → ℕ
  err_capacity handlers = length handlers

  -- `wg.Wait()` is over.
  pub record IsDone (g : Running P) : Type 0 where
    pub waiting : g.waiting ≡ []
    pub sending : g.sending ≡ []

  -- `Publish`: the handlers whose goroutines it starts, and does not wait for.
  unfoldable pub publish : Event P → EventBus P → List (Handler P)
  publish event eb = handlers_of event.event_type eb

  -- `PublishSync`, by what it may answer: nil at once without handlers, and otherwise what one run of
  -- the goroutines to their end leaves in a channel with room for one error per handler.
  pub data PublishSync (eb : EventBus P) (event : Event P) : Option (List Error) → Type 0 where
    no_subscribers : handlers_of event.event_type eb ≡ [] → PublishSync eb event none
    published :
        (g : Running P)
        → 0 < length (handlers_of event.event_type eb)
        → Steps event
            (err_capacity (handlers_of event.event_type eb))
            (spawn (handlers_of event.event_type eb))
            g
        → IsDone g
        → PublishSync eb event (collect g.err_chan)
