-- ===== src/EventBus/Subscriptions.antt =====
-- Which handlers an event reaches after any sequence of calls of the bus.
use mathlib.Core.List.{append_assoc, append-nil}
use ctse_mood_rule_service.Common.{
  String, Bool, true, false, ◌≡◌, refl, sym, List, [], ◌∷◌, ◌++◌, arith, any, ◌==◌, eq_iff,
  if◌then◌else◌, Bool-cases, inl, inr, lookup, lookup-insert, lookup-delete,
}
use ctse_mood_rule_service.Common.Int.{ℤ}
use ctse_mood_rule_service.EventBus.{
  Handler, EventBus, new_event_bus, or_no_handlers, handlers_of, subscribe, unsubscribe, clear,
}

-- A call that changes the map of subscribers.
pub data Operation (P : Type 0) : Type 0 where
  add : String → Handler P → Operation P
  drop : String → Operation P
  drop_all : Operation P

module _ {P : Type 0} where
  unfoldable pub apply : Operation P → EventBus P → EventBus P
  apply (add event_type handler) eb = subscribe event_type handler eb
  apply (drop event_type) eb = unsubscribe event_type eb
  apply drop_all eb = clear eb

  unfoldable pub run : List (Operation P) → EventBus P → EventBus P
  run [] eb = eb
  run (o ∷ os) eb = run os (apply o eb)

  abbrev drops : String → Operation P → Bool
  drops event_type (add _ _) = false
  drops event_type (drop other) = other == event_type
  drops event_type drop_all = true

  abbrev adds : String → Operation P → List (Handler P)
  adds event_type (add other handler) = if other == event_type then handler ∷ [] else []
  adds event_type _ = []

  -- The handlers that were added and not dropped since, in the order of the calls.
  abbrev pub live : String → List (Operation P) → List (Handler P)
  live event_type [] = []
  live event_type (o ∷ os) =
      (if any (drops event_type) os then [] else adds event_type o) ++ live event_type os

  adds_of_drops : (t : String) (o : Operation P) → drops t o ≡ true → adds t o ≡ []
  adds_of_drops t (add other h) d = absurd (cc)
  adds_of_drops t (drop other) d = refl
  adds_of_drops t drop_all d = refl

  handlers-apply :
      (event_type : String) (o : Operation P) (eb : EventBus P)
      → handlers_of event_type (apply o eb)
        ≡ (if drops event_type o then [] else handlers_of event_type eb ++ adds event_type o)
  unfolding handlers_of apply subscribe unsubscribe clear or_no_handlers lookup
  handlers-apply t (add other h) eb = ground (
    arith,
    lookup-insert other t (handlers_of other eb ++ h ∷ []) eb.subscribers,
    eq_iff other t,
    append-nil (or_no_handlers (lookup t eb.subscribers)),
  )
  handlers-apply t (drop other) eb = ground (
    arith,
    lookup-delete other t eb.subscribers,
    append-nil (or_no_handlers (lookup t eb.subscribers)),
  )
  handlers-apply t drop_all eb = refl

  handlers-run :
      (t : String) (os : List (Operation P)) (eb : EventBus P)
      → handlers_of t (run os eb) ≡ (if any (drops t) os then [] else handlers_of t eb) ++ live t os
  unfolding run
  handlers-run t [] eb = sym (append-nil (handlers_of t eb))
  handlers-run t (o ∷ os) eb =
      let later = handlers-run t os (apply o eb) in
      let here = handlers-apply t o eb in
      elim (Bool-cases (any (drops t) os)) [
        | inl gone ↦ ground (arith, gone)
        | inr kept ↦ elim (Bool-cases (drops t o)) [
          | inl now ↦ ground (arith, adds_of_drops t o now)
          | inr not_now ↦ ground (arith, append_assoc (handlers_of t eb) (adds t o) (live t os))
        ]
      ]

  -- Whatever `Subscribe`, `Unsubscribe` and `Clear` a new bus has seen: an event type has the handlers
  -- that were subscribed to it and not removed since, in the order of the subscriptions.
  pub handlers_after_run :
      (buffer_size : ℤ) (ops : List (Operation P)) (event_type : String)
      → handlers_of event_type (run ops (new_event_bus buffer_size)) ≡ live event_type ops
  unfolding handlers_of new_event_bus or_no_handlers lookup
  handlers_after_run buffer_size ops event_type = elim (Bool-cases (any (drops event_type) ops)) [
    | inl e ↦ ground (arith, handlers-run event_type ops (new_event_bus buffer_size))
    | inr e ↦ ground (arith, handlers-run event_type ops (new_event_bus buffer_size))
  ]
