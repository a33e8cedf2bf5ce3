-- ===== src/EventBus/Publishing.antt =====
-- `PublishSync` under every interleaving of its goroutines.
use mathlib.Core.List.{Perm, filter_map, append_assoc, append-nil, perm_middle}
use mathlib.Core.List.Perm
use ctse_mood_rule_service.Common.{
  ℕ, ◌+◌, ◌≤◌, ◌<◌, suc, ◌≡◌, refl, Option, none, some, List, [], ◌∷◌, ◌++◌, ◌*◌, ◌⊎◌, ap,
  Option-cases, inl, inr, arith, length, length-perm, length-append, Error,
}
use ctse_mood_rule_service.EventBus.{
  Event, Handler, Running, add_error, collect, Step, handle, send, Steps, stop, step, spawn,
  err_capacity, IsDone, EventBus, handlers_of, PublishSync, no_subscribers, published,
}

-- The errors of the handlers, one after the other.
abbrev pub failures : {P : Type 0} → Event P → List (Handler P) → List Error
failures event [] = []
failures event (h ∷ hs) = add_error (h event) (failures event hs)

-- the errors that an answer reports
abbrev pub reported : Option (List Error) → List Error
reported none = []
reported (some errors) = errors

reported-collect : (errors : List Error) → reported (collect errors) ≡ errors
unfolding collect
reported-collect [] = refl
reported-collect (e ∷ errors) = refl

module _ {P : Type 0} (event : Event P) (capacity : ℕ) where
  -- All errors of a moment: in the channel, to be sent, and still to come.
  abbrev errors : Running P → List Error
  errors g = g.err_chan ++ (g.sending ++ failures event g.waiting)

  failures-filter_map : (hs : List (Handler P)) → failures event hs ≡ filter_map (λ h. h event) hs
  unfolding add_error filter_map
  failures-filter_map [] = refl
  failures-filter_map (h ∷ hs) = elim (Option-cases (h event)) [
    | inl e ↦ rw (e, add_error, filter_map, failures-filter_map hs) refl
    | inr (x, e) ↦ rw (e, add_error, filter_map, failures-filter_map hs) refl
  ]

  failures-perm :
      {hs ks : List (Handler P)} → Perm hs ks → Perm (failures event hs) (failures event ks)
  failures-perm {hs} {ks} p =
      rw (failures-filter_map hs, failures-filter_map ks) (Perm.filter_map (λ h. h event) p)

  add_error-perm :
      (o : Option Error) (xs ys : List Error) → Perm (add_error o xs ++ ys) (xs ++ add_error o ys)
  unfolding add_error
  add_error-perm none xs ys = Perm.rfl
  add_error-perm (some e) xs ys = Perm.symm (perm_middle xs ys)

  -- No step loses an error or makes one up.
  step-errors : (g g' : Running P) → Step event capacity g g' → Perm (errors g') (errors g)
  step-errors g _ (handle h rest _ p) = Perm.append_left g.err_chan (
      Perm.trans (add_error-perm (h event) g.sending (failures event rest))
        (Perm.append_left g.sending (Perm.symm (failures-perm p))))
  step-errors g _ (send e rest _ p room) =
      rw (append_assoc g.err_chan (e ∷ []) (rest ++ failures event g.waiting))
        (Perm.append_left g.err_chan (Perm.append_right (failures event g.waiting) (Perm.symm p)))

  steps-errors : (g g' : Running P) → Steps event capacity g g' → Perm (errors g') (errors g)
  steps-errors g _ (stop _) = Perm.rfl
  steps-errors g g' (step _ h _ s more) = Perm.trans (steps-errors h g' more) (step-errors g h s)

  err_chan-perm :
      (handlers : List (Handler P)) (g : Running P)
      → Steps event capacity (spawn handlers) g
      → IsDone g
      → Perm g.err_chan (failures event handlers)
  unfolding spawn
  err_chan-perm handlers g steps done =
      rw (done.waiting, done.sending, append-nil g.err_chan) at
        (steps-errors (spawn handlers) g steps)

  -- The channel has room for every error that is still to come.
  abbrev HasRoom : Running P → Type 0
  HasRoom g = length g.err_chan + (length g.sending + length g.waiting) ≤ capacity

  length-add_error :
      (o : Option Error) (xs : List Error) → length (add_error o xs) ≤ suc (length xs)
  unfolding add_error
  length-add_error none xs = omega arith
  length-add_error (some e) xs = omega arith

  step-HasRoom : (g g' : Running P) → Step event capacity g g' → HasRoom g → HasRoom g'
  step-HasRoom g _ (handle h rest _ p) room =
      omega (arith, length-perm p, length-add_error (h event) g.sending)
  step-HasRoom g _ (send e rest _ p free) room =
      omega (arith, length-perm p, length-append g.err_chan (e ∷ []))

  steps-HasRoom : (g g' : Running P) → Steps event capacity g g' → HasRoom g → HasRoom g'
  steps-HasRoom g _ (stop _) room = room
  steps-HasRoom g g' (step _ h _ s more) room = steps-HasRoom h g' more (step-HasRoom g h s room)

  perm_of_eq : {A : Type 0} {xs ys : List A} → xs ≡ ys → Perm xs ys
  perm_of_eq e = rw e Perm.rfl

  next_step :
      (g : Running P) (waiting : List (Handler P)) (sending : List Error)
      → g.waiting ≡ waiting
      → g.sending ≡ sending
      → HasRoom g
      → IsDone g ⊎ ((g' : Running P) × Step event capacity g g')
  next_step g (h ∷ rest) sending w s room = inr (_, handle h rest g (perm_of_eq w))
  next_step g [] (e ∷ rest) w s room =
      inr (_, send e rest g (perm_of_eq s) (ground (arith, ap length s)))
  next_step g [] [] w s room = inl (record { waiting = w; sending = s })

  -- What is left to do gets less with every step.
  abbrev work : Running P → ℕ
  work g = length g.sending + 2 * length g.waiting

  step-work : (g g' : Running P) → Step event capacity g g' → work g' < work g
  step-work g _ (handle h rest _ p) =
      omega (arith, length-perm p, length-add_error (h event) g.sending)
  step-work g _ (send e rest _ p free) = omega (arith, length-perm p)

  abbrev pub step_count : {g g' : Running P} → Steps event capacity g g' → ℕ
  step_count (stop _) = 0
  step_count (step _ _ _ s more) = suc (step_count more)

  steps-work : (g g' : Running P) (s : Steps event capacity g g') → step_count s + work g' ≤ work g
  steps-work g _ (stop _) = omega arith
  steps-work g g' (step _ h _ s more) = omega (arith, steps-work h g' more, step-work g h s)

module _ {P : Type 0} (event : Event P) where
  -- For an event type with a handler, if all its handlers return, `PublishSync` always comes to an answer: in every state that its
  -- goroutines reach, either all are done, and what the channel holds then is an answer of it, or one of
  -- them has a step, so that none waits for ever for room in the channel; and there are at most two steps
  -- per handler.
  pub PublishSync-ends :
      (eb : EventBus P) (g : Running P)
      (s : Steps event
        (err_capacity (handlers_of event.event_type eb))
        (spawn (handlers_of event.event_type eb))
        g)
      → 0 < length (handlers_of event.event_type eb)
      → (PublishSync eb event (collect g.err_chan)
          ⊎ ((g' : Running P) × Step event (err_capacity (handlers_of event.event_type eb)) g g'))
        × (step_count event (err_capacity (handlers_of event.event_type eb)) s
            ≤ 2 * length (handlers_of event.event_type eb))
  unfolding spawn err_capacity
  PublishSync-ends eb g s some_handlers =
      let handlers = handlers_of event.event_type eb in
      let n = length handlers in
      (
        elim (next_step event n g g.waiting g.sending refl refl
            (steps-HasRoom event n (spawn handlers) g s (omega arith))) [
              | inl done ↦ inl (published g some_handlers s done)
              | inr moving ↦ inr moving
            ],
        omega (arith, steps-work event n (spawn handlers) g s),
      )

  -- However the goroutines interleave, `PublishSync` answers with exactly the errors of the
  -- handlers that the event type has, each as often as a handler answers it, in some order.
  pub publish_sync-perm :
      (eb : EventBus P) (answer : Option (List Error))
      → PublishSync eb event answer
      → Perm (reported answer) (failures event (handlers_of event.event_type eb))
  publish_sync-perm eb _ (no_subscribers e) = rw e Perm.rfl
  publish_sync-perm eb _ (published g some_handlers steps done) = rw (reported-collect g.err_chan) (
      err_chan-perm event (err_capacity (handlers_of event.event_type eb))
        (handlers_of event.event_type eb) g steps done)
