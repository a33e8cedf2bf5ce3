-- ===== src/Logger/Tracing.antt =====
-- The trace that a log line carries.
use mathlib.Core.List.{append-nil}
use ctse_mood_rule_service.Common.{
  Bool, String, Option, none, some, List, [], ◌∷◌, ◌++◌, ◌≡◌, refl, ap, ◌∙◌, ◌==◌, if◌then◌else◌,
  Error, Result, ok, err, Bool-cases, inl, inr, ◌⊎◌,
}
use ctse_mood_rule_service.Logger.{
  text, Contexts, ContextLaws, trace_id_key, with_trace_id, from_context, as_text, Zap, Level,
  Written, panicked, written, init, built, config_of, log_at, traced, write_to,
}

-- What a start and a line after it give.
abbrev pub Logs :
    {L E : Type 0} → Option L × Option Error → (Option L → Written L E) → (L → Written L E) → Type 0
Logs {L} (log, error) line expected =
    ((error ≡ none) × ((l : L) × (log ≡ some l) × (line log ≡ expected l)))
    ⊎ ((e : Error) × (error ≡ some e) × (log ≡ none) × (line log ≡ panicked))

module _ {G L E : Type 0} (zap : Zap G L E) where
  -- The fields that go with a message, after the caller's own.
  abbrev pub trace_fields : String → List E
  trace_fields trace_id = if trace_id == "" then [] else zap.string_field "trace_id" trace_id ∷ []

  traced-trace_fields :
      (trace_id : String) (fields : List E)
      → traced zap trace_id fields ≡ fields ++ trace_fields trace_id
  unfolding traced
  traced-trace_fields trace_id fields = elim (Bool-cases (trace_id == "")) [
    | inl e ↦ rw (e, append-nil) refl
    | inr e ↦ rw e refl
  ]

  built-Logs :
      (answer : Result L) (level : Level) (msg : String) (fields expected : List E)
      → fields ≡ expected
      → Logs
          (built zap answer)
          (λ log. write_to zap log level msg fields)
          (λ l. written l level msg expected)
  unfolding built write_to
  built-Logs (ok log) level msg fields expected e =
      inl (refl, (log, refl, ap (written log level msg) e))
  built-Logs (err x) level msg fields expected e = inr (x, refl, refl, refl)

module _ {C A G L E : Type 0} (cs : Contexts C A) (laws : ContextLaws cs) (zap : Zap G L E) where
  from_context-with_trace_id :
      (ctx : C) (trace_id : String) → from_context cs (with_trace_id cs ctx trace_id) ≡ trace_id
  unfolding from_context with_trace_id as_text
  from_context-with_trace_id ctx trace_id = ap as_text (laws.here ctx trace_id_key (text trace_id))

  -- A start of the logger without an error leaves a logger, at which a line of any level, logged with a
  -- context that a trace was given to, has the caller's fields and after them this trace, and no other,
  -- whatever the context carried before; an empty trace adds none. A start with an error leaves no
  -- logger, and then any line panics.
  pub init-log_at :
      (development : Bool) (ctx : C) (trace_id : String) (level : Level) (msg : String)
      (fields : List E)
      → Logs
          (init zap development)
          (λ log. log_at zap cs log level (with_trace_id cs ctx trace_id) msg fields)
          (λ l. written l level msg (fields ++ trace_fields zap trace_id))
  unfolding init log_at
  init-log_at development ctx trace_id level msg fields =
      built-Logs zap (zap.build 1 (config_of zap development)) level msg
        (traced zap (from_context cs (with_trace_id cs ctx trace_id)) fields)
        (fields ++ trace_fields zap trace_id)
        (ap (λ x. traced zap x fields) (from_context-with_trace_id ctx trace_id)
          ∙ traced-trace_fields zap trace_id fields)
