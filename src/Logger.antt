-- ===== src/Logger.antt =====
-- pkg/logger/logger.go: the global logger, and the trace that a context carries to every line. The
-- contexts of Go and the loggers of zap are parameters.
pub mod Tracing
use ctse_mood_rule_service.Common.{
  ℕ, Bool, String, Option, none, some, List, [], ◌∷◌, ◌++◌, ◌≡◌, ◌≢◌, ◌==◌, if◌then◌else◌, Error,
  Result, ok, err,
}

-- `contextKey`: the keys of this package's own type, and those of others, which are never equal to one.
pub data Key : Type 0 where
  context_key : String → Key
  other_key : String → Key

-- A value of type `any`: a string, or something else.
pub data AnyValue (A : Type 0) : Type 0 where
  text : String → AnyValue A
  other_value : A → AnyValue A

-- `context.Context`: `WithValue` and `Value`.
pub record Contexts (C A : Type 0) : Type 0 where
  pub background : C
  pub with_value : C → Key → AnyValue A → C
  pub value : C → Key → Option (AnyValue A)

-- What is documented of them.
pub record ContextLaws {C A : Type 0} (cs : Contexts C A) : Type 0 where
  pub here : (c : C) (k : Key) (v : AnyValue A) → cs.value (cs.with_value c k v) k ≡ some v
  pub elsewhere :
      (c : C) (k j : Key) (v : AnyValue A) → j ≢ k → cs.value (cs.with_value c k v) j ≡ cs.value c j
  pub nowhere : (k : Key) → cs.value cs.background k ≡ none

abbrev pub trace_id_key : Key
trace_id_key = context_key "trace_id"

-- `traceID, ok := … .(string)`
pub as_text : {A : Type 0} → Option (AnyValue A) → String
as_text none = ""
as_text (some (text trace_id)) = trace_id
as_text (some (other_value v)) = ""

module _ {C A : Type 0} (cs : Contexts C A) where
  -- `WithTraceID`
  unfoldable pub with_trace_id : C → String → C
  with_trace_id ctx trace_id = cs.with_value ctx trace_id_key (text trace_id)

  -- `FromContext`
  unfoldable pub from_context : C → String
  unfolding as_text
  from_context ctx = as_text (cs.value ctx trace_id_key)

pub data Level : Type 0 where
  debug : Level
  info : Level
  warn : Level
  error : Level
  fatal : Level

-- zap: `G` is its configuration, `L` a logger, `E` a field.
pub record Zap (G L E : Type 0) : Type 0 where
  pub new_development_config : G
  pub new_production_config : G
  pub with_capital_color_level_encoder : G → G
  pub with_time_key : String → G → G
  pub with_iso8601_time_encoder : G → G
  -- `Build(zap.AddCallerSkip(n))`
  pub build : ℕ → G → Result L
  pub string_field : String → String → E
  pub sync : L → Option Error

-- What a call of the package does to the logger: it reads a nil pointer, or one of the logger's methods is
-- called with a message and fields.
pub data Written (L E : Type 0) : Type 0 where
  panicked : Written L E
  written : L → Level → String → List E → Written L E

module _ {G L E : Type 0} (zap : Zap G L E) where
  -- `if development { … } else { … }`
  pub config_of : Bool → G
  config_of development =
      if development
      then zap.with_capital_color_level_encoder zap.new_development_config
      else zap.with_iso8601_time_encoder (zap.with_time_key "timestamp" zap.new_production_config)

  pub built : Result L → Option L × Option Error
  built (ok log) = (some log, none)
  built (err e) = (none, some e)

  -- `Init`: the global logger afterwards, and the error.
  unfoldable pub init : Bool → Option L × Option Error
  unfolding config_of built
  init development = built (zap.build 1 (config_of development))

  -- `if traceID := FromContext(ctx); traceID != "" { … }`
  pub traced : String → List E → List E
  traced trace_id fields =
      if trace_id == "" then fields else fields ++ zap.string_field "trace_id" trace_id ∷ []

  -- `log.Debug` and the others, on the global logger.
  pub write_to : Option L → Level → String → List E → Written L E
  write_to none level msg fields = panicked
  write_to (some log) level msg fields = written log level msg fields

  -- `Debug`, `Info`, `Warn`, `Error` and `Fatal`, which differ in the level only.
  unfoldable pub log_at :
      {C A : Type 0} → Contexts C A → Option L → Level → C → String → List E → Written L E
  unfolding traced write_to from_context
  log_at cs log level ctx msg fields = write_to log level msg (traced (from_context cs ctx) fields)

  -- `Sync`
  unfoldable pub sync : Option L → Option Error
  sync none = none
  sync (some log) = zap.sync log
