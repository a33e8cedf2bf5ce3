-- ===== src/Service/Shutdown.antt =====
-- The end of `main` in cmd/server/main.go, after a signal: what it stops and closes, in this order. A
-- call that fails is logged, and the next one is made all the same.
use ctse_mood_rule_service.Common.{
  ℕ, ◌+◌, Bool, true, false, ◌≡◌, refl, List, [], ◌∷◌, ◌++◌, if◌then◌else◌, Result, ok, err,
  Result-cases, inl, inr,
}
use ctse_mood_rule_service.Service.{Running}

pub data Stop : Type 0 where
  -- `GracefulStop` of the gRPC server, which waits for the calls that run
  stop_grpc : Stop
  -- `Shutdown` of the HTTP server, with its deadline
  stop_http : ℕ → Stop
  cancel_timeout : Stop
  close_product_client : Stop
  close_auth_client : Stop
  close_cache : Stop
  close_pool : Stop
  sync_logger : Stop

-- What `main` defers if there is no error.
pub deferred_if : {A : Type 0} → Result A → Stop → List Stop
deferred_if (ok c) stop = stop ∷ []
deferred_if (err e) stop = []

pub reversed : List Stop → List Stop
reversed [] = []
reversed (stop ∷ stops) = reversed stops ++ stop ∷ []

module _ {F B W : Type 0} (s : Running F B W) where
  -- The deferred calls, in the order of the `defer` statements.
  pub deferred : List Stop
  unfolding deferred_if
  deferred =
      (sync_logger ∷ close_pool ∷ close_cache ∷ [])
      ++ (deferred_if s.auth_client close_auth_client
          ++ (deferred_if s.product_client close_product_client ++ cancel_timeout ∷ []))

  -- From the signal on, which comes at the time `now`: the deadline of 30 seconds runs from before the
  -- gRPC server is asked to stop.
  unfoldable pub shutdown : ℕ → List Stop
  unfolding deferred reversed
  shutdown now = stop_grpc ∷ stop_http (now + 30_000_000_000) ∷ reversed deferred

  abbrev pub is_dialled : {A : Type 0} → Result A → Bool
  is_dialled (ok c) = true
  is_dialled (err e) = false

  -- The servers stop first, and then what was opened is closed, the clients that could be dialled among
  -- it, in the reverse order of the opening; the logger is flushed last.
  pub shutdown_lem :
      (now : ℕ)
      → shutdown now
        ≡ stop_grpc
            ∷ stop_http (now + 30_000_000_000)
            ∷ cancel_timeout
            ∷ (if is_dialled s.product_client then close_product_client ∷ [] else [])
          ++ ((if is_dialled s.auth_client then close_auth_client ∷ [] else [])
              ++ close_cache ∷ close_pool ∷ sync_logger ∷ [])
  unfolding shutdown
  shutdown_lem now = elim (Result-cases s.product_client) [
    | inl (c, e) ↦ elim (Result-cases s.auth_client) [
      | inl (a, f) ↦ rw (e, f) refl
      | inr (x, f) ↦ rw (e, f) refl
    ]
    | inr (x, e) ↦ elim (Result-cases s.auth_client) [
      | inl (a, f) ↦ rw (e, f) refl
      | inr (y, f) ↦ rw (e, f) refl
    ]
  ]
