-- ===== src/Service/Http/Routes.antt =====
-- Which handler answers which path.
use Prim.Native.String.{len}
use ctse_mood_rule_service.Common.{
  String, Bool, true, false, Option, none, some, lookup, ◌≡◌, refl, sym, ap, ◌≤◌, ◌∙◌, inl, inr,
  ◌==◌, eq_iff, ◌||◌, if◌then◌else◌, Bool-cases, Option-cases, arith,
}
use ctse_mood_rule_service.Clients.{Clock}
use ctse_mood_rule_service.MoodHandler.{MoodHandler, Http}
use ctse_mood_rule_service.Config.{ServerConfig}
use ctse_mood_rule_service.Service.Http.{
  HandlerFunc, healthz, metrics_handler, update_handler, swagger_json, docs, routes, ServeMux,
  stands_for, is_clean, IsMux, http_server,
}

module _ {F W B : Type 0} (http : Http B W) (clock : Clock W) (h : MoodHandler F W) where
  -- What is called for a path, from the longest pattern on.
  abbrev pub handler_of : String → Option (HandlerFunc W)
  handler_of path =
      if "/docs/swagger.json" == path
      then some swagger_json
      else if "/mood/update" == path
      then some (update_handler http clock h)
      else if "/healthz" == path
      then some healthz
      else if "/metrics" == path
      then some metrics_handler
      else if stands_for "/docs/" path
      then some docs
      else none

  is_left : (b : Bool) → (b || false) ≡ true → b ≡ true
  is_left true e = refl
  is_left false e = e

  isnt_left : (b : Bool) → (b || false) ≡ false → b ≡ false
  isnt_left true e = e
  isnt_left false e = refl

  -- The pattern is this text.
  stands_at :
      (literal pattern path : String)
      → (literal == pattern) ≡ true
      → stands_for pattern path ≡ true
      → stands_for literal path ≡ true
  stands_at literal pattern path e s = rw ((eq_iff literal pattern).0 e) s

  -- A path below `/docs/` that has no pattern of its own.
  docs_below :
      (path : String)
      → stands_for "/docs/" path ≡ true
      → ("/docs/swagger.json" == path) ≡ false
      → handler_of path ≡ some docs
  unfolding stands_for
  docs_below path s own = elim (Bool-cases ("/mood/update" == path)) [
    | inl e ↦ absurd (let t = rw (← ((eq_iff "/mood/update" path).0 e)) at s in cc)
    | inr not_update ↦ elim (Bool-cases ("/healthz" == path)) [
      | inl e ↦ absurd (let t = rw (← ((eq_iff "/healthz" path).0 e)) at s in cc)
      | inr not_health ↦ elim (Bool-cases ("/metrics" == path)) [
        | inl e ↦ absurd (let t = rw (← ((eq_iff "/metrics" path).0 e)) at s in cc)
        | inr not_metrics ↦ rw (own, not_update, not_health, not_metrics, s) refl
      ]
    ]
  ]

  -- A pattern that stands for one path only, and is chosen for `path`.
  exactly :
      (literal path : String) (target handler : HandlerFunc W)
      → some target ≡ some handler
      → handler_of literal ≡ some target
      → literal ≡ path
      → some handler ≡ handler_of path
  exactly literal path target handler found here same = sym found ∙ (sym here ∙ ap handler_of same)

  swagger_found : lookup "/docs/swagger.json" (routes http clock h) ≡ some swagger_json
  unfolding lookup routes
  swagger_found = refl

  swagger_below :
      (path : String) → "/docs/swagger.json" ≡ path → stands_for "/docs/swagger.json" path ≡ true
  unfolding stands_for
  swagger_below path same = rw (← same) refl

  docs_longest :
      (pattern path : String)
      → ("/docs/" == pattern) ≡ true
      → (stands_for "/docs/swagger.json" path ≡ true → len "/docs/swagger.json" ≤ len pattern)
      → ("/docs/swagger.json" == path) ≡ false
  docs_longest pattern path e longest = elim (Bool-cases ("/docs/swagger.json" == path)) [
    | inl own ↦
        let l = longest (swagger_below path ((eq_iff "/docs/swagger.json" path).0 own)) in
        absurd (let m = rw (← ((eq_iff "/docs/" pattern).0 e)) at l in omega (arith, m))
    | inr own ↦ own
  ]

  chosen_handler :
      (pattern path : String) (handler : HandlerFunc W)
      → lookup pattern (routes http clock h) ≡ some handler
      → stands_for pattern path ≡ true
      → ((other : String) (theirs : HandlerFunc W)
          → lookup other (routes http clock h) ≡ some theirs
          → stands_for other path ≡ true
          → len other ≤ len pattern)
      → some handler ≡ handler_of path
  unfolding lookup routes stands_for
  chosen_handler pattern path handler found s longest = elim (Bool-cases ("/healthz" == pattern)) [
    | inl e ↦ exactly "/healthz" path healthz handler (rw e at found) refl (
        (eq_iff "/healthz" path).0
          (is_left ("/healthz" == path) (stands_at "/healthz" pattern path e s)))
    | inr a ↦ elim (Bool-cases ("/metrics" == pattern)) [
      | inl e ↦ exactly "/metrics" path metrics_handler handler (rw (a, e) at found) refl (
          (eq_iff "/metrics" path).0
            (is_left ("/metrics" == path) (stands_at "/metrics" pattern path e s)))
      | inr b ↦ elim (Bool-cases ("/mood/update" == pattern)) [
        | inl e ↦
            exactly "/mood/update" path (update_handler http clock h) handler
              (rw (a, b, e) at found) refl
              ((eq_iff "/mood/update" path).0
                (is_left ("/mood/update" == path) (stands_at "/mood/update" pattern path e s)))
        | inr c ↦ elim (Bool-cases ("/docs/swagger.json" == pattern)) [
          | inl e ↦
              exactly "/docs/swagger.json" path swagger_json handler (rw (a, b, c, e) at found) refl
                ((eq_iff "/docs/swagger.json" path).0 (
                  is_left ("/docs/swagger.json" == path)
                    (stands_at "/docs/swagger.json" pattern path e s)))
          | inr d ↦ elim (Bool-cases ("/docs/" == pattern)) [
            | inl e ↦
                let f : some docs ≡ some handler = rw (a, b, c, d, e) at found in
                sym f
                ∙ sym (
                    docs_below path (stands_at "/docs/" pattern path e s) (
                      docs_longest pattern path e
                        (longest "/docs/swagger.json" swagger_json swagger_found)))
            | inr e ↦ absurd (let f = rw (a, b, c, d, e) at found in cc)
          ]
        ]
      ]
    ]
  ]

  no_handler :
      (path : String)
      → stands_for "/docs/swagger.json" path ≡ false
      → stands_for "/mood/update" path ≡ false
      → stands_for "/healthz" path ≡ false
      → stands_for "/metrics" path ≡ false
      → stands_for "/docs/" path ≡ false
      → handler_of path ≡ none
  unfolding stands_for
  no_handler path a b c d e =
      rw
        (
          isnt_left ("/docs/swagger.json" == path) a,
          isnt_left ("/mood/update" == path) b,
          isnt_left ("/healthz" == path) c,
          isnt_left ("/metrics" == path) d,
          e,
        )
        refl

  -- If the multiplexer does what is documented of it, then for every path in which nothing is escaped,
  -- and a method other than CONNECT, the server calls the handler of the route that is this path; or, for
  -- another path below `/docs/` that is clean, the handler of the page; and none for any other path. A path
  -- that is not clean has an empty segment before its last or a segment "." or "..", or does not begin
  -- with a slash.
  pub http_server-handler_of :
      (mux : ServeMux (HandlerFunc W)) (cfg : ServerConfig) (path : String)
      → IsMux mux
      → (http_server http clock mux cfg h).handler path
        ≡ (if is_clean path then handler_of path else none)
  unfolding http_server lookup routes stands_for
  http_server-handler_of mux cfg path law = elim (Bool-cases (is_clean path)) [
    | inr unclean ↦ rw unclean (law.cleans (routes http clock h) path unclean)
    | inl clean ↦ rw clean (elim (Option-cases (mux (routes http clock h) path)) [
      | inr (handler, e) ↦
          let (pattern, found, s, longest) = law.chosen (routes http clock h) path handler e in
          e ∙ chosen_handler pattern path handler found s longest
      | inl e ↦
          let not =
            λ (literal : String) (handler : HandlerFunc W)
                (there : lookup literal (routes http clock h) ≡ some handler).
              law.not_chosen (routes http clock h) path literal handler clean e there in
          e
          ∙ sym (
              no_handler path (not "/docs/swagger.json" swagger_json refl)
                (not "/mood/update" (update_handler http clock h) refl)
                (not "/healthz" healthz refl) (not "/metrics" metrics_handler refl)
                (not "/docs/" docs refl))
    ])
  ]
