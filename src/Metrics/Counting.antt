-- ===== src/Metrics/Counting.antt =====
-- What `RequestsTotal` counts over a sequence of calls of `Recommend`.
use ctse_mood_rule_service.Common.{
  ℕ, suc, ◌+◌, ◌⊎◌, String, Bool, true, false, ◌≡◌, refl, ◌∙◌, ap, List, [], ◌∷◌, ◌++◌, map, any,
  length, length-append, filter, filter-append, ◌==◌, eq_iff, ◌&&◌, ◌||◌, if◌then◌else◌, arith,
  Bool-cases, inl, inr,
}
use ctse_mood_rule_service.Float.{Float64}
use ctse_mood_rule_service.Server.{
  UserContext, Server, Code, invalid_argument, failed_precondition, internal, unavailable, Reply,
  response, failed, panicked, Event, requests_total, errors_total, cache_hit, cache_miss,
  request_duration, rule_evaluation_duration, rules_matched,
}
use ctse_mood_rule_service.Server.Recommend.{GetProductsByFilters, Surroundings, recommend}
use ctse_mood_rule_service.Server.Recommend.Answers.{
  requests, is_one, code_fits, labels_fit, is_response, recommend_counted,
}
use ctse_mood_rule_service.Metrics.{Change, inc, change_of_event}

-- One of these texts.
abbrev listed : List String → String → Bool
listed statuses status = any (λ s. s == status) statuses

-- The call is `RequestsTotal.WithLabelValues("Recommend", status).Inc()`, for one of these.
abbrev is_request : List String → Change → Bool
is_request statuses (inc c (method ∷ status ∷ [])) =
    (c.name == "mood_rule_requests_total") && ((method == "Recommend") && listed statuses status)
is_request statuses _ = false

-- How often the counter is incremented under one of these.
abbrev pub times_counted : List String → List Change → ℕ
times_counted statuses changes = length (filter (is_request statuses) changes)

abbrev same_code : Code → Code → Bool
same_code invalid_argument invalid_argument = true
same_code failed_precondition failed_precondition = true
same_code internal internal = true
same_code unavailable unavailable = true
same_code a b = false

abbrev pub has_code : {F : Type 0} → Code → Reply F → Bool
has_code code (response r) = false
has_code code (failed status) = same_code code status.code
has_code code panicked = false

times-requests :
    (statuses : List String) (events : List Event)
    → times_counted statuses (map change_of_event events)
      ≡ length (filter (listed statuses) (requests events))
unfolding change_of_event
times-requests statuses [] = refl
times-requests statuses (requests_total status ∷ events) =
    elim (Bool-cases (listed statuses status)) [
      | inl e ↦ rw e (ap suc (times-requests statuses events))
      | inr e ↦ rw e (times-requests statuses events)
    ]
times-requests statuses (errors_total label ∷ events) = times-requests statuses events
times-requests statuses (cache_hit ∷ events) = times-requests statuses events
times-requests statuses (cache_miss ∷ events) = times-requests statuses events
times-requests statuses (request_duration status ms ∷ events) = times-requests statuses events
times-requests statuses (rule_evaluation_duration ms ∷ events) = times-requests statuses events
times-requests statuses (rules_matched n ∷ events) = times-requests statuses events

one_label : (label : String) (ls : List String) → is_one label ls ≡ true → ls ≡ label ∷ []
one_label label [] h = absurd (cc)
one_label label (l ∷ []) h = ap (λ x. x ∷ []) ((eq_iff l label).0 h)
one_label label (l ∷ k ∷ ls) h = absurd (cc)

one_of_two :
    (a b : String) (ls : List String)
    → (is_one a ls || is_one b ls) ≡ true
    → (ls ≡ a ∷ []) ⊎ (ls ≡ b ∷ [])
one_of_two a b ls h = elim (Bool-cases (is_one a ls)) [
  | inl e ↦ inl (one_label a ls e)
  | inr e ↦ inr (one_label b ls (rw e at h))
]

abbrev count : List String → List String → ℕ
count statuses ls = length (filter (listed statuses) ls)

abbrev count_if : Bool → ℕ
count_if b = if b then 1 else 0

-- The label of a call tells what its reply is.
abbrev CodeTally : Code → List String → Type 0
CodeTally code ls =
    (count ("success" ∷ "no_matches" ∷ []) ls ≡ 0)
    × (count ("invalid_input" ∷ []) ls ≡ count_if (same_code invalid_argument code))
    × (count ("auth_unavailable" ∷ []) ls ≡ count_if (same_code failed_precondition code))
    × (count ("auth_error" ∷ "product_error" ∷ []) ls ≡ count_if (same_code internal code))
    × (count ("product_unavailable" ∷ []) ls ≡ count_if (same_code unavailable code))

module _ {F : Type 0} where
  abbrev Tally : Reply F → List String → Type 0
  Tally reply ls =
      (count ("success" ∷ "no_matches" ∷ []) ls ≡ count_if (is_response reply))
      × (count ("invalid_input" ∷ []) ls ≡ count_if (has_code invalid_argument reply))
      × (count ("auth_unavailable" ∷ []) ls ≡ count_if (has_code failed_precondition reply))
      × (count ("auth_error" ∷ "product_error" ∷ []) ls ≡ count_if (has_code internal reply))
      × (count ("product_unavailable" ∷ []) ls ≡ count_if (has_code unavailable reply))

tally_code : (code : Code) (ls : List String) → code_fits code ls ≡ true → CodeTally code ls
tally_code invalid_argument ls fit =
    rw (one_label "invalid_input" ls fit) (refl, refl, refl, refl, refl)
tally_code failed_precondition ls fit =
    rw (one_label "auth_unavailable" ls fit) (refl, refl, refl, refl, refl)
tally_code internal ls fit = elim (one_of_two "auth_error" "product_error" ls fit) [
  | inl e ↦ rw e (refl, refl, refl, refl, refl)
  | inr e ↦ rw e (refl, refl, refl, refl, refl)
]
tally_code unavailable ls fit =
    rw (one_label "product_unavailable" ls fit) (refl, refl, refl, refl, refl)

module _ {F : Type 0} where
  abbrev Tells : List String → (Reply F → Bool) → Type 0
  Tells statuses kind =
      (reply : Reply F) (ls : List String)
      → labels_fit reply ls ≡ true
      → count statuses ls ≡ count_if (kind reply)

  tally : (reply : Reply F) (ls : List String) → labels_fit reply ls ≡ true → Tally reply ls
  tally (response r) ls fit = elim (one_of_two "success" "no_matches" ls fit) [
    | inl e ↦ rw e (refl, refl, refl, refl, refl)
    | inr e ↦ rw e (refl, refl, refl, refl, refl)
  ]
  tally (failed status) ls fit = tally_code status.code ls fit
  tally panicked [] fit = (refl, refl, refl, refl, refl)
  tally panicked (l ∷ ls) fit = absurd (cc)

count-append :
    (statuses ls ks : List String)
    → count statuses (ls ++ ks) ≡ count statuses ls + count statuses ks
count-append statuses ls ks =
    ap length (filter-append (listed statuses) ls ks)
    ∙ length-append (filter (listed statuses) ls) (filter (listed statuses) ks)

length-filter_cons :
    {A : Type 0} (p : A → Bool) (x : A) (xs : List A)
    → length (filter p (x ∷ xs)) ≡ count_if (p x) + length (filter p xs)
length-filter_cons p x xs = elim (Bool-cases (p x)) [
  | inl e ↦ rw e (omega arith)
  | inr e ↦ rw e (omega arith)
]

requests-append :
    (events more : List Event) → requests (events ++ more) ≡ requests events ++ requests more
requests-append [] more = refl
requests-append (requests_total label ∷ events) more =
    ap (λ ls. label ∷ ls) (requests-append events more)
requests-append (errors_total label ∷ events) more = requests-append events more
requests-append (cache_hit ∷ events) more = requests-append events more
requests-append (cache_miss ∷ events) more = requests-append events more
requests-append (request_duration status ms ∷ events) more = requests-append events more
requests-append (rule_evaluation_duration ms ∷ events) more = requests-append events more
requests-append (rules_matched n ∷ events) more = requests-append events more

module _ {F B : Type 0} ⦃fl : Float64 F⦄ where
  -- Calls of `Recommend` one after another: the replies, the server, and the changes of the metrics.
  pub serve :
      List (Surroundings F B × UserContext)
      → Server F B (GetProductsByFilters F)
      → List (Reply F) × Server F B (GetProductsByFilters F) × List Event
  serve [] s = ([], s, [])
  serve ((env, req) ∷ calls) s =
      let (reply, s', events) = recommend env req s in
      let (replies, last, more) = serve calls s' in (reply ∷ replies, last, events ++ more)

  count-serve :
      (statuses : List String) (kind : Reply F → Bool)
      → Tells statuses kind
      → (calls : List (Surroundings F B × UserContext)) (s : Server F B (GetProductsByFilters F))
      → count statuses (requests (serve calls s).2) ≡ length (filter kind (serve calls s).0)
  unfolding serve
  count-serve statuses kind tells [] s = refl
  count-serve statuses kind tells ((env, req) ∷ calls) s =
      let step = recommend env req s in
      let rest = count-serve statuses kind tells calls step.1 in
      let here = tells step.0 (requests step.2) (recommend_counted env req s).0 in
      ap (count statuses) (requests-append step.2 (serve calls step.1).2)
      ∙ omega (
        arith,
        count-append statuses (requests step.2) (requests (serve calls step.1).2),
        length-filter_cons kind step.0 (serve calls step.1).0,
        here,
        rest,
      )

  abbrev pub Counted :
      (statuses : List String) (kind : Reply F → Bool)
      → List (Surroundings F B × UserContext)
      → Server F B (GetProductsByFilters F)
      → Type 0
  Counted statuses kind calls s =
      times_counted statuses (map change_of_event (serve calls s).2)
      ≡ length (filter kind (serve calls s).0)

  serve-Counted :
      (statuses : List String) (kind : Reply F → Bool)
      → Tells statuses kind
      → (calls : List (Surroundings F B × UserContext)) (s : Server F B (GetProductsByFilters F))
      → Counted statuses kind calls s
  serve-Counted statuses kind tells calls s =
      times-requests statuses (serve calls s).2 ∙ count-serve statuses kind tells calls s

  -- After any calls of `Recommend`, one after another, the counter of requests tells their outcomes: the
  -- statuses success and no_matches together count the calls that answered recommendations, and
  -- invalid_input, auth_unavailable, auth_error and product_error together, and product_unavailable
  -- count those that failed with InvalidArgument, FailedPrecondition, Internal and Unavailable.
  pub requests-Counted :
      (calls : List (Surroundings F B × UserContext)) (s : Server F B (GetProductsByFilters F))
      → Counted ("success" ∷ "no_matches" ∷ []) is_response calls s
        × Counted ("invalid_input" ∷ []) (has_code invalid_argument) calls s
        × Counted ("auth_unavailable" ∷ []) (has_code failed_precondition) calls s
        × Counted ("auth_error" ∷ "product_error" ∷ []) (has_code internal) calls s
        × Counted ("product_unavailable" ∷ []) (has_code unavailable) calls s
  requests-Counted calls s = (
    serve-Counted ("success" ∷ "no_matches" ∷ []) is_response
        (λ reply ls fit. (tally reply ls fit).0) calls s,
    serve-Counted ("invalid_input" ∷ []) (has_code invalid_argument)
        (λ reply ls fit. (tally reply ls fit).1) calls s,
    serve-Counted ("auth_unavailable" ∷ []) (has_code failed_precondition)
        (λ reply ls fit. (tally reply ls fit).2) calls s,
    serve-Counted ("auth_error" ∷ "product_error" ∷ []) (has_code internal)
        (λ reply ls fit. (tally reply ls fit).3) calls s,
    serve-Counted ("product_unavailable" ∷ []) (has_code unavailable)
        (λ reply ls fit. (tally reply ls fit).4) calls s,
  )
