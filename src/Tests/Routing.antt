-- ===== src/Tests/Routing.antt =====
-- A multiplexer that tries all patterns and keeps the longest, and the routes of the service at it.
use Prim.Native.String.{len}
use ctse_mood_rule_service.Common.{
  String, Bool, true, false, Option, none, some, [], ◌∷◌, Dict, lookup, ◌≡◌, refl, ◌∙◌, ◌≤◌, ◌⊎◌,
  inl, inr, ◌==◌, eq_iff, leb, if◌then◌else◌, Bool-cases, arith,
}
use ctse_mood_rule_service.Config.{read_config}
use ctse_mood_rule_service.Service.Http.{
  docs, healthz, ServeMux, stands_for, is_clean, IsMux, http_server,
}
use ctse_mood_rule_service.Common.Int.{pos}
use ctse_mood_rule_service.Tests.Data.{num}
use ctse_mood_rule_service.Tests.Retrying.{still}
use ctse_mood_rule_service.Tests.Running.{http, mood_handler, environment}
use ctse_mood_rule_service.Service.Http.Routes.{handler_of, http_server-handler_of}

differ_by :
    (p q path : String) → stands_for p path ≡ false → stands_for q path ≡ true → (p == q) ≡ false
differ_by p q path n y = elim (Bool-cases (p == q)) [
  | inl same ↦ absurd (let e = (eq_iff p q).0 same in cc)
  | inr other ↦ other
]

shorter_differs : (p q : String) → leb (len q) (len p) ≡ false → (p == q) ≡ false
shorter_differs p q h = elim (Bool-cases (p == q)) [
  | inl same ↦
      absurd (let e : leb (len q) (len q) ≡ false = rw ((eq_iff p q).0 same) at h in ground arith)
  | inr other ↦ other
]

module _ {H : Type 0} where
  keep_longer : Bool → String → H → Option (String × H) → Option (String × H)
  keep_longer false p h best = best
  keep_longer true p h none = some (p, h)
  keep_longer true p h (some (q, k)) = if leb (len q) (len p) then some (p, h) else some (q, k)

  longest : Dict H → String → Option (String × H)
  unfolding keep_longer
  longest [] path = none
  longest ((p, h) ∷ rest) path = keep_longer (stands_for p path) p h (longest rest path)

  abbrev IsLongest : Dict H → String → Option (String × H) → Type 0
  IsLongest patterns path none =
      (o : String) (t : H) → lookup o patterns ≡ some t → stands_for o path ≡ false
  IsLongest patterns path (some (q, k)) =
      (lookup q patterns ≡ some k)
      × (stands_for q path ≡ true)
      × ((o : String) (t : H)
          → lookup o patterns ≡ some t
          → stands_for o path ≡ true
          → len o ≤ len q)

  lookup_here : (p : String) (h : H) (rest : Dict H) → lookup p ((p, h) ∷ rest) ≡ some h
  unfolding lookup
  lookup_here p h rest = rw ((eq_iff p p).1 refl) refl

  -- The first entry, or a later one.
  lookup_first :
      (p o : String) (h t : H) (rest : Dict H)
      → lookup o ((p, h) ∷ rest) ≡ some t
      → (p ≡ o) ⊎ (lookup o rest ≡ some t)
  unfolding lookup
  lookup_first p o h t rest e = elim (Bool-cases (p == o)) [
    | inl same ↦ inl ((eq_iff p o).0 same)
    | inr other ↦ inr (rw other at e)
  ]

  lookup_later :
      (p o : String) (h t : H) (rest : Dict H)
      → (p == o) ≡ false
      → lookup o rest ≡ some t
      → lookup o ((p, h) ∷ rest) ≡ some t
  unfolding lookup
  lookup_later p o h t rest other e = rw other e

  keep_longer-IsLongest :
      (p path : String) (h : H) (rest : Dict H) (stands : Bool) (best : Option (String × H))
      → stands_for p path ≡ stands
      → IsLongest rest path best
      → IsLongest ((p, h) ∷ rest) path (keep_longer stands p h best)
  unfolding keep_longer
  keep_longer-IsLongest p path h rest false none s none_stands = λ o t e.
      elim (lookup_first p o h t rest e) [
        | inl same ↦ rw (← same) s
        | inr later ↦ none_stands o t later
      ]
  keep_longer-IsLongest p path h rest false (some (q, k)) s (found, stands, most) = (
    lookup_later p q h k rest (differ_by p q path s stands) found,
    stands,
    λ o t e there. elim (lookup_first p o h t rest e) [
      | inl same ↦ absurd (let n = rw same at s in cc)
      | inr later ↦ most o t later there
    ],
  )
  keep_longer-IsLongest p path h rest true none s none_stands = (
    lookup_here p h rest,
    s,
    λ o t e there. elim (lookup_first p o h t rest e) [
      | inl same ↦ rw same (omega arith)
      | inr later ↦ absurd (let n = none_stands o t later in cc)
    ],
  )
  keep_longer-IsLongest p path h rest true (some (q, k)) s (found, stands, most) =
      elim (Bool-cases (leb (len q) (len p))) [
        | inl longer ↦ rw longer (
          lookup_here p h rest,
          s,
          λ o t e there. elim (lookup_first p o h t rest e) [
            | inl same ↦ rw same (omega arith)
            | inr later ↦ let l = most o t later there in ground arith
          ],
        )
        | inr shorter ↦ rw shorter (
          lookup_later p q h k rest (shorter_differs p q shorter) found,
          stands,
          λ o t e there. elim (lookup_first p o h t rest e) [
            | inl same ↦ rw (← same) (ground arith)
            | inr later ↦ most o t later there
          ],
        )
      ]

  longest-IsLongest :
      (patterns : Dict H) (path : String) → IsLongest patterns path (longest patterns path)
  unfolding longest lookup
  longest-IsLongest [] path = λ o t e. absurd (cc)
  longest-IsLongest ((p, h) ∷ rest) path =
      keep_longer-IsLongest p path h rest (stands_for p path) (longest rest path) refl
        (longest-IsLongest rest path)

  abbrev handler_in : Option (String × H) → Option H
  handler_in none = none
  handler_in (some (q, k)) = some k

  keeping_longest : ServeMux H
  keeping_longest patterns path = if is_clean path then handler_in (longest patterns path) else none

  chosen_in :
      (patterns : Dict H) (path : String) (handler : H) (best : Option (String × H))
      → IsLongest patterns path best
      → handler_in best ≡ some handler
      → (pattern : String) × (lookup pattern patterns ≡ some handler)
        × (stands_for pattern path ≡ true)
        × ((other : String) (theirs : H)
            → lookup other patterns ≡ some theirs
            → stands_for other path ≡ true
            → len other ≤ len pattern)
  chosen_in patterns path handler none h e = absurd (cc)
  chosen_in patterns path handler (some (q, k)) (found, stands, most) e =
      (q, found ∙ e, stands, most)

  none_in :
      (patterns : Dict H) (path pattern : String) (handler : H) (best : Option (String × H))
      → IsLongest patterns path best
      → handler_in best ≡ none
      → lookup pattern patterns ≡ some handler
      → stands_for pattern path ≡ false
  none_in patterns path pattern handler none h e there = h pattern handler there
  none_in patterns path pattern handler (some (q, k)) h e there = absurd (cc)

  keeping_longest-IsMux : IsMux keeping_longest
  unfolding keeping_longest
  keeping_longest-IsMux = record {
    cleans = λ patterns path unclean. rw unclean refl;
    chosen = λ patterns path handler e. elim (Bool-cases (is_clean path)) [
      | inl clean ↦
          chosen_in patterns path handler (longest patterns path) (longest-IsLongest patterns path)
            (rw clean at e)
      | inr unclean ↦ absurd (let nothing = rw unclean at e in cc)
    ];
    not_chosen = λ patterns path pattern handler clean e there.
        none_in patterns path pattern handler (longest patterns path)
          (longest-IsLongest patterns path) (rw clean at e) there;
  }

http_server-handler_of_example :
    (http_server http still keeping_longest
        (read_config environment (num (pos 1))).server
        mood_handler).handler
      "/docs/index.html"
    ≡ (if is_clean "/docs/index.html"
        then handler_of http still mood_handler "/docs/index.html"
        else none)
http_server-handler_of_example =
    http_server-handler_of http still mood_handler keeping_longest
      (read_config environment (num (pos 1))).server "/docs/index.html" keeping_longest-IsMux

clean_path : is_clean "/docs/..index.html/" ≡ true
unfolding is_clean
clean_path = refl

two_slashes : is_clean "/docs//x" ≡ false
unfolding is_clean
two_slashes = refl

goes_up : is_clean "/docs/../healthz" ≡ false
unfolding is_clean
goes_up = refl

ends_in_dot : is_clean "/docs/." ≡ false
unfolding is_clean
ends_in_dot = refl

answers_page : handler_of http still mood_handler "/docs/index.html" ≡ some docs
unfolding stands_for
answers_page = refl

answers_health : handler_of http still mood_handler "/healthz" ≡ some healthz
answers_health = refl

answers_nothing : handler_of http still mood_handler "/health" ≡ none
unfolding stands_for
answers_nothing = refl
