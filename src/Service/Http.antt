-- ===== src/Service/Http.antt =====
-- The HTTP server of cmd/server/main.go: its routes, and what each answers. The multiplexer of net/http, the
-- handler of the metrics page and the content of the file that is served are outside.
pub mod Routes
use Prim.Native.Char.{code}
use Prim.Native.String.{◌++◌, len, slice}
use Prim.Native.String as S
use ctse_mood_rule_service.Common.{
  ℕ, String, Bool, Option, none, some, List, [], ◌∷◌, Dict, lookup, Result, ◌≡◌, ◌≤◌, ◌-◌, ◌==◌,
  ◌&&◌, ◌||◌, leb, eqb, if◌then◌else◌, true, false,
}
use ctse_mood_rule_service.Common.Int.{ℤ}
use ctse_mood_rule_service.Common.Decimal.{format_int}
use ctse_mood_rule_service.Config.{ServerConfig}
use ctse_mood_rule_service.Clients.{Clock}
use ctse_mood_rule_service.MoodHandler.{MoodHandler, MoodUpdateRequest, Handled, update_mood, Http}

-- What is read of a request besides its path: what the decoder makes of its body, and its header
-- `Authorization`.
pub record Request : Type 0 where
  pub body : Result MoodUpdateRequest
  pub auth_token : String

-- What a handler answers.
pub data Answer (W : Type 0) : Type 0 where
  -- a status, the content type if the handler sets it, and a text
  page : ℕ → Option String → String → Answer W
  -- a content type and the path of a file
  file : String → String → Answer W
  -- `promhttp.Handler()`
  metrics_page : Answer W
  mood_updated : Handled W → Answer W

abbrev pub HandlerFunc : Type 0 → Type 0
HandlerFunc W = Request → W → Answer W

-- The page of `/docs/`, by its lines.
swagger_lines : List String
swagger_lines =
    "<!DOCTYPE html>" ∷ "<html>" ∷ "<head>" ∷ "  <title>Mood-Rule-Service API</title>"
    ∷ "  <meta charset=\"utf-8\"/>"
    ∷ "  <link rel=\"stylesheet\" href=\"https://unpkg.com/swagger-ui-dist@5/swagger-ui.css\">"
    ∷ "</head>" ∷ "<body>" ∷ "  <div id=\"swagger-ui\"></div>"
    ∷ "  <script src=\"https://unpkg.com/swagger-ui-dist@5/swagger-ui-bundle.js\"></script>"
    ∷ "  <script>" ∷ "    SwaggerUIBundle({" ∷ "      url: \"/docs/swagger.json\","
    ∷ "      dom_id: '#swagger-ui',"
    ∷ "      presets: [SwaggerUIBundle.presets.apis, SwaggerUIBundle.SwaggerUIStandalonePreset],"
    ∷ "      layout: \"BaseLayout\"" ∷ "    })" ∷ "  </script>" ∷ "</body>" ∷ "</html>" ∷ []

pub join_lines : List String → String
join_lines [] = ""
join_lines (line ∷ []) = line
join_lines (line ∷ next ∷ lines) = line ++ ("\n" ++ join_lines (next ∷ lines))

module _ {W : Type 0} where
  pub healthz : HandlerFunc W
  healthz r w = page 200 none "OK"

  pub metrics_handler : HandlerFunc W
  metrics_handler r w = metrics_page

  pub swagger_json : HandlerFunc W
  swagger_json r w = file "application/json" "docs/swagger.json"

  pub docs : HandlerFunc W
  unfolding swagger_lines join_lines
  docs r w = page 200 (some "text/html; charset=utf-8") (join_lines swagger_lines)

module _ {F W B : Type 0} (http : Http B W) (clock : Clock W) where
  pub update_handler : MoodHandler F W → HandlerFunc W
  unfolding update_mood
  update_handler h r w = mood_updated (update_mood http clock h r.body r.auth_token w)

  -- What is registered with the multiplexer, by pattern.
  unfoldable pub routes : MoodHandler F W → Dict (HandlerFunc W)
  unfolding healthz metrics_handler update_handler swagger_json docs
  routes h =
      ("/healthz", healthz)
      ∷ ("/metrics", metrics_handler)
      ∷ ("/mood/update", update_handler h)
      ∷ ("/docs/swagger.json", swagger_json)
      ∷ ("/docs/", docs)
      ∷ []

-- `http.ServeMux`: the handler that it calls for a path; none where it answers by itself, with not found
-- or a redirect.
abbrev pub ServeMux : Type 0 → Type 0
ServeMux H = Dict H → String → Option H

-- A pattern stands for its own path, and for all below it if it ends in a slash.
unfoldable pub stands_for : String → String → Bool
stands_for pattern path =
    (pattern == path)
    || (leb 1 (len pattern)
        && ((slice pattern (len pattern - 1) (len pattern) == "/")
            && (leb (len pattern) (len path) && (slice path 0 (len pattern) == pattern))))

-- What has been read of a path since its last slash.
pub data Segment : Type 0 where
  empty_segment : Segment
  dot : Segment
  two_dots : Segment
  named : Segment

pub one_more_dot : Segment → Segment
one_more_dot empty_segment = dot
one_more_dot dot = two_dots
one_more_dot two_dots = named
one_more_dot named = named

-- A slash may follow, and the path may end.
pub may_go_on : Segment → Bool
may_go_on empty_segment = false
may_go_on dot = false
may_go_on two_dots = false
may_go_on named = true

pub may_end : Segment → Bool
may_end empty_segment = true
may_end dot = false
may_end two_dots = false
may_end named = true

pub next_segment : ℕ → Segment → Segment
unfolding one_more_dot
next_segment c seg =
    if eqb c 47 then empty_segment else if eqb c 46 then one_more_dot seg else named

pub clean_from : Segment → String → Bool
unfolding next_segment may_end may_go_on
clean_from seg S.[] = may_end seg
clean_from seg (S.◌∷◌ c path) =
    let rest = clean_from (next_segment (code c) seg) path in
    if eqb (code c) 47 then may_go_on seg && rest else rest

-- A path as the multiplexer wants it: from a slash on, with no empty segment before the last, and none
-- that is "." or "..". It redirects every other path to the one that its cleaning makes of it.
unfoldable pub is_clean : String → Bool
unfolding clean_from
is_clean S.[] = false
is_clean (S.◌∷◌ c path) = eqb (code c) 47 && clean_from empty_segment path

-- What is documented of it, for patterns of paths, a path in which nothing is escaped, and a method other
-- than CONNECT, whose paths are not cleaned: a path that is not clean is redirected; for a clean path, a
-- pattern that stands for it is chosen, a longer one before a shorter one.
pub record IsMux {H : Type 0} (mux : ServeMux H) : Type 0 where
  pub cleans :
      (patterns : Dict H) (path : String) → is_clean path ≡ false → mux patterns path ≡ none
  pub chosen :
      (patterns : Dict H) (path : String) (handler : H)
      → mux patterns path ≡ some handler
      → (pattern : String) × (lookup pattern patterns ≡ some handler)
        × (stands_for pattern path ≡ true)
        × ((other : String) (theirs : H)
            → lookup other patterns ≡ some theirs
            → stands_for other path ≡ true
            → len other ≤ len pattern)
  pub not_chosen :
      (patterns : Dict H) (path pattern : String) (handler : H)
      → is_clean path ≡ true
      → mux patterns path ≡ none
      → lookup pattern patterns ≡ some handler
      → stands_for pattern path ≡ false

-- The fields of `http.Server`.
pub record HttpServer (H : Type 0) : Type 0 where
  pub addr : String
  pub handler : String → Option H
  pub read_timeout : ℤ
  pub write_timeout : ℤ

unfoldable pub http_server :
    {F W B : Type 0}
    → Http B W
    → Clock W
    → ServeMux (HandlerFunc W)
    → ServerConfig
    → MoodHandler F W
    → HttpServer (HandlerFunc W)
unfolding routes format_int
http_server http clock mux cfg h = record {
  addr = ":" ++ format_int cfg.health_port;
  handler = mux (routes http clock h);
  read_timeout = cfg.read_timeout;
  write_timeout = cfg.write_timeout;
}
