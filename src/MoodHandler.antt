-- ===== src/MoodHandler.antt =====
-- internal/http/mood_handler.go: `UpdateMood` forwards a user's mood to the auth service, publishes the
-- change and notifies the product catalog. net/http is a parameter: what the decoder makes of the body,
-- the header, and `http.Client.Do` on what is outside (`W`). Log lines are left out.
pub mod Replies
use Prim.Native.String.{◌++◌}
use ctse_mood_rule_service.Common.{
  ℕ, String, Bool, true, Option, none, some, List, [], map, ◌==◌, eqb, if◌then◌else◌, Error, errorf,
  wrap, Result, ok, err,
}
use ctse_mood_rule_service.Common.Decimal.{format_nat}
use ctse_mood_rule_service.EventBus.{Event, Handler, EventBus, publish}
use ctse_mood_rule_service.Clients.{Clock, Done, Metric}
use ctse_mood_rule_service.Clients.Catalog.{
  ProductCatalogClient, MoodUpdateAcknowledgment, notify_mood_update,
}

pub record MoodUpdateRequest : Type 0 where
  pub user_id : String
  pub mood : String

pub record MoodUpdateResponse : Type 0 where
  pub message : String
  pub success : Bool

-- The map that is published as a mood change; the time is in nanoseconds.
pub record MoodChange : Type 0 where
  pub event_type : String
  pub user_id : String
  pub mood : String
  pub timestamp : ℕ

-- What the service publishes on its bus.
pub data Payload : Type 0 where
  mood_change : MoodChange → Payload
  reason : String → Payload

-- A request to the auth service.
pub record AuthRequest (B : Type 0) : Type 0 where
  pub method : String
  pub url : String
  pub body : B
  pub content_type : String
  pub authorization : String

pub record AuthResponse : Type 0 where
  pub status_code : ℕ
  pub body : String

-- What the handler uses of the libraries.
pub record Http (B W : Type 0) : Type 0 where
  -- `json.Marshal(map[string]string{"mood": mood})`
  pub marshal_mood : String → Result B
  -- the error of `http.NewRequestWithContext` at a URL
  pub request_error : String → Option Error
  pub client_do : AuthRequest B → W → Result AuthResponse × W
  -- the wall clock, in nanoseconds and in seconds
  pub unix_nano : W → ℕ
  pub unix : W → ℕ

pub record MoodHandler (F W : Type 0) : Type 0 where
  pub auth_service_url : String
  pub bus : Option (EventBus Payload)
  pub product_client : Option (ProductCatalogClient F W)

-- `NewMoodHandler`
unfoldable pub new_mood_handler :
    {F W : Type 0}
    → String
    → Option (EventBus Payload)
    → Option (ProductCatalogClient F W)
    → MoodHandler F W
new_mood_handler auth_service_url bus product_client = record {
  auth_service_url = auth_service_url;
  bus = bus;
  product_client = product_client;
}

pub data Reply : Type 0 where
  -- `http.Error`
  http_error : ℕ → String → Reply
  http_json : ℕ → MoodUpdateResponse → Reply

-- What a call leaves: its reply, what is outside, the handlers that were started and with what, and the
-- changes of the metrics.
pub record Handled (W : Type 0) : Type 0 where
  pub reply : Reply
  pub outside : W
  pub started : List (Handler Payload × Event Payload)
  pub metrics : List Metric

module _ {B W : Type 0} (http : Http B W) where
  pub check_status : Result AuthResponse → Option Error
  check_status (err e) = some (wrap "failed to send request to Auth Service" e)
  check_status (ok resp) =
      if eqb resp.status_code 200
      then none
      else some (
          errorf (
            "Auth Service returned error status "
            ++ (format_nat resp.status_code ++ (": " ++ resp.body))))

  pub send_mood : String → String → String → Result B → Option Error → W → Option Error × W
  unfolding check_status
  send_mood url mood auth_token (err e) request_error w =
      (some (wrap "failed to marshal mood payload" e), w)
  send_mood url mood auth_token (ok payload) (some e) w =
      (some (wrap "failed to create request" e), w)
  send_mood url mood auth_token (ok payload) none w =
      let (resp, w') =
        http.client_do
          (record {
            method = "PUT";
            url = url;
            body = payload;
            content_type = "application/json";
            authorization = auth_token;
          })
          w in
      (check_status resp, w')

  -- `forwardToAuthService`
  unfoldable pub forward_to_auth_service : String → String → String → W → Option Error × W
  unfolding send_mood
  forward_to_auth_service auth_service_url mood auth_token w =
      let url = auth_service_url ++ "/auth/mood" in
      send_mood url mood auth_token (http.marshal_mood mood) (http.request_error url) w

  -- `publishMoodChangeEvent`: the handlers that it starts.
  unfoldable pub publish_mood_change :
      Option (EventBus Payload) → String → String → W → List (Handler Payload × Event Payload)
  unfolding publish
  publish_mood_change none user_id mood w = []
  publish_mood_change (some bus) user_id mood w =
      let event : Event Payload = record {
        event_type = "mood_changed";
        payload = mood_change (record {
          event_type = "mood_changed";
          user_id = user_id;
          mood = mood;
          timestamp = http.unix_nano w;
        });
      } in
      map (λ handler. (handler, event)) (publish event bus)

  pub notified : Done W MoodUpdateAcknowledgment → W × List Metric
  notified d = (d.outside, d.metrics)

  -- `notifyProductCatalog`, if there is a client; its error is only logged.
  unfoldable pub notify_product_catalog :
      {F : Type 0}
      → Clock W
      → Option (ProductCatalogClient F W)
      → String
      → String
      → W
      → W × List Metric
  unfolding notify_mood_update notified
  notify_product_catalog clock none user_id mood w = (w, [])
  notify_product_catalog clock (some c) user_id mood w =
      notified (
        notify_mood_update clock http.unix c user_id mood "" ("sess_" ++ format_nat (http.unix w))
          w)

  module _ {F : Type 0} (clock : Clock W) (h : MoodHandler F W) where
    pub fails : ℕ → String → W → Handled W
    fails code text w = record {
      reply = http_error code text;
      outside = w;
      started = [];
      metrics = [];
    }

    pub after_forward : MoodUpdateRequest → Option Error × W → Handled W
    unfolding fails publish_mood_change notify_product_catalog
    after_forward req (some e, w) = fails 500 "Failed to update mood" w
    after_forward req (none, w) =
        let (w', metrics) = notify_product_catalog clock h.product_client req.user_id req.mood w in
        record {
          reply = http_json 200 (record { message = "Mood updated successfully"; success = true });
          outside = w';
          started = publish_mood_change h.bus req.user_id req.mood w;
          metrics = metrics;
        }

    -- `UpdateMood`, from what the decoder makes of the body and the header `Authorization`, which is
    -- empty if there is none.
    unfoldable pub update_mood : Result MoodUpdateRequest → String → W → Handled W
    unfolding fails forward_to_auth_service after_forward
    update_mood (err e) auth_token w = fails 400 "Invalid request body" w
    update_mood (ok req) auth_token w =
        if auth_token == ""
        then fails 401 "Unauthorized" w
        else after_forward req (forward_to_auth_service h.auth_service_url req.mood auth_token w)
