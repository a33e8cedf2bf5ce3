-- ===== src/Clients/Catalog.antt =====
-- internal/grpc/clients/product_catalog_client.go, with the messages of proto/product_catalog.proto.
-- The generated client of the service is a parameter. One breaker serves both methods: it is given
-- once for each type of answers. The deadline that `c.timeout` sets is part of what is outside.
use ctse_mood_rule_service.Common.{
  ℕ, String, Bool, Option, none, some, List, map, Error, Result, ok, err, wrap,
}
use ctse_mood_rule_service.Common.Int.{ℤ, to_int32}
use ctse_mood_rule_service.Model.{Product}
use ctse_mood_rule_service.Filters.{Filters}
use ctse_mood_rule_service.Server.Recommend.{GetProductsByFilters}
use ctse_mood_rule_service.Float.{Float64}
use ctse_mood_rule_service.Config.{ServiceEndpoint}
use ctse_mood_rule_service.Clients.Breaker.{Settings, settings_of}
use ctse_mood_rule_service.Clients.{
  Call, CircuitBreaker, Clock, Retries, Names, Done, elapsed, call_with_retries,
}

pub record ProductFilterRequest (F : Type 0) : Type 0 where
  pub tags : List String
  pub categories : List String
  pub min_price : F
  pub max_price : F
  pub limit : ℕ
  pub trace_id : String

-- `pb.Product`
pub record PbProduct (F : Type 0) : Type 0 where
  pub product_id : String
  pub name : String
  pub description : String
  pub price : F
  pub category : String
  pub tags : List String
  pub image_url : String
  pub in_stock : Bool

pub record ProductList (F : Type 0) : Type 0 where
  pub products : List (PbProduct F)
  pub total_count : ℤ

pub record MoodMetadata : Type 0 where
  pub source : String
  pub response_time : ℤ
  pub device_type : String

pub record MoodUpdateNotification : Type 0 where
  pub user_id : String
  pub mood : String
  pub previous_mood : String
  pub session_id : String
  pub timestamp : ℕ
  pub metadata : MoodMetadata

pub record MoodUpdateAcknowledgment : Type 0 where
  pub success : Bool
  pub correlation_id : String
  pub timestamp : ℤ
  pub recommendations_generated : ℤ

pub record ProductCatalogClient (F W : Type 0) : Type 0 where
  pub get_products : ProductFilterRequest F → Call W (ProductList F)
  pub notify : MoodUpdateNotification → Call W MoodUpdateAcknowledgment
  pub products_breaker : CircuitBreaker W (List (Product F))
  pub notify_breaker : CircuitBreaker W MoodUpdateAcknowledgment
  pub retries : Retries
  -- `conn.Close`, for a connection that may be nil
  pub conn : Option (W → Option Error × W)

-- What `grpc.Dial` and `pb.NewProductCatalogServiceClient` give.
pub record Connection (F W : Type 0) : Type 0 where
  pub get_products : ProductFilterRequest F → Call W (ProductList F)
  pub notify : MoodUpdateNotification → Call W MoodUpdateAcknowledgment
  pub close_conn : W → Option Error × W

-- `NewProductCatalogClient`
unfoldable pub new_product_catalog_client :
    {F W : Type 0} ⦃fl : Float64 F⦄
    → (String → Result (Connection F W))
    → (Settings F → CircuitBreaker W (List (Product F)))
    → (Settings F → CircuitBreaker W MoodUpdateAcknowledgment)
    → ServiceEndpoint F
    → Result (ProductCatalogClient F W)
unfolding settings_of
new_product_catalog_client dial products_breaker notify_breaker cfg = elim (dial cfg.address) [
  | err e ↦ err (wrap "failed to connect to Product Catalog Service" e)
  | ok conn ↦
      let settings = settings_of "ProductCatalog" cfg.circuit_breaker in
      ok (record {
        get_products = conn.get_products;
        notify = conn.notify;
        products_breaker = products_breaker settings;
        notify_breaker = notify_breaker settings;
        retries = record { max_retries = cfg.max_retries; retry_backoff = cfg.retry_backoff };
        conn = some conn.close_conn;
      })
]

abbrev products_names : Names
products_names = record {
  service = "product_catalog";
  method = "GetProductsByFilters";
  error_label = "product_catalog_service";
  task = "get products";
}

abbrev notify_names : Names
notify_names = record {
  service = "product_catalog";
  method = "NotifyMoodUpdate";
  error_label = "product_catalog_service";
  task = "notify mood update";
}

unfoldable pub to_product : {F : Type 0} → PbProduct F → Product F
to_product p = record {
  product_id = p.product_id;
  name = p.name;
  description = p.description;
  price = p.price;
  category = p.category;
  tags = p.tags;
  image_url = p.image_url;
  in_stock = p.in_stock;
}

module _ {F W : Type 0} where
  pub convert_list : Result (ProductList F) × W → Result (List (Product F)) × W
  unfolding to_product
  convert_list (err e, w) = (err e, w)
  convert_list (ok resp, w) = (ok (map to_product resp.products), w)

  -- The function that `GetProductsByFilters` gives to the breaker.
  unfoldable pub products_request :
      ProductCatalogClient F W → Filters F → ℕ → String → Call W (List (Product F))
  unfolding convert_list
  products_request c filters limit trace_id w = convert_list (
      c.get_products
        (record {
          tags = filters.tags;
          categories = filters.categories;
          min_price = filters.min_price;
          max_price = filters.max_price;
          limit = limit;
          trace_id = trace_id;
        })
        w)

  -- `GetProductsByFilters`
  unfoldable pub get_products_by_filters :
      Clock W → ProductCatalogClient F W → Filters F → ℕ → String → W → Done W (List (Product F))
  unfolding products_request call_with_retries
  get_products_by_filters clock c filters limit trace_id w =
      call_with_retries clock products_names c.retries c.products_breaker
        (products_request c filters limit trace_id) w

  -- The client as the server sees it during one request.
  unfoldable pub catalog_answers : Clock W → ProductCatalogClient F W → W → GetProductsByFilters F
  catalog_answers clock c w filters limit trace_id =
      (get_products_by_filters clock c filters limit trace_id w).answer

  -- The function that `NotifyMoodUpdate` gives to the breaker: each attempt reads the time anew.
  unfoldable pub notify_request :
      Clock W
      → (W → ℕ)
      → ProductCatalogClient F W
      → ℕ
      → String
      → String
      → String
      → String
      → Call W MoodUpdateAcknowledgment
  unfolding elapsed to_int32
  notify_request clock unix c start_time user_id mood previous_mood session_id w =
      c.notify
        (record {
          user_id = user_id;
          mood = mood;
          previous_mood = previous_mood;
          session_id = session_id;
          timestamp = unix w;
          metadata = record {
            source = "mood_rule_service";
            response_time = to_int32 (elapsed clock start_time w);
            device_type = "server";
          };
        })
        w

  -- `NotifyMoodUpdate`; its trace goes only to the log.
  unfoldable pub notify_mood_update :
      Clock W
      → (W → ℕ)
      → ProductCatalogClient F W
      → String
      → String
      → String
      → String
      → W
      → Done W MoodUpdateAcknowledgment
  unfolding notify_request call_with_retries
  notify_mood_update clock unix c user_id mood previous_mood session_id w =
      call_with_retries clock notify_names c.retries c.notify_breaker
        (notify_request clock unix c (clock.now w) user_id mood previous_mood session_id) w

  -- `Close`
  unfoldable pub close : ProductCatalogClient F W → W → Option Error × W
  close c w = elim c.conn [ none ↦ (none, w) | some close_conn ↦ close_conn w ]
