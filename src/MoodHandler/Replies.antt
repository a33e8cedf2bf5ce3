-- ===== src/MoodHandler/Replies.antt =====
-- What a call of `UpdateMood` answers and what it starts.
use ctse_mood_rule_service.Common.{
  true, ℕ, String, false, ◌≡◌, refl, ◌⊎◌, inl, inr, Option, none, some, [], ◌==◌, Bool-cases, Error,
  Result, ok, err,
}
use ctse_mood_rule_service.Clients.{Clock}
use ctse_mood_rule_service.Clients.Catalog.{ProductCatalogClient}
use ctse_mood_rule_service.MoodHandler.{
  MoodUpdateRequest, Reply, http_error, http_json, Http, MoodHandler, Handled,
  forward_to_auth_service, publish_mood_change, fails, after_forward, update_mood,
}

abbrev pub status : Reply → ℕ
status (http_error code text) = code
status (http_json code body) = code

-- The call answers an error with this status, leaves this outside, and has started no handler and changed
-- no metric.
abbrev pub Refuses : {W : Type 0} → ℕ → W → Handled W → Type 0
Refuses code w a = (status a.reply ≡ code) × (a.outside ≡ w) × (a.started ≡ []) × (a.metrics ≡ [])

module _ {F B W : Type 0} (http : Http B W) (clock : Clock W) where
  module _ (h : MoodHandler F W) where
    -- The auth service has taken the mood, and the change is published; or it has not, and the call is
    -- refused.
    abbrev Follows : MoodUpdateRequest → Option Error × W → Handled W → Type 0
    Follows req (error, w') a =
        ((error ≡ none)
          × (status a.reply ≡ 200)
          × (a.started ≡ publish_mood_change http h.bus req.user_id req.mood w'))
        ⊎ ((e : Error) × (error ≡ some e) × Refuses 500 w' a)

    after_forward-Follows :
        (req : MoodUpdateRequest) (error : Option Error) (w' : W)
        → Follows req (error, w') (after_forward http clock h req (error, w'))
    unfolding after_forward fails
    after_forward-Follows req none w' = inl (refl, refl, refl)
    after_forward-Follows req (some e) w' = inr (e, refl, (refl, refl, refl, refl))

    -- `UpdateMood` answers 200 and starts the handlers of the change, for the user that the body names,
    -- if the body can be decoded, there is a token, and the auth service takes the mood. Otherwise it
    -- answers 400, 401 or 500, after the body, the token or the auth service, starts no handler, changes
    -- no metric, and does nothing outside after the call of the auth service, if it gets there.
    pub update_mood_publishes :
        (body : Result MoodUpdateRequest) (auth_token : String) (w : W)
        → let a = update_mood http clock h body auth_token w in
          ((req : MoodUpdateRequest) × (body ≡ ok req)
            × ((auth_token == "") ≡ false)
            × ((forward_to_auth_service http h.auth_service_url req.mood auth_token w).0 ≡ none)
            × (status a.reply ≡ 200)
            × (a.started
                ≡ publish_mood_change http h.bus req.user_id req.mood
                    (forward_to_auth_service http h.auth_service_url req.mood auth_token w).1))
          ⊎ (((e : Error) × (body ≡ err e) × Refuses 400 w a)
              ⊎ (((req : MoodUpdateRequest) × (body ≡ ok req)
                    × ((auth_token == "") ≡ true)
                    × Refuses 401 w a)
                  ⊎ ((req : MoodUpdateRequest) × (body ≡ ok req)
                      × ((auth_token == "") ≡ false)
                      × ((e : Error) × ((forward_to_auth_service http h.auth_service_url req.mood
                              auth_token w).0
                            ≡ some e)
                          × Refuses 500
                              (forward_to_auth_service http h.auth_service_url req.mood auth_token
                                w).1
                              a))))
    unfolding update_mood fails
    update_mood_publishes (err e) auth_token w = inr (inl (e, refl, (refl, refl, refl, refl)))
    update_mood_publishes (ok req) auth_token w = elim (Bool-cases (auth_token == "")) [
      | inl missing ↦
          rw (missing, update_mood) (inr (inr (inl (req, refl, refl, (refl, refl, refl, refl)))))
      | inr there ↦
          let (error, w') = forward_to_auth_service http h.auth_service_url req.mood auth_token w in
          rw there (elim (after_forward-Follows req error w') [
            | inl (fine, replied, started) ↦ inl (req, refl, refl, fine, replied, started)
            | inr (e, failed, refused) ↦ inr (inr (inr (req, refl, refl, (e, failed, refused))))
          ])
    ]

  same_after_forward :
      (h : MoodHandler F W) (c : Option (ProductCatalogClient F W)) (req : MoodUpdateRequest)
      (error : Option Error) (w' : W)
      → let a = after_forward http clock h req (error, w') in
        let b = after_forward http clock (record h { product_client = c }) req (error, w') in
        (a.reply ≡ b.reply) × (a.started ≡ b.started)
  unfolding after_forward fails
  same_after_forward h c req none w' = (refl, refl)
  same_after_forward h c req (some e) w' = (refl, refl)

  -- The product catalog has no part in the answer: with another client or none, whatever it does, the
  -- reply is the same and the same handlers are started.
  pub update_mood_ignores_catalog :
      (h : MoodHandler F W) (c : Option (ProductCatalogClient F W))
      (body : Result MoodUpdateRequest) (auth_token : String) (w : W)
      → let a = update_mood http clock h body auth_token w in
        let b = update_mood http clock (record h { product_client = c }) body auth_token w in
        (a.reply ≡ b.reply) × (a.started ≡ b.started)
  unfolding update_mood fails
  update_mood_ignores_catalog h c (err e) auth_token w = (refl, refl)
  update_mood_ignores_catalog h c (ok req) auth_token w = elim (Bool-cases (auth_token == "")) [
    | inl missing ↦ rw missing (refl, refl)
    | inr there ↦
        let (error, w') = forward_to_auth_service http h.auth_service_url req.mood auth_token w in
        rw there (same_after_forward h c req error w')
  ]
