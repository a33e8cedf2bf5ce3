-- ===== src/Server/Recommend/Failing.antt =====
-- What `Recommend` answers if the auth service gives no mood, or its client is a nil pointer.
use ctse_mood_rule_service.Common.{
  String, false, ◌≡◌, refl, ◌∙◌, ap, ◌==◌, if◌then◌else◌, Bool-cases, inl, inr, Result, ok, err,
  is_ok,
}
use ctse_mood_rule_service.Float.{Float64}
use ctse_mood_rule_service.Server.{
  UserContext, nil_pointer, client, GetUserMood, Code, invalid_argument, internal, Reply, response,
  failed, panicked, Server, validate_request,
}
use ctse_mood_rule_service.Server.Recommend.{
  GetProductsByFilters, Surroundings, fails, with_mood, fetch_mood, validated, trace_of, recommend,
}

-- How a call ends: with a response, with the code of a status, or with a panic.
pub data End : Type 0 where
  answered : End
  failed_with : Code → End
  crashed : End

abbrev pub end_of : {F : Type 0} → Reply F → End
end_of (response r) = answered
end_of (failed status) = failed_with status.code
end_of panicked = crashed

module _ {F B : Type 0} ⦃fl : Float64 F⦄ (env : Surroundings F B) where
  with_mood_fails :
      (trace_id : String) (req : UserContext) (mood : Result String)
      (s : Server F B (GetProductsByFilters F))
      → is_ok mood ≡ false
      → end_of (with_mood env trace_id req mood s).0 ≡ failed_with internal
  unfolding with_mood fails
  with_mood_fails trace_id req (ok mood) s h = absurd (cc)
  with_mood_fails trace_id req (err e) s h = refl

  -- `validated` at what `validateRequest` answers.
  end-validated :
      (req : UserContext) (s : Server F B (GetProductsByFilters F)) (end : End)
      → end_of (fetch_mood env (trace_of env req) req s.auth_client s).0 ≡ end
      → end_of (recommend env req s).0
        ≡ (if req.user_id == "" then failed_with invalid_argument else end)
  unfolding recommend validate_request validated fails
  end-validated req s end h = elim (Bool-cases (req.user_id == "")) [
    | inl none_given ↦ rw (none_given, validated) refl
    | inr given ↦ rw (given, validated) h
  ]

  pub recommend_without_mood :
      (req : UserContext) (s : Server F B (GetProductsByFilters F)) (f : GetUserMood)
      → s.auth_client ≡ client f
      → is_ok (f req.user_id (trace_of env req)) ≡ false
      → end_of (recommend env req s).0
        ≡ (if req.user_id == "" then failed_with invalid_argument else failed_with internal)
  unfolding fetch_mood
  recommend_without_mood req s f c h = end-validated req s (failed_with internal) (
      ap (λ x. end_of (fetch_mood env (trace_of env req) req x s).0) c
      ∙ with_mood_fails (trace_of env req) req (f req.user_id (trace_of env req)) s h)

  pub recommend_nil_pointer :
      (req : UserContext) (s : Server F B (GetProductsByFilters F))
      → s.auth_client ≡ nil_pointer
      → end_of (recommend env req s).0
        ≡ (if req.user_id == "" then failed_with invalid_argument else crashed)
  unfolding fetch_mood
  recommend_nil_pointer req s c =
      end-validated req s crashed (ap (λ x. end_of (fetch_mood env (trace_of env req) req x s).0) c)
