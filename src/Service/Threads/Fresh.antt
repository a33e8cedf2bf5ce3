-- ===== src/Service/Threads/Fresh.antt =====
-- How old the rules behind a response may be, under every interleaving of the threads.
use ctse_mood_rule_service.Common.{false, ◌≡◌}
use ctse_mood_rule_service.Common.Int.{gtb_ℤ}
use ctse_mood_rule_service.Float.{Float64}
use ctse_mood_rule_service.Engine.{RuleEngine}
use ctse_mood_rule_service.Cache.{CacheKey}
use ctse_mood_rule_service.Service.Threads.{System}
use ctse_mood_rule_service.Service.Threads.Loading.{FromDatabase}
use ctse_mood_rule_service.Service.Threads.Versions.{IsFresh}

-- The key's version is no older than the engine.
abbrev pub IsSince : {F : Type 0} → RuleEngine F → CacheKey → Type 0
IsSince e key = gtb_ℤ e.version key.rule_version ≡ false

module _ {F B : Type 0} ⦃fl : Float64 F⦄ where
  -- What is asked of the engine behind a response.
  abbrev pub IsKnown : System F B → System F B → CacheKey → RuleEngine F → Type 0
  IsKnown s t key e = FromDatabase s t e × IsFresh key e
