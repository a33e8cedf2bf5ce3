-- ===== src/Server/Recommend/Stepwise/Progress.antt =====
-- What the steps of a request leave alone.
use ctse_mood_rule_service.Common.{◌≡◌, refl, IsMap}
use ctse_mood_rule_service.Float.{Float64}
use ctse_mood_rule_service.Cache.Entries.{set-IsMap}
use ctse_mood_rule_service.Server.{UserContext, Server}
use ctse_mood_rule_service.Server.Recommend.{GetProductsByFilters, Surroundings}
use ctse_mood_rule_service.Server.Recommend.Stepwise.{
  Pc, arrived, fetched, keyed, missed, evaluated, storing, replied, advance,
}

-- What a step of a request leaves of the server.
pub record Leaves {F B : Type 0} (s s' : Server F B (GetProductsByFilters F)) : Type 0 where
  pub engine : s'.engine ≡ s.engine
  pub auth_client : s'.auth_client ≡ s.auth_client
  pub product_client : s'.product_client ≡ s.product_client
  pub one_entry : IsMap s.cache.store → IsMap s'.cache.store

Leaves-all : {F B : Type 0} (s : Server F B (GetProductsByFilters F)) → Leaves s s
Leaves-all s = record {
  engine = refl;
  auth_client = refl;
  product_client = refl;
  one_entry = λ h. h;
}

module _ {F B : Type 0} ⦃fl : Float64 F⦄ (env : Surroundings F B) (req : UserContext) where
  pub advance-Leaves :
      (pc : Pc F) (s : Server F B (GetProductsByFilters F)) → Leaves s (advance env req pc s).1
  unfolding advance
  advance-Leaves (storing key r) s = record {
    engine = refl;
    auth_client = refl;
    product_client = refl;
    one_entry = set-IsMap env.json env.cache_set_time key r s.cache;
  }
  advance-Leaves arrived s = Leaves-all s
  advance-Leaves (fetched mood) s = Leaves-all s
  advance-Leaves (keyed mood key) s = Leaves-all s
  advance-Leaves (missed mood key) s = Leaves-all s
  advance-Leaves (evaluated key rules stats) s = Leaves-all s
  advance-Leaves (replied reply) s = Leaves-all s
