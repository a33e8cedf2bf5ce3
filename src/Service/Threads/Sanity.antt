-- ===== src/Service/Threads/Sanity.antt =====
-- What stays true of the server under every interleaving of the threads.
use ctse_mood_rule_service.Common.{◌≡◌, refl, ◌∙◌, IsMap}
use ctse_mood_rule_service.Common.Int.{ℤ}
use ctse_mood_rule_service.Float.{Float64}
use ctse_mood_rule_service.Engine.{RuleStore, new_rule_engine, load, build_index}
use ctse_mood_rule_service.Engine.Index.{IsIndexed, load-IsIndexed, new_rule_engine-IsIndexed}
use ctse_mood_rule_service.Cache.{new_memory_cache}
use ctse_mood_rule_service.Cache.Entries.{remove_expired-IsMap, invalidate_by_pattern-IsMap}
use ctse_mood_rule_service.Server.{Server}
use ctse_mood_rule_service.Server.Recommend.{GetProductsByFilters}
use ctse_mood_rule_service.Server.Recommend.Stepwise.Progress.{advance-Leaves}
use ctse_mood_rule_service.Service.Reachable.{IsSane}
use ctse_mood_rule_service.Service.Threads.{
  UpdatePc, published, queried, counted, installed, updated, install, invalidate, advance_update,
  Thread, idle, recommends, updates, System, advance_thread, Happens, arrives, is_published, moves,
  changes, ticks, Reaches, at_start, followed_by,
}

-- The server is sane if it was, and has the clients that it had.
pub record Keeps {F B P : Type 0} (s s' : Server F B P) : Type 0 where
  pub sane : IsSane s → IsSane s'
  pub auth_client : s'.auth_client ≡ s.auth_client
  pub product_client : s'.product_client ≡ s.product_client

module _ {F B P : Type 0} where
  pub Keeps-all : (s : Server F B P) → Keeps s s
  Keeps-all s = record { sane = λ h. h; auth_client = refl; product_client = refl }

  pub advance_update-Keeps :
      (store : RuleStore F) (pc : UpdatePc F) (s : Server F B P)
      → Keeps s (advance_update store pc s).1
  unfolding advance_update install invalidate build_index
  advance_update-Keeps store (counted rules version) s = record {
    sane = λ h. record { indexed = refl; one_entry = h.one_entry };
    auth_client = refl;
    product_client = refl;
  }
  advance_update-Keeps store installed s = record {
    sane = λ h. record {
      indexed = h.indexed;
      one_entry = invalidate_by_pattern-IsMap "*" s.cache h.one_entry;
    };
    auth_client = refl;
    product_client = refl;
  }
  advance_update-Keeps store published s = Keeps-all s
  advance_update-Keeps store (queried rules) s = Keeps-all s
  advance_update-Keeps store (updated answer) s = Keeps-all s

module _ {F B : Type 0} ⦃fl : Float64 F⦄ where
  advance_thread-Keeps :
      (store : RuleStore F) (thread : Thread F B) (s : Server F B (GetProductsByFilters F))
      → Keeps s (advance_thread store thread s).1
  unfolding advance_thread
  advance_thread-Keeps store idle s = Keeps-all s
  advance_thread-Keeps store (updates pc) s = advance_update-Keeps store pc s
  advance_thread-Keeps store (recommends env req pc) s =
      let h = advance-Leaves env req pc s in
      record {
        sane = λ sane. record {
          indexed = rw h.engine sane.indexed;
          one_entry = h.one_entry sane.one_entry;
        };
        auth_client = h.auth_client;
        product_client = h.product_client;
      }

  Happens-Keeps : (s t : System F B) → Happens s t → Keeps s.server t.server
  Happens-Keeps s t (arrives i env req h) = Keeps-all s.server
  Happens-Keeps s t (is_published i h) = Keeps-all s.server
  Happens-Keeps s t (moves i) = advance_thread-Keeps s.database (s.threads i) s.server
  Happens-Keeps s t (changes store) = Keeps-all s.server
  Happens-Keeps s t (ticks now) = record {
    sane = λ h. record {
      indexed = h.indexed;
      one_entry = remove_expired-IsMap now s.server.cache h.one_entry;
    };
    auth_client = refl;
    product_client = refl;
  }

  pub Reaches-Keeps : (s t : System F B) → Reaches s t → Keeps s.server t.server
  Reaches-Keeps s t at_start = Keeps-all s.server
  Reaches-Keeps s u (followed_by {t} before now) =
      let first = Reaches-Keeps s t before in
      let second = Happens-Keeps t u now in
      record {
        sane = λ h. second.sane (first.sane h);
        auth_client = second.auth_client ∙ first.auth_client;
        product_client = second.product_client ∙ first.product_client;
      }

  -- However the steps of the requests and of the attempts to update the rules interleave with changes
  -- of the database and clean-ups of the cache, on a server that was started on the rules of some store
  -- with an empty cache: the index of the engine is that of its rules, the cache holds each key once,
  -- and the server has the clients that it was started with. The first two are the conditions of the
  -- theorems on `Evaluate` and on the cache.
  pub threads-IsSane :
      (store : RuleStore F) (ttl : ℤ) (s t : System F B)
      → s.server.engine ≡ (load store new_rule_engine).0
      → s.server.cache ≡ new_memory_cache ttl
      → Reaches s t
      → IsIndexed t.server.engine
        × IsMap t.server.cache.store
        × (t.server.auth_client ≡ s.server.auth_client)
        × (t.server.product_client ≡ s.server.product_client)
  unfolding new_memory_cache
  threads-IsSane store ttl s t engine cache reached =
      let start : IsSane s.server = record {
        indexed = rw engine (load-IsIndexed store new_rule_engine new_rule_engine-IsIndexed);
        one_entry = rw cache tt;
      } in
      let keeps = Reaches-Keeps s t reached in
      let sane = keeps.sane start in
      (sane.indexed, sane.one_entry, keeps.auth_client, keeps.product_client)
