-- ===== src/Service/Threads/Loading.antt =====
-- Where the rules and the version of the engine come from, under every interleaving of the threads.
use ctse_mood_rule_service.Common.{
  ℕ, eqb, ◌≡◌, refl, ◌⊎◌, inl, inr, List, Result, ok, err, Bool-cases,
}
use ctse_mood_rule_service.Common.Int.{ℤ}
use ctse_mood_rule_service.Float.{Float64}
use ctse_mood_rule_service.Model.{Rule}
use ctse_mood_rule_service.Engine.{RuleEngine, build_index}
use ctse_mood_rule_service.Engine.Index.{IsIndexed}
use ctse_mood_rule_service.Server.Recommend.Stepwise.{arrived}
use ctse_mood_rule_service.Server.Recommend.Stepwise.Progress.{advance-Leaves}
use ctse_mood_rule_service.Service.Threads.{
  UpdatePc, published, queried, counted, installed, updated, got_rules, got_version, install,
  invalidate, advance_update, Thread, idle, recommends, updates, System, put, advance_thread,
  Happens, arrives, is_published, moves, changes, ticks, Reaches, at_start, followed_by,
}

-- What holds of a new value and of all others holds of the family with that value.
pub put-all :
    {A : Type 0} (P : A → Type 0) (i j : ℕ) (a : A) (f : ℕ → A) → P a → P (f j) → P (put i a f j)
unfolding put
put-all P i j a f new old = elim (Bool-cases (eqb i j)) [
  | inl same ↦ rw same new
  | inr other ↦ rw other old
]

module _ {F B : Type 0} ⦃fl : Float64 F⦄ where
  unfoldable pub and_then : (s t u : System F B) → Reaches s t → Reaches t u → Reaches s u
  and_then s t u first at_start = first
  and_then s t u first (followed_by {t = w} before now) =
      followed_by (and_then s t w first before) now

  -- Between `s` and `t` the database answered these rules.
  pub record Queried (s t : System F B) (rules : List (Rule F)) : Type 0 where
    pub then_state : System F B
    pub before : Reaches s then_state
    pub since : Reaches then_state t
    pub rules_of : then_state.database.get_all_active_rules ≡ ok rules

  -- Between `s` and `t` the database answered these rules, and then, or later, this version.
  pub record Counted (s t : System F B) (rules : List (Rule F)) (version : ℤ) : Type 0 where
    pub then_state : System F B
    pub queried : Queried s then_state rules
    pub since : Reaches then_state t
    pub version_of : then_state.database.get_max_version ≡ ok version

  -- The engine is that of `s`, or the index of rules that the database answered on the way from `s` to
  -- `t`, with a version that it answered after them.
  abbrev pub FromDatabase : System F B → System F B → RuleEngine F → Type 0
  FromDatabase s t e = (e ≡ s.server.engine) ⊎ (Counted s t e.rules e.version × IsIndexed e)

  abbrev UpdateKnows : System F B → System F B → UpdatePc F → Type 0
  UpdateKnows s t published = Unit {0}
  UpdateKnows s t (queried rules) = Queried s t rules
  UpdateKnows s t (counted rules version) = Counted s t rules version
  UpdateKnows s t installed = Unit {0}
  UpdateKnows s t (updated answer) = Unit {0}

  abbrev Knows : System F B → System F B → Thread F B → Type 0
  Knows s t idle = Unit {0}
  Knows s t (recommends env req pc) = Unit {0}
  Knows s t (updates pc) = UpdateKnows s t pc

  -- What is known stays known.
  Queried-later :
      (s t u : System F B) (rules : List (Rule F))
      → Reaches t u
      → Queried s t rules
      → Queried s u rules
  Queried-later s t u rules later h = record {
    then_state = h.then_state;
    before = h.before;
    since = and_then h.then_state t u h.since later;
    rules_of = h.rules_of;
  }

  Counted-later :
      (s t u : System F B) (rules : List (Rule F)) (version : ℤ)
      → Reaches t u
      → Counted s t rules version
      → Counted s u rules version
  Counted-later s t u rules version later h = record {
    then_state = h.then_state;
    queried = h.queried;
    since = and_then h.then_state t u h.since later;
    version_of = h.version_of;
  }

  pub FromDatabase-later :
      (s t u : System F B) (e : RuleEngine F)
      → Reaches t u
      → FromDatabase s t e
      → FromDatabase s u e
  FromDatabase-later s t u e later (inl same) = inl same
  FromDatabase-later s t u e later (inr (h, indexed)) =
      inr (Counted-later s t u e.rules e.version later h, indexed)

  Knows-later :
      (s t u : System F B) (thread : Thread F B) → Reaches t u → Knows s t thread → Knows s u thread
  Knows-later s t u idle later h = tt
  Knows-later s t u (recommends env req pc) later h = tt
  Knows-later s t u (updates published) later h = tt
  Knows-later s t u (updates (queried rules)) later h = Queried-later s t u rules later h
  Knows-later s t u (updates (counted rules version)) later h =
      Counted-later s t u rules version later h
  Knows-later s t u (updates installed) later h = tt
  Knows-later s t u (updates (updated answer)) later h = tt

  got_rules-Knows :
      (s t : System F B) (answer : Result (List (Rule F)))
      → Reaches s t
      → t.database.get_all_active_rules ≡ answer
      → UpdateKnows s t (got_rules answer)
  unfolding got_rules
  got_rules-Knows s t (err x) r e = tt
  got_rules-Knows s t (ok rules) r e = record {
    then_state = t;
    before = r;
    since = at_start;
    rules_of = e;
  }

  got_version-Knows :
      (s t : System F B) (rules : List (Rule F)) (answer : Result ℤ)
      → Queried s t rules
      → t.database.get_max_version ≡ answer
      → UpdateKnows s t (got_version rules answer)
  unfolding got_version
  got_version-Knows s t rules (err x) h e = tt
  got_version-Knows s t rules (ok version) h e = record {
    then_state = t;
    queried = h;
    since = at_start;
    version_of = e;
  }

  -- A step of an attempt, at the database of `t`.
  update-Knows :
      (s t : System F B) (pc : UpdatePc F)
      → Reaches s t
      → UpdateKnows s t pc
      → FromDatabase s t t.server.engine
      → UpdateKnows s t (advance_update t.database pc t.server).0
        × FromDatabase s t (advance_update t.database pc t.server).1.engine
  unfolding advance_update install invalidate build_index
  update-Knows s t published r h e = (got_rules-Knows s t t.database.get_all_active_rules r refl, e)
  update-Knows s t (queried rules) r h e =
      (got_version-Knows s t rules t.database.get_max_version h refl, e)
  update-Knows s t (counted rules version) r h e = (tt, inr (h, refl))
  update-Knows s t installed r h e = (tt, e)
  update-Knows s t (updated answer) r h e = (tt, e)

  thread-Knows :
      (s t : System F B) (thread : Thread F B)
      → Reaches s t
      → Knows s t thread
      → FromDatabase s t t.server.engine
      → Knows s t (advance_thread t.database thread t.server).0
        × FromDatabase s t (advance_thread t.database thread t.server).1.engine
  unfolding advance_thread
  thread-Knows s t idle r h e = (tt, e)
  thread-Knows s t (recommends env req pc) r h e =
      (tt, let same = (advance-Leaves env req pc t.server).engine in rw same e)
  thread-Knows s t (updates pc) r h e = update-Knows s t pc r h e

  -- What is known of a whole state.
  abbrev Known : System F B → System F B → System F B → Type 0
  Known s t u = FromDatabase s t u.server.engine × ((i : ℕ) → Knows s t (u.threads i))

  Happens-Known : (s t u : System F B) → Reaches s t → Happens t u → Known s t t → Known s t u
  Happens-Known s t u r (arrives j env req idle_before) (engine, threads) =
      (engine, λ i. put-all (Knows s t) j i (recommends env req arrived) t.threads tt (threads i))
  Happens-Known s t u r (is_published j idle_before) (engine, threads) =
      (engine, λ i. put-all (Knows s t) j i (updates published) t.threads tt (threads i))
  Happens-Known s t u r (moves j) (engine, threads) =
      let (thread, engine') = thread-Knows s t (t.threads j) r (threads j) engine in
      (
        engine',
        λ i.
            put-all (Knows s t) j i (advance_thread t.database (t.threads j) t.server).0 t.threads
              thread (threads i),
      )
  Happens-Known s t u r (changes store) k = k
  Happens-Known s t u r (ticks now) k = k

  Reaches-Known : (s t : System F B) → ((i : ℕ) → s.threads i ≡ idle) → Reaches s t → Known s t t
  Reaches-Known s t all_idle at_start = (inl refl, λ i. rw (all_idle i) tt)
  Reaches-Known s u all_idle (followed_by {t} before now) =
      let (engine, threads) = Happens-Known s t u before now (Reaches-Known s t all_idle before) in
      let later = followed_by at_start now in
      (
        FromDatabase-later s t u u.server.engine later engine,
        λ i. Knows-later s t u (u.threads i) later (threads i),
      )

  -- In every state that the service reaches from one in which no thread has started, the engine is the
  -- one at the start; or there was a moment since the start at which the database answered its rules, a
  -- moment then or later, but not after the present, at which it answered its version, and its index is
  -- that of its rules.
  pub engine-FromDatabase :
      (s t : System F B)
      → ((i : ℕ) → s.threads i ≡ idle)
      → Reaches s t
      → FromDatabase s t t.server.engine
  engine-FromDatabase s t all_idle r = (Reaches-Known s t all_idle r).0
