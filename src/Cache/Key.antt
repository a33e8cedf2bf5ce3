-- ===== src/Cache/Key.antt =====
-- When two cache keys are one string.
use Prim.Native.Char.{Char, code}
use Prim.Native.String.{◌++◌}
use Prim.Native.String as S
use text.Mathlib.TextLemmas.{
  cons-append, nil-append, append_assoc, append_cancel_left, head-eq_of_cons-eq, tail-eq_of_cons-eq,
}
use ctse_mood_rule_service.Common.{String, ◌≡◌, ◌≢◌, refl, sym, ◌∙◌, ap}
use mathlib.Core.Path.{ap₂}
use ctse_mood_rule_service.Common.Decimal.{format_int-injective}
use ctse_mood_rule_service.Cache.{CacheKey, key_string, cache_key_prefix}

-- The text holds no colon.
abbrev pub NoColon : String → Type 0
NoColon S.[] = Unit
NoColon (S.◌∷◌ c s) = (code c ≢ b':') × NoColon s

-- A text that begins as `c s` and is also `: r` has the colon for its first character.
first_is_colon : (c : Char) (s r : String) → S.◌∷◌ c s ≡ ":" ++ r → code c ≡ b':'
first_is_colon c s r e = ap code (head-eq_of_cons-eq (e ∙ cons-append ":" "" r))

-- The text up to the first colon, and the text behind it, are determined.
split_at_colon :
    (a b r s : String)
    → NoColon a
    → NoColon b
    → a ++ (":" ++ r) ≡ b ++ (":" ++ s)
    → (a ≡ b) × (r ≡ s)
split_at_colon S.[] S.[] r s h k e =
    (refl, append_cancel_left ":" r s (sym (nil-append (":" ++ r)) ∙ e ∙ nil-append (":" ++ s)))
split_at_colon S.[] (S.◌∷◌ d b) r s h k e = absurd (
    k.0 (
      first_is_colon d (b ++ (":" ++ s)) r
        (sym (cons-append d b (":" ++ s)) ∙ sym e ∙ nil-append (":" ++ r))))
split_at_colon (S.◌∷◌ c a) S.[] r s h k e = absurd (
    h.0 (
      first_is_colon c (a ++ (":" ++ r)) s
        (sym (cons-append c a (":" ++ r)) ∙ e ∙ nil-append (":" ++ s))))
split_at_colon (S.◌∷◌ c a) (S.◌∷◌ d b) r s h k e =
    let e' = sym (cons-append c a (":" ++ r)) ∙ e ∙ cons-append d b (":" ++ s) in
    let (tails, rests) = split_at_colon a b r s h.1 k.1 (tail-eq_of_cons-eq e') in
    (ap₂ S.◌∷◌ (head-eq_of_cons-eq e') tails, rests)

-- None of the four texts of the key holds a colon.
pub record IsPlain (k : CacheKey) : Type 0 where
  pub mood : NoColon k.mood
  pub time_of_day : NoColon k.time_of_day
  pub weather : NoColon k.weather
  pub segment : NoColon k.segment

version_part : (n : String) → ":v" ++ n ≡ ":" ++ ("v" ++ n)
version_part n = append_assoc ":" "v" n

-- Two keys whose texts hold no colon have one string only if they are one key.
pub key_string-injective :
    (j k : CacheKey) → IsPlain j → IsPlain k → key_string j ≡ key_string k → j ≡ k
unfolding key_string
key_string-injective j k p q e =
    let (mood, e₁) =
      split_at_colon j.mood k.mood _ _ p.mood q.mood (append_cancel_left cache_key_prefix _ _ e) in
    let (time, e₂) =
      split_at_colon j.time_of_day k.time_of_day _ _ p.time_of_day q.time_of_day e₁ in
    let (weather, e₃) = split_at_colon j.weather k.weather _ _ p.weather q.weather e₂ in
    let (segment, e₄) =
      split_at_colon j.segment k.segment _ _ p.segment q.segment
        (rw (← version_part, ← version_part) e₃) in
    let version =
      format_int-injective j.rule_version k.rule_version (append_cancel_left "v" _ _ e₄) in
    λ i. record {
      mood = mood i;
      time_of_day = time i;
      weather = weather i;
      segment = segment i;
      rule_version = version i;
    }

-- A colon moves from one text to the next with no change of the key's string, so different keys
-- share an entry.
pub key_string_collides :
    (k : CacheKey) (a b c : String)
    → key_string (record k { mood = a ++ (":" ++ b); time_of_day = c })
      ≡ key_string (record k { mood = a; time_of_day = b ++ (":" ++ c) })
unfolding key_string
key_string_collides k a b c = simp append_assoc
