-- ===== src/CooldownCache.antt =====
-- src/utils/cooldown-cache.js: the cooldowns that are kept in memory, by event and attendee. The
-- nested objects are maps by number; a method receives the time of its Date.now() as `now`.
pub mod Expiry
pub mod Cleanup
use hernan_pedraza_pi_back.Prelude.{
  ℕ, ◌+◌, String, Bool, true, false, not, Option, none, some, List, [], ◌∷◌, ltb, filter, lookup,
  put, remove, is_some, if◌then◌else◌,
}

pub record Cooldown : Type 0 where
  pub expires_at : ℕ
  pub reason : String

abbrev pub Bucket : Type 0
Bucket = List (ℕ × Cooldown)

abbrev pub Cache : Type 0
Cache = List (ℕ × Bucket)

-- `this.cache[eventId] || {}`
abbrev pub bucket_or_empty : Option Bucket → Bucket
bucket_or_empty none = []
bucket_or_empty (some b) = b

abbrev pub entry_in : ℕ → Option Bucket → Option Cooldown
entry_in p none = none
entry_in p (some b) = lookup p b

-- `this.cache[eventId] && this.cache[eventId][participantId]`
unfoldable pub entry_of : ℕ → ℕ → Cache → Option Cooldown
entry_of e p cache = entry_in p (lookup e cache)

unfoldable pub set_cooldown : ℕ → ℕ → ℕ → ℕ → String → Cache → Cache
set_cooldown now e p duration reason cache =
    put e
      (put p (record { expires_at = now + duration; reason = reason })
        (bucket_or_empty (lookup e cache)))
      cache

abbrev pub clear_in : ℕ → ℕ → Option Bucket → Cache → Cache
clear_in e p none cache = cache
clear_in e p (some b) cache = put e (remove p b) cache

unfoldable pub clear_cooldown : ℕ → ℕ → Cache → Cache
clear_cooldown e p cache = clear_in e p (lookup e cache) cache

abbrev pub expired : ℕ → Cooldown → Bool
expired now c = ltb c.expires_at now

-- An entry that is read after its time is deleted.
abbrev pub read_entry : ℕ → ℕ → ℕ → Option Cooldown → Cache → Option Cooldown × Cache
read_entry now e p none cache = (none, cache)
read_entry now e p (some c) cache =
    if expired now c then (none, clear_cooldown e p cache) else (some c, cache)

unfoldable pub get_cooldown : ℕ → ℕ → ℕ → Cache → Option Cooldown × Cache
get_cooldown now e p cache = read_entry now e p (entry_of e p cache) cache

abbrev pub test_entry : ℕ → ℕ → ℕ → Option Cooldown → Cache → Bool × Cache
test_entry now e p none cache = (false, cache)
test_entry now e p (some c) cache =
    if expired now c then (false, clear_cooldown e p cache) else (true, cache)

unfoldable pub is_on_cooldown : ℕ → ℕ → ℕ → Cache → Bool × Cache
is_on_cooldown now e p cache = test_entry now e p (entry_of e p cache) cache

unfoldable pub clear_event_cooldowns : ℕ → Cache → Cache
clear_event_cooldowns e cache = remove e cache

unfoldable pub clear_all : Cache → Cache
clear_all cache = []

abbrev pub alive : ℕ → ℕ × Cooldown → Bool
alive now x = not (expired now x.1)

abbrev pub is_filled : Bucket → Bool
is_filled [] = false
is_filled (x ∷ xs) = true

-- The expired entries go, then the events without entries.
abbrev pub swept : ℕ → Cache → Cache
swept now [] = []
swept now ((e, b) ∷ rest) = (e, filter (alive now) b) ∷ swept now rest

unfoldable pub cleanup : ℕ → Cache → Cache
cleanup now cache = filter (λ x. is_filled x.1) (swept now cache)
