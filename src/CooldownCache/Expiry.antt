-- ===== src/CooldownCache/Expiry.antt =====
-- Which cooldowns the cache reports, and that cleaning it up changes no later answer.
use hernan_pedraza_pi_back.Prelude.{
  ℕ, ◌+◌, ◌≡◌, refl, String, not, Option, none, some, ltb, is_some, passing, lookup-put,
  if◌then◌else◌, inl, inr, Bool-cases,
}
use hernan_pedraza_pi_back.CooldownCache.{
  Cooldown, Cache, entry_of, set_cooldown, expired, read_entry, get_cooldown, test_entry,
  is_on_cooldown,
}

-- Whoever reads only the answers sees this: the entry, while its time has not passed.
abbrev pub reported : ℕ → ℕ → ℕ → Cache → Option Cooldown
reported now e p cache = (get_cooldown now e p cache).0

pub reported_lem :
    (now e p : ℕ) (cache : Cache)
    → reported now e p cache ≡ passing (λ c. not (expired now c)) (entry_of e p cache)
unfolding get_cooldown
reported_lem now e p cache = read (entry_of e p cache)
  where
    read :
        (o : Option Cooldown)
        → (read_entry now e p o cache).0 ≡ passing (λ c. not (expired now c)) o
    read none = refl
    read (some c) = elim (Bool-cases (expired now c)) [ inl over ↦ rw over | inr live ↦ rw live ]

-- isOnCooldown answers whether getCooldown would report an entry, and leaves the same cache.
pub is_on_cooldown-get_cooldown :
    (now e p : ℕ) (cache : Cache)
    → is_on_cooldown now e p cache
      ≡ (is_some (get_cooldown now e p cache).0, (get_cooldown now e p cache).1)
unfolding is_on_cooldown get_cooldown
is_on_cooldown-get_cooldown now e p cache = test (entry_of e p cache)
  where
    test :
        (o : Option Cooldown)
        → test_entry now e p o cache
          ≡ (is_some (read_entry now e p o cache).0, (read_entry now e p o cache).1)
    test none = refl
    test (some c) = elim (Bool-cases (expired now c)) [ inl over ↦ rw over | inr live ↦ rw live ]

entry_of-set_cooldown :
    (now e p duration : ℕ) (reason : String) (cache : Cache)
    → entry_of e p (set_cooldown now e p duration reason cache)
      ≡ some (record { expires_at = now + duration; reason = reason })
unfolding entry_of set_cooldown
entry_of-set_cooldown now e p duration reason cache = rw (lookup-put e, lookup-put p)

-- A cooldown that was set is reported with its reason up to and including the moment when its
-- duration has passed, and from then on nothing is reported.
pub get_cooldown-set_cooldown :
    (now later e p duration : ℕ) (reason : String) (cache : Cache)
    → (get_cooldown later e p (set_cooldown now e p duration reason cache)).0 ≡ (
        if ltb (now + duration) later
        then none
        else some (record { expires_at = now + duration; reason = reason }))
get_cooldown-set_cooldown now later e p duration reason cache =
    let c : Cooldown = record { expires_at = now + duration; reason = reason } in
    let seen = reported_lem later e p (set_cooldown now e p duration reason cache) in
    elim (Bool-cases (expired later c)) [
      | inl over ↦ rw (seen, entry_of-set_cooldown, over)
      | inr live ↦ rw (seen, entry_of-set_cooldown, live)
    ]
