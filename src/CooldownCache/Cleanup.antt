-- ===== src/CooldownCache/Cleanup.antt =====
-- The caches that the methods produce, and what the periodic cleanup does to them.
use hernan_pedraza_pi_back.Prelude.{
  ℕ, ◌≤◌, ◌≡◌, ◌↔◌, refl, ap, String, Bool, true, false, not, Option, none, some, [], ◌∷◌, ◌==◌,
  filter, lookup, put, remove, passing, KeysUnique, lookup-filter, filter-KeysUnique,
  put-KeysUnique, arith, inl, inr, Bool-cases,
}
use hernan_pedraza_pi_back.CooldownCache.{
  Cooldown, Bucket, Cache, bucket_or_empty, entry_in, entry_of, set_cooldown, clear_in,
  clear_cooldown, expired, read_entry, get_cooldown, is_on_cooldown, clear_event_cooldowns,
  clear_all, alive, is_filled, swept, cleanup,
}
use hernan_pedraza_pi_back.CooldownCache.Expiry.{reported_lem, is_on_cooldown-get_cooldown}

-- The caches that calls of the methods lead to, at any times, from the empty one.
pub data Reached : Cache → Type 0 where
  start : Reached []
  set :
      {c : Cache} (now e p duration : ℕ) (reason : String)
      → Reached c
      → Reached (set_cooldown now e p duration reason c)
  read : {c : Cache} (now e p : ℕ) → Reached c → Reached (get_cooldown now e p c).1
  test : {c : Cache} (now e p : ℕ) → Reached c → Reached (is_on_cooldown now e p c).1
  clear : {c : Cache} (e p : ℕ) → Reached c → Reached (clear_cooldown e p c)
  clear_event : {c : Cache} (e : ℕ) → Reached c → Reached (clear_event_cooldowns e c)
  reset : {c : Cache} → Reached c → Reached (clear_all c)
  clean : {c : Cache} (now : ℕ) → Reached c → Reached (cleanup now c)

-- No event occurs twice, and no attendee twice in an event.
abbrev BucketsUnique : Cache → Type 0
BucketsUnique [] = Unit
BucketsUnique ((e, b) ∷ rest) = KeysUnique b × BucketsUnique rest

abbrev pub WellKeyed : Cache → Type 0
WellKeyed c = KeysUnique c × BucketsUnique c

abbrev FoundUnique : Option Bucket → Type 0
FoundUnique none = Unit
FoundUnique (some b) = KeysUnique b

lookup-FoundUnique : (e : ℕ) (c : Cache) → BucketsUnique c → FoundUnique (lookup e c)
lookup-FoundUnique e [] u = tt
lookup-FoundUnique e ((j, b) ∷ rest) (here, u) = elim (Bool-cases (j == e)) [
  | inl same ↦ rw same here
  | inr other ↦ rw other (lookup-FoundUnique e rest u)
]

put-BucketsUnique :
    (e : ℕ) (b : Bucket) (c : Cache) → KeysUnique b → BucketsUnique c → BucketsUnique (put e b c)
put-BucketsUnique e b [] fresh u = (fresh, tt)
put-BucketsUnique e b ((j, d) ∷ rest) fresh (here, u) = elim (Bool-cases (j == e)) [
  | inl same ↦ rw same (fresh, u)
  | inr other ↦ rw other (here, put-BucketsUnique e b rest fresh u)
]

filter-BucketsUnique :
    (q : ℕ × Bucket → Bool) (c : Cache) → BucketsUnique c → BucketsUnique (filter q c)
filter-BucketsUnique q [] u = tt
filter-BucketsUnique q ((j, b) ∷ rest) (here, u) = elim (Bool-cases (q (j, b))) [
  | inl kept ↦ rw kept (here, filter-BucketsUnique q rest u)
  | inr gone ↦ rw gone (filter-BucketsUnique q rest u)
]

put-WellKeyed :
    (e : ℕ) (b : Bucket) (c : Cache) → KeysUnique b → WellKeyed c → WellKeyed (put e b c)
put-WellKeyed e b c fresh (keys, buckets) =
    (put-KeysUnique e b c keys, put-BucketsUnique e b c fresh buckets)

filter-WellKeyed : (q : ℕ × Bucket → Bool) (c : Cache) → WellKeyed c → WellKeyed (filter q c)
filter-WellKeyed q c (keys, buckets) =
    (filter-KeysUnique q c keys, filter-BucketsUnique q c buckets)

bucket_or_empty-KeysUnique : (o : Option Bucket) → FoundUnique o → KeysUnique (bucket_or_empty o)
bucket_or_empty-KeysUnique none u = tt
bucket_or_empty-KeysUnique (some b) u = u

clear_cooldown-WellKeyed : (e p : ℕ) (c : Cache) → WellKeyed c → WellKeyed (clear_cooldown e p c)
unfolding clear_cooldown
clear_cooldown-WellKeyed e p c w = in_bucket (lookup e c) (lookup-FoundUnique e c w.1)
  where
    in_bucket : (o : Option Bucket) → FoundUnique o → WellKeyed (clear_in e p o c)
    in_bucket none u = w
    in_bucket (some b) u =
        put-WellKeyed e (remove p b) c (filter-KeysUnique (λ x. not (x.0 == p)) b u) w

get_cooldown-WellKeyed :
    (now e p : ℕ) (c : Cache) → WellKeyed c → WellKeyed (get_cooldown now e p c).1
unfolding get_cooldown
get_cooldown-WellKeyed now e p c w = after (entry_of e p c)
  where
    after : (o : Option Cooldown) → WellKeyed (read_entry now e p o c).1
    after none = w
    after (some x) = elim (Bool-cases (expired now x)) [
      | inl over ↦ rw over (clear_cooldown-WellKeyed e p c w)
      | inr live ↦ rw live w
    ]

swept_keeps_missing : (now k : ℕ) (c : Cache) → lookup k c ≡ none → lookup k (swept now c) ≡ none
swept_keeps_missing now k [] missing = refl
swept_keeps_missing now k ((j, b) ∷ rest) missing = elim (Bool-cases (j == k)) [
  | inl same ↦ cc (rw same at missing)
  | inr other ↦ rw other (swept_keeps_missing now k rest (rw other at missing))
]

swept-WellKeyed : (now : ℕ) (c : Cache) → WellKeyed c → WellKeyed (swept now c)
swept-WellKeyed now [] w = (tt, tt)
swept-WellKeyed now ((e, b) ∷ rest) ((fresh, keys), (here, buckets)) =
    let (ks, bs) = swept-WellKeyed now rest (keys, buckets) in
    ((swept_keeps_missing now e rest fresh, ks), (filter-KeysUnique (alive now) b here, bs))

-- Whatever methods have been called on the empty cache, no event occurs in it twice and no
-- attendee twice in an event.
pub Reached-WellKeyed : {c : Cache} → Reached c → WellKeyed c
unfolding set_cooldown is_on_cooldown clear_event_cooldowns clear_all cleanup
Reached-WellKeyed start = (tt, tt)
Reached-WellKeyed (set {c} now e p duration reason r) =
    let w = Reached-WellKeyed r in
    put-WellKeyed e _ c
      (put-KeysUnique p _ (bucket_or_empty (lookup e c))
        (bucket_or_empty-KeysUnique (lookup e c) (lookup-FoundUnique e c w.1)))
      w
Reached-WellKeyed (read {c} now e p r) = get_cooldown-WellKeyed now e p c (Reached-WellKeyed r)
Reached-WellKeyed (test {c} now e p r) =
    rw (is_on_cooldown-get_cooldown now e p c)
      (get_cooldown-WellKeyed now e p c (Reached-WellKeyed r))
Reached-WellKeyed (clear {c} e p r) = clear_cooldown-WellKeyed e p c (Reached-WellKeyed r)
Reached-WellKeyed (clear_event {c} e r) =
    filter-WellKeyed (λ x. not (x.0 == e)) c (Reached-WellKeyed r)
Reached-WellKeyed (reset r) = (tt, tt)
Reached-WellKeyed (clean {c} now r) =
    filter-WellKeyed (λ x. is_filled x.1) (swept now c)
      (swept-WellKeyed now c (Reached-WellKeyed r))

abbrev live_part : ℕ → Option Bucket → Option Bucket
live_part now none = none
live_part now (some b) = some (filter (alive now) b)

lookup-swept : (now e : ℕ) (c : Cache) → lookup e (swept now c) ≡ live_part now (lookup e c)
lookup-swept now e [] = refl
lookup-swept now e ((j, b) ∷ rest) = elim (Bool-cases (j == e)) [
  | inl same ↦ rw same
  | inr other ↦ rw other (lookup-swept now e rest)
]

-- An event without entries and no event answer alike.
entry_in-filled : (p : ℕ) (o : Option Bucket) → entry_in p (passing is_filled o) ≡ entry_in p o
entry_in-filled p none = refl
entry_in-filled p (some []) = refl
entry_in-filled p (some (x ∷ b)) = refl

entry_in-live_part :
    (now p : ℕ) (o : Option Bucket)
    → FoundUnique o
    → entry_in p (live_part now o) ≡ passing (λ c. not (expired now c)) (entry_in p o)
entry_in-live_part now p none u = refl
entry_in-live_part now p (some b) u = lookup-filter (λ c. not (expired now c)) p b u

entry_of-cleanup :
    (now e p : ℕ) (c : Cache)
    → WellKeyed c
    → entry_of e p (cleanup now c) ≡ passing (λ x. not (expired now x)) (entry_of e p c)
unfolding entry_of cleanup
entry_of-cleanup now e p c w =
    rw
      (
        lookup-filter is_filled e (swept now c) (swept-WellKeyed now c w).0,
        entry_in-filled p,
        lookup-swept now e c,
      )
      (entry_in-live_part now p (lookup e c) (lookup-FoundUnique e c w.1))

-- What has expired once stays expired.
passing_later :
    (now later : ℕ) (o : Option Cooldown)
    → now ≤ later
    → passing (λ x. not (expired later x)) (passing (λ x. not (expired now x)) o)
      ≡ passing (λ x. not (expired later x)) o
passing_later now later none h = refl
passing_later now later (some c) h = elim (Bool-cases (expired now c)) [
  | inl over ↦ let still : expired later c ≡ true = (ground (arith, over, h)) in rw (over, still)
  | inr live ↦ rw live
]

-- The periodic cleanup changes no answer that getCooldown gives from then on: of a cache that the
-- methods have produced, the cleaned copy reports the same entries at the time of the cleanup and
-- at any later time.
pub cleanup-get_cooldown :
    {c : Cache}
    → Reached c
    → (now later e p : ℕ) → now ≤ later
    → (get_cooldown later e p (cleanup now c)).0 ≡ (get_cooldown later e p c).0
cleanup-get_cooldown {c} r now later e p h =
    rw
      (
        reported_lem later e p (cleanup now c),
        reported_lem later e p c,
        entry_of-cleanup now e p c (Reached-WellKeyed r),
      )
      (passing_later now later (entry_of e p c) h)

-- After the cleanup every entry that is stored is one whose time has not passed, and every entry
-- whose time has not passed is still stored, in a cache that the methods have produced.
pub cleanup-entry_of :
    {c : Cache}
    → Reached c
    → (now e p : ℕ) (x : Cooldown)
    → (entry_of e p (cleanup now c) ≡ some x) ↔ ((entry_of e p c ≡ some x) × (now ≤ x.expires_at))
cleanup-entry_of {c} r now e p x =
    rw (entry_of-cleanup now e p c (Reached-WellKeyed r)) (kept (entry_of e p c))
  where
    too_late : (y : Cooldown) → expired now y ≡ true → ¬ ((some y ≡ some x) × (now ≤ x.expires_at))
    too_late y over (same, later) =
        let both : y ≡ x = (cc same) in
        let at : y.expires_at ≡ x.expires_at = ap (λ (z : Cooldown). z.expires_at) both in
        ground (arith, at, over, later)

    in_time : (y : Cooldown) → expired now y ≡ false → some y ≡ some x → now ≤ x.expires_at
    in_time y live same =
        let both : y ≡ x = (cc same) in
        let at : y.expires_at ≡ x.expires_at = ap (λ (z : Cooldown). z.expires_at) both in
        ground (arith, at, live)

    kept :
        (o : Option Cooldown)
        → (passing (λ x. not (expired now x)) o ≡ some x) ↔ ((o ≡ some x) × (now ≤ x.expires_at))
    kept none = (λ h. cc h, λ h. cc (h.0))
    kept (some y) = elim (Bool-cases (expired now y)) [
      | inl over ↦ rw over (λ h. cc h, λ h. absurd (too_late y over h))
      | inr live ↦ rw live (λ same. (same, in_time y live same), λ h. h.0)
    ]
