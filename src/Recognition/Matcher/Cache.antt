-- ===== src/Recognition/Matcher/Cache.antt =====
-- src/services/audio-recognition/ram-matcher.js: the events that are kept in memory, and the
-- matches of the hashes with one of them.
use hernan_pedraza_pi_back.Prelude.{
  ℕ, min, Bool, Option, none, some, List, [], ◌∷◌, map, String, ltb, leb, ◌==◌, ◌&&◌, ◌++◌, any,
  str_eq, length, lookup, put, remove, if◌then◌else◌,
}
use hernan_pedraza_pi_back.Models.{AudioTrack}
use hernan_pedraza_pi_back.Recognition.Thresholds.{ℤ, Match}
use hernan_pedraza_pi_back.Recognition.Numbers.{equal}
use hernan_pedraza_pi_back.Recognition.Session.State.{Hash, SentHash, finite}
use hernan_pedraza_pi_back.Recognition.Matcher.{
  EventIndex, Fingerprint, Score, load_index, fill_buckets, score_all, top_scores,
}

abbrev pub track_with : ℕ → List AudioTrack → Option AudioTrack
track_with t [] = none
track_with t (x ∷ xs) = if x.id == t then some x else track_with t xs

abbrev pub text_or : String → String → String
text_or s d = if str_eq s "" then d else s

-- A score with the texts of its track; `cover` stands for the decrypted address of its picture.
abbrev pub describe : (Option AudioTrack → Option String) → Option AudioTrack → Score → Match
describe cover track s = record {
  track_id = s.track_id;
  offset = s.offset;
  score = s.score;
  total_aligned = s.total_aligned;
  offset_concentration = some (record { num = min s.score s.total_aligned; den = s.total_aligned });
  title = elim track [ none ↦ "Unknown track" | some x ↦ text_or x.title "Unknown track" ];
  artist = elim track [ none ↦ "Unknown artist" | some x ↦ text_or x.artist "Unknown artist" ];
  cover_url = cover track;
  duration = elim track [ none ↦ 0 | some x ↦ x.duration ];
}

unfoldable pub match_in_index :
    (Option AudioTrack → Option String) → EventIndex → List Hash → List Match
match_in_index cover ix hs =
    map (λ s. describe cover (track_with s.track_id ix.tracks) s)
      (top_scores (score_all (fill_buckets ix hs [])))

-- An event in memory, with the time when it was loaded.
pub record Loaded : Type 0 where
  pub loaded_at : ℕ
  pub found : EventIndex

abbrev pub max_cached_events : ℕ
max_cached_events = 2

-- The key that was loaded first, if there is one.
abbrev pub oldest_key : Option (ℕ × ℕ) → List (ℕ × Loaded) → Option (ℕ × ℕ)
oldest_key best [] = best
oldest_key none ((k, x) ∷ xs) = oldest_key (some (k, x.loaded_at)) xs
oldest_key (some (j, at_time)) ((k, x) ∷ xs) =
    if ltb x.loaded_at at_time
    then oldest_key (some (k, x.loaded_at)) xs
    else oldest_key (some (j, at_time)) xs

abbrev pub evict : Option (ℕ × ℕ) → List (ℕ × Loaded) → List (ℕ × Loaded)
evict none cache = cache
evict (some (k, at_time)) cache = remove k cache

abbrev pub with_room : List (ℕ × Loaded) → List (ℕ × Loaded)
with_room cache =
    if leb max_cached_events (length cache) then evict (oldest_key none cache) cache else cache

unfoldable pub load_missing :
    ℕ
    → ℕ
    → List AudioTrack
    → List Fingerprint
    → List (ℕ × Loaded)
    → Option Loaded
    → List (ℕ × Loaded)
unfolding load_index
load_missing now e tracks fs cache (some x) = cache
load_missing now e tracks fs cache none =
    put e (record { loaded_at = now; found = load_index tracks fs }) (with_room cache)

-- `tracks` and `fs` are the documents of the event; a load that others wait for is one step.
unfoldable pub load_event :
    ℕ → ℕ → List AudioTrack → List Fingerprint → List (ℕ × Loaded) → List (ℕ × Loaded)
unfolding load_missing
load_event now e tracks fs cache = load_missing now e tracks fs cache (lookup e cache)

unfoldable pub clear_loaded : ℕ → List (ℕ × Loaded) → List (ℕ × Loaded)
clear_loaded e cache = remove e cache

unfoldable pub match_loaded :
    (Option AudioTrack → Option String) → List Hash → Option Loaded → List Match
unfolding match_in_index
match_loaded cover hs none = []
match_loaded cover hs (some x) = match_in_index cover x.found hs

-- `match`
unfoldable pub match_event :
    (Option AudioTrack → Option String) → List (ℕ × Loaded) → ℕ → List Hash → List Match
unfolding match_loaded
match_event cover cache e hs = match_loaded cover hs (lookup e cache)

abbrev pub same_hash : Hash → Hash → Bool
same_hash a b = equal a.hash b.hash && equal a.time b.time

abbrev pub push_new : Option ℤ → Option ℤ → List Hash → List Hash
push_new (some h) (some t) seen =
    let x : Hash = record { hash = h; time = t } in
    if any (same_hash x) seen then seen else seen ++ x ∷ []
push_new _ _ seen = seen

-- The rows that were kept so far grow at the end; they are also the ones that were seen.
abbrev pub normalize_from : List SentHash → List Hash → List Hash
normalize_from [] seen = seen
normalize_from (x ∷ xs) seen = normalize_from xs (push_new (finite x.hash) (finite x.time) seen)

unfoldable pub normalize_hash_rows : List SentHash → List Hash
normalize_hash_rows xs = normalize_from xs []

-- The cache after `matchHashes` and its matches.
unfoldable pub match_hashes :
    (Option AudioTrack → Option String)
    → ℕ
    → ℕ
    → List AudioTrack
    → List Fingerprint
    → List SentHash
    → List (ℕ × Loaded)
    → List (ℕ × Loaded) × List Match
unfolding normalize_hash_rows load_event match_event
match_hashes cover now e tracks fs sent cache =
    let rows = normalize_hash_rows sent in
    let loaded = load_event now e tracks fs cache in
    if length rows == 0 then (cache, []) else (loaded, match_event cover loaded e rows)
