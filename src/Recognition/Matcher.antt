-- ===== src/Recognition/Matcher.antt =====
-- src/services/audio-recognition/ram-matcher.js: the fingerprints of an event in memory, and how often
-- each track and each offset of it agree with the hashes that were heard. A Map is an association
-- list in the order of insertion. Its keys are natural numbers, so a hash or an offset, which may be
-- negative or a fraction, is kept as `offset_key`.
pub mod Cache
pub mod Histogram
pub mod Buckets
pub mod Scores
pub mod Matches
use hernan_pedraza_pi_back.Prelude.{
  ℕ, zero, suc, ◌+◌, ◌-◌, ◌*◌, ◌/◌, ◌%◌, min, Bool, true, false, not, ◌&&◌, Option, none, some,
  List, [], ◌∷◌, ◌++◌, map, String, ltb, leb, ◌==◌, str_eq, any, length, take, lookup, put,
  get_elem?, remove, sort_by, if◌then◌else◌,
}
use hernan_pedraza_pi_back.Models.{AudioTrack}
use hernan_pedraza_pi_back.Recognition.Thresholds.{ℤ, pos, negsuc, Ratio, Match, value_or}
use hernan_pedraza_pi_back.Recognition.Session.State.{Hash}
use hernan_pedraza_pi_back.Recognition.Numbers.{difference}
use hernan_pedraza_pi_back.Recognition.Codec.{Row, decode_hash_rows}

abbrev pub min_match_score : ℕ
min_match_score = 4

abbrev pub max_track_hashes : ℕ
max_track_hashes = 100000

abbrev pub max_indexed_hashes_per_event : ℕ
max_indexed_hashes_per_event = 200000

-- A document of AudioFingerprintModel: the bytes, or rows from before there were bytes.
pub record Fingerprint : Type 0 where
  pub track_id : ℕ
  pub hash_data : List ℕ
  pub hashes : List Row

unfoldable pub stored_hash_rows : Fingerprint → List Row
stored_hash_rows f = elim f.hash_data [ [] ↦ f.hashes | b ∷ bs ↦ decode_hash_rows (b ∷ bs) ]

-- For each hash, where it occurs: the position of a track in `track_ids`, and the time.
pub record EventIndex : Type 0 where
  pub tracks : List AudioTrack
  pub track_ids : List ℕ
  pub index : List (ℕ × List (ℕ × ℤ))

abbrev pub or_empty {ℓ} : {A : Type ℓ} → Option (List A) → List A
or_empty none = []
or_empty (some xs) = xs

abbrev pub offset_key : ℤ → ℕ
offset_key (pos n) = n * 2
offset_key (negsuc n) = n * 2 + 1

abbrev pub add_rows : ℕ → List Row → List (ℕ × List (ℕ × ℤ)) → List (ℕ × List (ℕ × ℤ))
add_rows i [] ix = ix
add_rows i (r ∷ rs) ix =
    add_rows i rs (put (offset_key r.h) (or_empty (lookup (offset_key r.h) ix) ++ (i, r.t) ∷ []) ix)

-- The loop over the fingerprints, with the number of hashes that are indexed already.
abbrev pub index_all :
    List Fingerprint → ℕ → List ℕ → List (ℕ × List (ℕ × ℤ)) → List AudioTrack → EventIndex
index_all [] n ids ix tracks = record { tracks = tracks; track_ids = ids; index = ix }
index_all (f ∷ fs) n ids ix tracks =
    let rows = stored_hash_rows f in
    let used = take (max_indexed_hashes_per_event - n) rows in
    let next =
      index_all fs (n + length used) (ids ++ f.track_id ∷ []) (add_rows (length ids) used ix)
        tracks in
    let skipped = index_all fs n ids ix tracks in
    if ltb max_track_hashes (length rows)
    then skipped
    else if leb max_indexed_hashes_per_event n
    then skipped
    else next

unfoldable pub load_index : List AudioTrack → List Fingerprint → EventIndex
load_index tracks fs = index_all fs 0 [] [] tracks

-- sourceTime - sampleTime
abbrev pub offset_from : ℤ → ℤ → ℤ
unfolding difference
offset_from source sample = difference source sample

abbrev pub offset_of : ℕ → ℤ
offset_of k = if k % 2 == 0 then pos (k / 2) else negsuc (k / 2)

-- What a track has been given: the hashes that hit it, and for each offset those that agree with it.
pub record Bucket : Type 0 where
  pub hits : ℕ
  pub by_offset : List (ℕ × ℕ)

abbrev pub no_bucket : Bucket
no_bucket = record { hits = 0; by_offset = [] }

-- offsets.add(offset)
abbrev pub add_offset : ℕ → List ℕ → List ℕ
add_offset k ks = if any (λ j. j == k) ks then ks else ks ++ k ∷ []

abbrev pub note_offset : Option ℕ → ℕ → List (ℕ × List ℕ) → List (ℕ × List ℕ)
note_offset none k acc = acc
note_offset (some t) k acc = put t (add_offset k (or_empty (lookup t acc))) acc

-- The offsets of each track for one hash, heard at `time`.
abbrev pub offsets_by_track : List ℕ → ℤ → List (ℕ × ℤ) → List (ℕ × List ℕ) → List (ℕ × List ℕ)
offsets_by_track ids time [] acc = acc
offsets_by_track ids time ((i, source) ∷ cs) acc =
    offsets_by_track ids time cs
      (note_offset (get_elem? ids i) (offset_key (offset_from source time)) acc)

abbrev pub count_at : ℕ → List (ℕ × ℕ) → ℕ
count_at k xs = value_or (lookup k xs) 0

abbrev pub bump_all : List ℕ → List (ℕ × ℕ) → List (ℕ × ℕ)
bump_all [] xs = xs
bump_all (k ∷ ks) xs = bump_all ks (put k (count_at k xs + 1) xs)

abbrev pub hit_bucket : List ℕ → Bucket → Bucket
hit_bucket ks b = record { hits = b.hits + 1; by_offset = bump_all ks b.by_offset }

abbrev pub bucket_of : ℕ → List (ℕ × Bucket) → Bucket
bucket_of t bs = value_or (lookup t bs) no_bucket

abbrev pub count_hits : List (ℕ × List ℕ) → List (ℕ × Bucket) → List (ℕ × Bucket)
count_hits [] bs = bs
count_hits ((t, ks) ∷ xs) bs = count_hits xs (put t (hit_bucket ks (bucket_of t bs)) bs)

-- Where a hash that was heard occurs.
abbrev pub entries_of : EventIndex → Hash → List (ℕ × ℤ)
entries_of ix h = or_empty (lookup (offset_key h.hash) ix.index)

-- The loop over the hashes.
unfoldable pub fill_buckets : EventIndex → List Hash → List (ℕ × Bucket) → List (ℕ × Bucket)
fill_buckets ix [] bs = bs
fill_buckets ix (h ∷ hs) bs =
    fill_buckets ix hs (count_hits (offsets_by_track ix.track_ids h.time (entries_of ix h) []) bs)

-- The first offset with the highest count, and that count.
abbrev pub best_from : ℕ → ℕ → List (ℕ × ℕ) → ℕ × ℕ
best_from k n [] = (k, n)
best_from k n ((j, c) ∷ xs) = if ltb n c then best_from j c xs else best_from k n xs

pub record Score : Type 0 where
  pub track_id : ℕ
  pub offset : ℤ
  pub score : ℕ
  pub total_aligned : ℕ

abbrev pub score_of : ℕ → Bucket → ℕ × ℕ → List Score → List Score
score_of t b (k, n) rest =
    if ltb n min_match_score
    then rest
    else record {
      track_id = t;
      offset = offset_of k;
      score = n;
      total_aligned = if b.hits == 0 then n else b.hits;
    }
      ∷ rest

unfoldable pub score_all : List (ℕ × Bucket) → List Score
score_all [] = []
score_all ((t, b) ∷ bs) = score_of t b (best_from (offset_key (pos 0)) 0 b.by_offset) (score_all bs)

abbrev pub higher : Score → Score → Bool
higher a b = ltb b.score a.score

-- Five at most, the best first.
unfoldable pub top_scores : List Score → List Score
top_scores xs = take 5 (sort_by higher xs)
