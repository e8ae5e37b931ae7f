-- ===== src/Witnesses/Locking.antt =====
-- A microphone whose chunks the program's own matcher looks up in the index of one track.
use hernan_pedraza_pi_back.Prelude.{ℕ, ◌≡◌, refl, Option, none, some, List, [], ◌∷◌}
use hernan_pedraza_pi_back.Mongo.{list_mongo}
use hernan_pedraza_pi_back.Platform.{plain_platform}
use hernan_pedraza_pi_back.Songs.Metadata.{no_cipher}
use hernan_pedraza_pi_back.Recognition.Thresholds.{
  pos, Match, is_confident_winner, evaluate_absolute_gates, compute_offset_concentration,
}
use hernan_pedraza_pi_back.Recognition.Numbers.{unit, from_int, difference}
use hernan_pedraza_pi_back.Recognition.Linker.{enrich_match, enrich_matches_with_queue_context}
use hernan_pedraza_pi_back.Recognition.Matcher.{
  load_index, stored_hash_rows, fill_buckets, score_all, top_scores,
}
use hernan_pedraza_pi_back.Recognition.Matcher.Cache.{match_in_index}
use hernan_pedraza_pi_back.Recognition.Session.State.{
  Hash, undefined, number, SentHash, Session, sanitize_hashes, new_session,
}
use hernan_pedraza_pi_back.Recognition.Session.Inputs.{enriched_matches, top_of, add_chunk}
use hernan_pedraza_pi_back.Recognition.Session.Locks.{LockedOn}
use hernan_pedraza_pi_back.Recognition.Session.Feeding.{
  Chunk, feed, HearsEach, hears, steady_track-locks,
}
use hernan_pedraza_pi_back.Witnesses.Samples.{db}
use hernan_pedraza_pi_back.Witnesses.Matching.{no_cover, known}
use hernan_pedraza_pi_back.Witnesses.Recognising.{keys, limits}

abbrev matcher : ℕ → List Hash → List Match
matcher e hs = match_in_index no_cover known hs

abbrev sent_at : ℕ → ℕ → Option SentHash
unfolding from_int
sent_at h t = some (record {
  hash = number (from_int (pos h));
  h = undefined;
  time = undefined;
  t = number (from_int (pos t));
})

abbrev tune : List (Option SentHash)
tune = none ∷ sent_at 5 7 ∷ sent_at 6 8 ∷ sent_at 7 9 ∷ sent_at 8 10 ∷ sent_at 99 11 ∷ []

-- Noise, which adds no hash of the track to those heard before.
abbrev noise : List (Option SentHash)
noise = sent_at 98 12 ∷ []

abbrev first_chunk : Chunk list_mongo
first_chunk = record { db = db; now = 1000; sent = tune }

abbrev second_chunk : Chunk list_mongo
second_chunk = record { db = db; now = 2000; sent = noise }

abbrev last_chunk : Chunk list_mongo
last_chunk = record { db = db; now = 5000; sent = tune }

abbrev at_last : Session
at_last =
    feed list_mongo plain_platform no_cipher keys matcher 1 limits 70
      (first_chunk ∷ second_chunk ∷ []) (new_session 1 limits)

hears_first :
    HearsEach list_mongo plain_platform no_cipher keys matcher 1 limits 70
      (first_chunk ∷ second_chunk ∷ [])
      (new_session 1 limits)
unfolding add_chunk sanitize_hashes top_of enriched_matches enrich_matches_with_queue_context
    enrich_match is_confident_winner new_session evaluate_absolute_gates
    compute_offset_concentration match_in_index fill_buckets score_all top_scores load_index
    stored_hash_rows unit from_int difference
hears_first = (refl, (refl, tt))

hears_last :
    hears list_mongo plain_platform no_cipher keys matcher 1 limits 70 last_chunk at_last ≡ some 70
unfolding add_chunk sanitize_hashes top_of enriched_matches enrich_matches_with_queue_context
    enrich_match is_confident_winner new_session evaluate_absolute_gates
    compute_offset_concentration match_in_index fill_buckets score_all top_scores load_index
    stored_hash_rows unit from_int difference
hears_last = refl

steady_track-locks_example :
    LockedOn 70
      (add_chunk list_mongo plain_platform no_cipher keys matcher db 5000 tune at_last).session
unfolding sanitize_hashes sent_at
steady_track-locks_example =
    steady_track-locks list_mongo plain_platform no_cipher keys matcher 1 limits 70 3 3000 refl refl
      refl first_chunk (second_chunk ∷ []) last_chunk refl refl hears_first hears_last refl refl
