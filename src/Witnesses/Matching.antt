-- ===== src/Witnesses/Matching.antt =====
-- A track whose fingerprint is stored, loaded and heard three units of time later.
use hernan_pedraza_pi_back.Prelude.{
  ℕ, ◌-◌, ◌*◌, ◌^◌, ◌≤◌, ◌≡◌, refl, ◌⊎◌, true, String, Option, none, List, [], ◌∷◌, ◌==◌, All, any,
  count, length, arith,
}
use hernan_pedraza_pi_back.Models.{AudioTrack}
use hernan_pedraza_pi_back.Recognition.Thresholds.{ℤ, pos, negsuc}
use hernan_pedraza_pi_back.Recognition.Numbers.{unit, from_int, difference, to_uint32, to_int32}
use hernan_pedraza_pi_back.Recognition.Session.State.{Hash, undefined, text, number, SentHash}
use hernan_pedraza_pi_back.Recognition.Codec.{
  Row, encode_hash_rows, decode_hash_rows, decode_hash_rows-encode_hash_rows,
}
use hernan_pedraza_pi_back.Recognition.Matcher.{
  EventIndex, Fingerprint, min_match_score, offset_key, load_index, stored_hash_rows,
}
use hernan_pedraza_pi_back.Recognition.Matcher.Cache.{match_in_index}
use hernan_pedraza_pi_back.Recognition.Matcher.Buckets.{hits_offset}
use hernan_pedraza_pi_back.Recognition.Matcher.Scores.{Faithful}
use hernan_pedraza_pi_back.Recognition.Matcher.Matches.{
  match_in_index-Faithful, match_in_index_complete,
}

abbrev row_at : ℤ → ℤ → SentHash
row_at h t = record { hash = number h; h = undefined; time = number t; t = undefined }

-- A hash of more than 32 bits, a negative hash at a time that is read back as -1, a hash and a
-- negative time with fractions (6.5 and -7.25), and a row that is not stored.
abbrev rows : List SentHash
unfolding from_int
rows =
    row_at (from_int (pos 4294967301)) (from_int (pos 9))
    ∷ row_at (from_int (negsuc 1)) (from_int (pos 4294967295))
    ∷ row_at (pos (13 * 2 ^ 1073)) (negsuc (29 * 2 ^ 1072 - 1))
    ∷ record { hash = text; h = number (pos 7); time = number (pos 1); t = undefined }
    ∷ []

abbrev pub row_of : ℕ → ℤ → Row
unfolding from_int
row_of h t = record { h = from_int (pos h); t = from_int t }

decode_hash_rows-encode_hash_rows_example :
    decode_hash_rows (encode_hash_rows rows)
    ≡ row_of 5 (pos 9) ∷ row_of 4294967294 (negsuc 0) ∷ row_of 6 (negsuc 6) ∷ []
unfolding to_uint32 to_int32 unit from_int
decode_hash_rows-encode_hash_rows_example = decode_hash_rows-encode_hash_rows rows

abbrev pub no_cover : Option AudioTrack → Option String
no_cover t = none

abbrev pub tune_print : Fingerprint
unfolding from_int
tune_print = record {
  track_id = 70;
  hash_data = [];
  hashes =
      row_of 5 (pos 10)
      ∷ row_of 6 (pos 11)
      ∷ row_of 7 (pos 12)
      ∷ row_of 8 (pos 13)
      ∷ row_of 8 (pos 20)
      ∷ [];
}

abbrev pub known : EventIndex
unfolding load_index stored_hash_rows
known =
    load_index
      (record { id = 70; event_id = 1; title = "Tune"; artist = "Band"; duration = 180 } ∷ [])
      (tune_print ∷ [])

abbrev pub heard_at : ℕ → ℕ → Hash
unfolding from_int
heard_at h t = record { hash = from_int (pos h); time = from_int (pos t) }

abbrev heard : List Hash
heard = heard_at 5 7 ∷ heard_at 6 8 ∷ heard_at 7 9 ∷ heard_at 8 10 ∷ heard_at 99 11 ∷ []

match_in_index-Faithful_example :
    All
      (λ x. Faithful known heard x.track_id x.offset x.score x.total_aligned)
      (match_in_index no_cover known heard)
match_in_index-Faithful_example = match_in_index-Faithful no_cover known heard

four_agree : min_match_score ≤ count (hits_offset known 70 (offset_key (from_int (pos 3)))) heard
unfolding known load_index stored_hash_rows unit from_int difference
four_agree = ground arith

match_in_index_complete_example :
    (any (λ x. x.track_id == 70) (match_in_index no_cover known heard) ≡ true)
    ⊎ (length (match_in_index no_cover known heard) ≡ 5)
match_in_index_complete_example =
    match_in_index_complete no_cover known heard 70 (offset_key (from_int (pos 3))) four_agree

-- 2 ^ 53 + 1 lies between two numbers and is rounded to the even one; 5 - 0.5 is exact.
rounds_to_even :
    difference (from_int (pos (2 ^ 53))) (from_int (negsuc 0)) ≡ from_int (pos (2 ^ 53))
unfolding difference from_int unit
rounds_to_even = refl

takes_halves : difference (from_int (pos 5)) (pos (2 ^ 1073)) ≡ pos (9 * 2 ^ 1073)
unfolding difference from_int unit
takes_halves = refl
