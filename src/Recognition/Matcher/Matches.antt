-- ===== src/Recognition/Matcher/Matches.antt =====
-- The matches that come out of the buckets, compared with counts over the index.
use hernan_pedraza_pi_back.Prelude.{
  ℕ, ◌+◌, ◌≤◌, ◌≡◌, refl, ap, ◌∙◌, ◌⊎◌, inl, inr, Bool, true, false, Option, none, some, List, [],
  ◌∷◌, ◌==◌, ltb, any, count, length, lookup, All, Memᴰ, Bool-cases, Option-cases, sort_by,
  All-sort_by, any-sort_by, All-take, take_all, All-map, any-map, length-map, String, arith,
}
use hernan_pedraza_pi_back.Models.{AudioTrack}
use hernan_pedraza_pi_back.Recognition.Thresholds.{pos}
use hernan_pedraza_pi_back.Recognition.Session.State.{Hash}
use hernan_pedraza_pi_back.Recognition.Matcher.{
  EventIndex, Bucket, Score, min_match_score, offset_key, fill_buckets, best_from, score_all,
  higher, top_scores,
}
use hernan_pedraza_pi_back.Recognition.Matcher.Cache.{track_with, describe, match_in_index}
use hernan_pedraza_pi_back.Recognition.Matcher.Buckets.{
  hits_offset, fill_buckets-Keyed, counted-fill_buckets,
}
use hernan_pedraza_pi_back.Recognition.Matcher.Scores.{
  Faithful, FaithfulScore, lookup-mem, best-upper, counted-filled, best-Faithful,
}

abbrev best_count : Bucket → ℕ
best_count b = (best_from (offset_key (pos 0)) 0 b.by_offset).1

score_all-Faithful :
    (ix : EventIndex) (hs : List Hash) (bs : List (ℕ × Bucket))
    → ((t : ℕ) (b : Bucket) → Memᴰ (t, b) bs → lookup t (fill_buckets ix hs []) ≡ some b)
    → All (FaithfulScore ix hs) (score_all bs)
unfolding score_all
score_all-Faithful ix hs [] there = tt
score_all-Faithful ix hs ((t, b) ∷ bs) there =
    let rest = score_all-Faithful ix hs bs (λ u c m. there u c (Memᴰ.tail m)) in
    elim (Bool-cases (ltb (best_count b) min_match_score)) [
      | inl few ↦ rw few rest
      | inr enough ↦ rw enough (best-Faithful ix hs t b (there t b (Memᴰ.head refl)) enough, rest)
    ]

any-score_all :
    (t : ℕ) (b : Bucket) (bs : List (ℕ × Bucket))
    → lookup t bs ≡ some b
    → ltb (best_count b) min_match_score ≡ false
    → any (λ s. s.track_id == t) (score_all bs) ≡ true
unfolding score_all
any-score_all t b [] e enough = cc e
any-score_all t b ((u, c) ∷ bs) e enough = elim (Bool-cases (u == t)) [
  | inl same ↦
      let k : some c ≡ some b = (rw same at e) in
      let v : c ≡ b = ap (λ o. elim o [ none ↦ b | some x ↦ x ]) k in rw (v, enough, same)
  | inr apart ↦
      let rest = any-score_all t b bs (rw apart at e) enough in
      elim (Bool-cases (ltb (best_count c) min_match_score)) [
        | inl few ↦ rw few rest
        | inr more ↦ rw (more, apart) rest
      ]
]

-- A bucket with enough agreeing hashes reaches the minimum.
reaches_minimum :
    (ix : EventIndex) (hs : List Hash) (t p : ℕ) (b : Bucket)
    → lookup t (fill_buckets ix hs []) ≡ some b
    → min_match_score ≤ count (hits_offset ix t p) hs
    → ltb (best_count b) min_match_score ≡ false
reaches_minimum ix hs t p b e enough =
    let upper = best-upper (offset_key (pos 0)) 0 p b.by_offset in
    let same = counted-filled ix hs p t b e in ground (arith, upper, same, enough)

top_scores-any :
    (q : Score → Bool) (xs : List Score)
    → any q xs ≡ true
    → (any q (top_scores xs) ≡ true) ⊎ (length (top_scores xs) ≡ 5)
unfolding top_scores
top_scores-any q xs e = elim (take_all 5 (sort_by higher xs)) [
  | inl full ↦ inr full
  | inr all_of ↦ inl (ap (any q) all_of ∙ any-sort_by higher q xs ∙ e)
]

-- Every match that the matcher returns is what it says: its score is the number of the hashes that agree
-- with its offset in the index of the event, no other offset of that track has more, the total is
-- the number of hashes that occur in the track at all, and the score is at least 4.
pub match_in_index-Faithful :
    (cover : Option AudioTrack → Option String) (ix : EventIndex) (hs : List Hash)
    → All
        (λ x. Faithful ix hs x.track_id x.offset x.score x.total_aligned)
        (match_in_index cover ix hs)
unfolding match_in_index top_scores
match_in_index-Faithful cover ix hs =
    let keyed = fill_buckets-Keyed ix hs [] (record { tracks_once = tt; offsets_once = λ t. tt }) in
    let scored =
      score_all-Faithful ix hs (fill_buckets ix hs [])
        (λ t b m. lookup-mem t b (fill_buckets ix hs []) keyed.tracks_once m) in
    let sorted =
      All-sort_by higher (FaithfulScore ix hs) (score_all (fill_buckets ix hs [])) scored in
    All-map (λ x. Faithful ix hs x.track_id x.offset x.score x.total_aligned)
      (λ s. describe cover (track_with s.track_id ix.tracks) s)
      (top_scores (score_all (fill_buckets ix hs [])))
      (All-take (FaithfulScore ix hs) 5 (sort_by higher (score_all (fill_buckets ix hs []))) sorted)

-- No match is missing: if at least 4 hashes agree with one offset of a track, the matcher returns that
-- track, or it returns five matches.
pub match_in_index_complete :
    (cover : Option AudioTrack → Option String) (ix : EventIndex) (hs : List Hash) (t p : ℕ)
    → min_match_score ≤ count (hits_offset ix t p) hs
    → (any (λ x. x.track_id == t) (match_in_index cover ix hs) ≡ true)
      ⊎ (length (match_in_index cover ix hs) ≡ 5)
unfolding match_in_index
match_in_index_complete cover ix hs t p enough =
    let f = λ (s : Score). describe cover (track_with s.track_id ix.tracks) s in
    let scores = score_all (fill_buckets ix hs []) in
    elim (Option-cases (lookup t (fill_buckets ix hs []))) [
      | inl gone ↦
          let none_counted = counted-fill_buckets ix p t hs [] in
          let nothing : 0 ≡ 0 + count (hits_offset ix t p) hs = (rw gone at none_counted) in
          ground (arith, nothing, enough)
      | inr (b, e) ↦
          let there =
            any-score_all t b (fill_buckets ix hs []) e (reaches_minimum ix hs t p b e enough) in
          elim (top_scores-any (λ s. s.track_id == t) scores there) [
            | inl found ↦ inl (any-map (λ x. x.track_id == t) f (top_scores scores) ∙ found)
            | inr full ↦ inr (length-map f (top_scores scores) ∙ full)
          ]
    ]
