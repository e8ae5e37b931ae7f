-- ===== src/Recognition/Matcher/Buckets.antt =====
-- What the loop over the hashes leaves in the bucket of a track.
use hernan_pedraza_pi_back.Prelude.{
  ℕ, ◌+◌, ◌≡◌, refl, inl, inr, Bool, none, some, List, [], ◌∷◌, ◌==◌, any, count, lookup, put,
  KeysUnique, lookup-put, lookup-put_other, put-KeysUnique, Bool-cases, arith,
}
use hernan_pedraza_pi_back.Recognition.Session.State.{Hash}
use hernan_pedraza_pi_back.Recognition.Matcher.{
  EventIndex, Bucket, entries_of, offsets_by_track, count_at, hit_bucket, bucket_of, count_hits,
  fill_buckets,
}
use hernan_pedraza_pi_back.Recognition.Matcher.Histogram.{
  bit, Tidy, noted, present, is_of, agrees, count_at-bump_all, bump_all-KeysUnique,
  noted-offsets_by_track, present-offsets_by_track, offsets_by_track-Tidy,
}

-- How often an offset of a track was counted.
abbrev pub counted : ℕ → ℕ → List (ℕ × Bucket) → ℕ
counted p t bs = count_at p (bucket_of t bs).by_offset

Tidy-tail : (u : ℕ) (ks : List ℕ) (xs : List (ℕ × List ℕ)) → Tidy ((u, ks) ∷ xs) → Tidy xs
Tidy-tail u ks xs tidy = record {
  distinct = λ t. elim (Bool-cases (u == t)) [
    | inl same ↦
        let e : u ≡ t = (ground (arith, same)) in
        let fresh : lookup t xs ≡ none = (rw e at (tidy.unique).0) in rw fresh (λ p. refl)
    | inr apart ↦ rw apart at (tidy.distinct t)
  ];
  unique = tidy.unique.1;
}

counted-count_hits :
    (p t : ℕ) (xs : List (ℕ × List ℕ)) (bs : List (ℕ × Bucket))
    → Tidy xs
    → counted p t (count_hits xs bs) ≡ counted p t bs + bit (noted p t xs)
counted-count_hits p t [] bs tidy = omega arith
counted-count_hits p t ((u, ks) ∷ xs) bs tidy =
    let b = hit_bucket ks (bucket_of u bs) in
    let rest = counted-count_hits p t xs (put u b bs) (Tidy-tail u ks xs tidy) in
    elim (Bool-cases (u == t)) [
      | inl same ↦
          let e : u ≡ t = (ground (arith, same)) in
          let fresh : lookup t xs ≡ none = (rw e at (tidy.unique).0) in
          let own : count (λ j. j == p) ks ≡ bit (any (λ j. j == p) ks) =
            (rw same at (tidy.distinct t p)) in
          let here : lookup t (put u b bs) ≡ some b = (rw (← e) (lookup-put u b bs)) in
          let mine : bucket_of u bs ≡ bucket_of t bs = (rw e) in
          rw (rest, here, fresh, same, count_at-bump_all ks p (bucket_of u bs).by_offset, own, mine)
            (omega arith)
      | inr apart ↦ rw (rest, lookup-put_other u t b bs apart, apart)
    ]

hits-count_hits :
    (t : ℕ) (xs : List (ℕ × List ℕ)) (bs : List (ℕ × Bucket))
    → KeysUnique xs
    → (bucket_of t (count_hits xs bs)).hits ≡ (bucket_of t bs).hits + bit (present t xs)
hits-count_hits t [] bs unique = omega arith
hits-count_hits t ((u, ks) ∷ xs) bs (fresh, unique) =
    let b = hit_bucket ks (bucket_of u bs) in
    let rest = hits-count_hits t xs (put u b bs) unique in
    elim (Bool-cases (u == t)) [
      | inl same ↦
          let e : u ≡ t = (ground (arith, same)) in
          let here : lookup t (put u b bs) ≡ some b = (rw (← e) (lookup-put u b bs)) in
          let gone : lookup t xs ≡ none = (rw e at fresh) in
          let mine : bucket_of u bs ≡ bucket_of t bs = (rw e) in
          rw (rest, here, gone, same, mine) (omega arith)
      | inr apart ↦ rw (rest, lookup-put_other u t b bs apart, apart)
    ]

-- What the hash, heard at its time, says of a track and of an offset of it.
abbrev pub hits_track : EventIndex → ℕ → Hash → Bool
hits_track ix t h = any (is_of ix.track_ids t) (entries_of ix h)

abbrev pub hits_offset : EventIndex → ℕ → ℕ → Hash → Bool
hits_offset ix t p h = any (agrees ix.track_ids h.time p t) (entries_of ix h)

nothing-Tidy : Tidy []
nothing-Tidy = record { distinct = λ t p. refl; unique = tt }

pub counted-fill_buckets :
    (ix : EventIndex) (p t : ℕ) (hs : List Hash) (bs : List (ℕ × Bucket))
    → counted p t (fill_buckets ix hs bs) ≡ counted p t bs + count (hits_offset ix t p) hs
unfolding fill_buckets
counted-fill_buckets ix p t [] bs = omega arith
counted-fill_buckets ix p t (h ∷ hs) bs =
    let found = offsets_by_track ix.track_ids h.time (entries_of ix h) [] in
    let tidy = offsets_by_track-Tidy ix.track_ids h.time (entries_of ix h) [] nothing-Tidy in
    let rest = counted-fill_buckets ix p t hs (count_hits found bs) in
    let here = counted-count_hits p t found bs tidy in
    let said = noted-offsets_by_track ix.track_ids h.time p t (entries_of ix h) [] in
    elim (Bool-cases (hits_offset ix t p h)) [
      | inl hit ↦ rw (rest, here, said, hit) (omega arith)
      | inr miss ↦ rw (rest, here, said, miss) (omega arith)
    ]

pub hits-fill_buckets :
    (ix : EventIndex) (t : ℕ) (hs : List Hash) (bs : List (ℕ × Bucket))
    → (bucket_of t (fill_buckets ix hs bs)).hits
      ≡ (bucket_of t bs).hits + count (hits_track ix t) hs
unfolding fill_buckets
hits-fill_buckets ix t [] bs = omega arith
hits-fill_buckets ix t (h ∷ hs) bs =
    let found = offsets_by_track ix.track_ids h.time (entries_of ix h) [] in
    let tidy = offsets_by_track-Tidy ix.track_ids h.time (entries_of ix h) [] nothing-Tidy in
    let rest = hits-fill_buckets ix t hs (count_hits found bs) in
    let here = hits-count_hits t found bs tidy.unique in
    let said = present-offsets_by_track ix.track_ids h.time t (entries_of ix h) [] in
    elim (Bool-cases (hits_track ix t h)) [
      | inl hit ↦ rw (rest, here, said, hit) (omega arith)
      | inr miss ↦ rw (rest, here, said, miss) (omega arith)
    ]

-- Every key occurs once, and in every bucket every offset does.
pub record Keyed (bs : List (ℕ × Bucket)) : Type 0 where
  pub tracks_once : KeysUnique bs
  pub offsets_once : (t : ℕ) → KeysUnique (bucket_of t bs).by_offset

put-Keyed :
    (u : ℕ) (ks : List ℕ) (bs : List (ℕ × Bucket))
    → Keyed bs
    → Keyed (put u (hit_bucket ks (bucket_of u bs)) bs)
put-Keyed u ks bs keyed =
    let b = hit_bucket ks (bucket_of u bs) in
    record {
      tracks_once = put-KeysUnique u b bs keyed.tracks_once;
      offsets_once = λ t. elim (Bool-cases (u == t)) [
        | inl same ↦
            let e : u ≡ t = (ground (arith, same)) in
            let here : lookup t (put u b bs) ≡ some b = (rw (← e) (lookup-put u b bs)) in
            rw here (bump_all-KeysUnique ks (bucket_of u bs).by_offset (keyed.offsets_once u))
        | inr apart ↦ rw (lookup-put_other u t b bs apart) (keyed.offsets_once t)
      ];
    }

count_hits-Keyed :
    (xs : List (ℕ × List ℕ)) (bs : List (ℕ × Bucket)) → Keyed bs → Keyed (count_hits xs bs)
count_hits-Keyed [] bs keyed = keyed
count_hits-Keyed ((u, ks) ∷ xs) bs keyed =
    count_hits-Keyed xs (put u (hit_bucket ks (bucket_of u bs)) bs) (put-Keyed u ks bs keyed)

pub fill_buckets-Keyed :
    (ix : EventIndex) (hs : List Hash) (bs : List (ℕ × Bucket))
    → Keyed bs
    → Keyed (fill_buckets ix hs bs)
unfolding fill_buckets
fill_buckets-Keyed ix [] bs keyed = keyed
fill_buckets-Keyed ix (h ∷ hs) bs keyed =
    fill_buckets-Keyed ix hs
      (count_hits (offsets_by_track ix.track_ids h.time (entries_of ix h) []) bs)
      (count_hits-Keyed (offsets_by_track ix.track_ids h.time (entries_of ix h) []) bs keyed)
