-- ===== src/Recognition/Matcher/Scores.antt =====
-- The best offset of a bucket, and what its count says of the hashes.
use hernan_pedraza_pi_back.Prelude.{
  ℕ, ◌%◌, ◌≤◌, ◌≡◌, refl, sym, ap, ◌∙◌, ◌⊎◌, inl, inr, true, false, none, some, List, [], ◌∷◌, ◌==◌,
  ltb, any, count, lookup, Memᴰ, KeysUnique, Bool-cases, ==_refl, arith, if◌then◌else◌,
}
use mathlib.Core.Path.{subst}
use hernan_pedraza_pi_back.Recognition.Thresholds.{ℤ, pos}
use hernan_pedraza_pi_back.Recognition.Session.State.{Hash}
use hernan_pedraza_pi_back.Recognition.Matcher.{
  entries_of, EventIndex, Bucket, Score, min_match_score, offset_key, offset_of, count_at,
  fill_buckets, best_from,
}
use hernan_pedraza_pi_back.Recognition.Matcher.Histogram.{is_of, agrees}
use hernan_pedraza_pi_back.Recognition.Matcher.Buckets.{
  hits_track, hits_offset, counted-fill_buckets, hits-fill_buckets, fill_buckets-Keyed,
}

offset_key-offset_of : (k : ℕ) → offset_key (offset_of k) ≡ k
offset_key-offset_of k = elim (Bool-cases (k % 2 == 0)) [
  | inl even ↦ rw even (ground (arith, even))
  | inr odd ↦ rw odd (ground (arith, odd))
]

best-grows : (k n : ℕ) (xs : List (ℕ × ℕ)) → n ≤ (best_from k n xs).1
best-grows k n [] = omega arith
best-grows k n ((j, c) ∷ xs) = elim (Bool-cases (ltb n c)) [
  | inl more ↦ let rest = best-grows j c xs in rw more (ground (arith, more, rest))
  | inr less ↦ rw less (best-grows k n xs)
]

pub best-upper : (k n q : ℕ) (xs : List (ℕ × ℕ)) → count_at q xs ≤ (best_from k n xs).1
best-upper k n q [] = omega arith
best-upper k n q ((j, c) ∷ xs) =
    let low = best-upper k n q xs in
    let high = best-upper j c q xs in
    let here = best-grows j c xs in
    let there = best-grows k n xs in
    elim (Bool-cases (ltb n c)) [
      | inl more ↦ elim (Bool-cases (j == q)) [
        | inl same ↦ rw (more, same) here
        | inr apart ↦ rw (more, apart) high
      ]
      | inr less ↦ elim (Bool-cases (j == q)) [
        | inl same ↦ rw (less, same) (ground (arith, less, there))
        | inr apart ↦ rw (less, apart) low
      ]
    ]

count_at-cons :
    (j c q v : ℕ) (xs : List (ℕ × ℕ))
    → lookup j xs ≡ none
    → count_at q xs ≡ v
    → c ≤ v
    → count_at q ((j, c) ∷ xs) ≡ v
count_at-cons j c q v xs fresh e low = elim (Bool-cases (j == q)) [
  | inl same ↦
      let at_j : j ≡ q = (ground (arith, same)) in
      let gone : lookup q xs ≡ none = (rw at_j at fresh) in
      let nothing : 0 ≡ v = (rw gone at e) in rw same (omega (arith, nothing, low))
  | inr apart ↦ rw apart e
]

-- The best count is that of the offset, unless nothing was better than the start.
abbrev BestFound : ℕ → ℕ → List (ℕ × ℕ) → ℕ × ℕ → Type 0
BestFound k n xs b = (b ≡ (k, n)) ⊎ (count_at b.0 xs ≡ b.1)

best-count : (k n : ℕ) (xs : List (ℕ × ℕ)) → KeysUnique xs → BestFound k n xs (best_from k n xs)
best-count k n [] unique = inl refl
best-count k n ((j, c) ∷ xs) (fresh, unique) = elim (Bool-cases (ltb n c)) [
  | inl more ↦
      let step : best_from k n ((j, c) ∷ xs) ≡ best_from j c xs = (rw more refl) in
      elim (best-count j c xs unique) [
        | inl start ↦ inr (rw (more, start, ==_refl j))
        | inr found ↦
            let b = best_from j c xs in
            subst (BestFound k n ((j, c) ∷ xs)) (sym step)
              (inr (count_at-cons j c b.0 b.1 xs fresh found (best-grows j c xs)))
      ]
  | inr less ↦
      let step : best_from k n ((j, c) ∷ xs) ≡ best_from k n xs = (rw less refl) in
      elim (best-count k n xs unique) [
        | inl start ↦ inl (step ∙ start)
        | inr found ↦
            let b = best_from k n xs in
            let low = best-grows k n xs in
            subst (BestFound k n ((j, c) ∷ xs)) (sym step)
              (inr (count_at-cons j c b.0 b.1 xs fresh found (ground (arith, less, low))))
      ]
]

-- What a score says of the hashes that were heard: `score` of them agree with the offset, no
-- other offset of the track has more, `total` hit the track at all.
pub record Faithful (ix : EventIndex) (hs : List Hash) (t : ℕ) (offset : ℤ) (score total : ℕ)
    : Type 0 where
  pub agreeing : score ≡ count (hits_offset ix t (offset_key offset)) hs
  pub highest : (p : ℕ) → count (hits_offset ix t p) hs ≤ score
  pub aligned : total ≡ count (hits_track ix t) hs
  pub enough : min_match_score ≤ score

abbrev pub FaithfulScore : EventIndex → List Hash → Score → Type 0
FaithfulScore ix hs s = Faithful ix hs s.track_id s.offset s.score s.total_aligned

pub lookup-mem :
    (t : ℕ) (b : Bucket) (xs : List (ℕ × Bucket))
    → KeysUnique xs
    → Memᴰ (t, b) xs
    → lookup t xs ≡ some b
lookup-mem t b [] unique there = elim there [ ]
lookup-mem t b ((u, c) ∷ xs) unique (Memᴰ.head e) =
    let k : t ≡ u = ap (λ x. x.0) e in let v : b ≡ c = ap (λ x. x.1) e in rw (k, v, ==_refl u)
lookup-mem t b ((u, c) ∷ xs) (fresh, unique) (Memᴰ.tail there) =
    let rest = lookup-mem t b xs unique there in
    elim (Bool-cases (u == t)) [
      | inl same ↦ let k : u ≡ t = (ground (arith, same)) in cc (rw (k, rest) at fresh)
      | inr apart ↦ rw (apart, rest)
    ]

-- Every hash that agrees with an offset hits the track.
any-agrees :
    (ids : List ℕ) (time : ℤ) (p t : ℕ) (cs : List (ℕ × ℤ))
    → any (agrees ids time p t) cs ≡ true
    → any (is_of ids t) cs ≡ true
any-agrees ids time p t [] h = h
any-agrees ids time p t (c ∷ cs) h = elim (Bool-cases (is_of ids t c)) [
  | inl hit ↦ rw hit
  | inr miss ↦ rw miss (any-agrees ids time p t cs (rw miss at h))
]

count-hits_offset :
    (ix : EventIndex) (p t : ℕ) (hs : List Hash)
    → count (hits_offset ix t p) hs ≤ count (hits_track ix t) hs
count-hits_offset ix p t [] = omega arith
count-hits_offset ix p t (h ∷ hs) =
    let rest = count-hits_offset ix p t hs in
    elim (Bool-cases (hits_offset ix t p h)) [
      | inl hit ↦
          let also = any-agrees ix.track_ids h.time p t (entries_of ix h) hit in
          rw (hit, also) (omega (arith, rest))
      | inr miss ↦ elim (Bool-cases (hits_track ix t h)) [
        | inl hit ↦ rw (miss, hit) (omega (arith, rest))
        | inr far ↦ rw (miss, far) rest
      ]
    ]

module _ (ix : EventIndex) (hs : List Hash) where
  pub counted-filled :
      (p t : ℕ) (b : Bucket)
      → lookup t (fill_buckets ix hs []) ≡ some b
      → count_at p b.by_offset ≡ count (hits_offset ix t p) hs
  counted-filled p t b e =
      let all_of = counted-fill_buckets ix p t hs [] in (rw e at all_of) ∙ omega arith

  hits-filled :
      (t : ℕ) (b : Bucket)
      → lookup t (fill_buckets ix hs []) ≡ some b
      → b.hits ≡ count (hits_track ix t) hs
  hits-filled t b e = let all_of = hits-fill_buckets ix t hs [] in (rw e at all_of) ∙ omega arith

  unique-filled :
      (t : ℕ) (b : Bucket) → lookup t (fill_buckets ix hs []) ≡ some b → KeysUnique b.by_offset
  unique-filled t b e =
      let keyed =
        fill_buckets-Keyed ix hs [] (record { tracks_once = tt; offsets_once = λ u. tt }) in
      rw e at (keyed.offsets_once t)

  -- The best offset of a bucket, if enough hashes agree with it.
  pub best-Faithful :
      (t : ℕ) (b : Bucket)
      → lookup t (fill_buckets ix hs []) ≡ some b
      → ltb (best_from (offset_key (pos 0)) 0 b.by_offset).1 min_match_score ≡ false
      → let k = best_from (offset_key (pos 0)) 0 b.by_offset in
        Faithful ix hs t (offset_of k.0) k.1 (if b.hits == 0 then k.1 else b.hits)
  best-Faithful t b e reached =
      let k = best_from (offset_key (pos 0)) 0 b.by_offset in
      let big : 4 ≤ k.1 = (ground (arith, reached)) in
      elim (best-count (offset_key (pos 0)) 0 b.by_offset (unique-filled t b e)) [
        | inl start ↦
            let nothing : k.1 ≡ 0 = ap (λ x. x.1) start in ground (arith, nothing, reached)
        | inr found ↦
            let here : k.1 ≡ count (hits_offset ix t k.0) hs =
              sym found ∙ counted-filled k.0 t b e in
            let fewer = count-hits_offset ix k.0 t hs in
            let total = hits-filled t b e in
            let some_hit : b.hits == 0 ≡ false = (ground (arith, big, here, fewer, total)) in
            record {
              agreeing = rw (offset_key-offset_of k.0) here;
              highest = λ p.
                  rw (counted-filled p t b e) at (best-upper (offset_key (pos 0)) 0 p b.by_offset);
              aligned = rw some_hit total;
              enough = big;
            }
      ]
