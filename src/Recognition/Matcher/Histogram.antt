-- ===== src/Recognition/Matcher/Histogram.antt =====
-- The matcher's counts for one hash: the tracks that it hits, and the offsets that agree with it.
use hernan_pedraza_pi_back.Prelude.{
  ℕ, ◌+◌, ◌≡◌, refl, inl, inr, Bool, true, false, ◌&&◌, ◌||◌, Option, none, some, List, [], ◌∷◌,
  ◌++◌, ◌==◌, is_id, is_some, any, count, lookup, put, get_elem?, KeysUnique, lookup-put,
  lookup-put_other, put-KeysUnique, Bool-cases, ==_refl, arith,
}
use hernan_pedraza_pi_back.Recognition.Thresholds.{ℤ}
use hernan_pedraza_pi_back.Recognition.Matcher.{
  or_empty, offset_from, offset_key, add_offset, note_offset, offsets_by_track, count_at, bump_all,
}

abbrev pub bit : Bool → ℕ
bit true = 1
bit false = 0

count_at-put :
    (k p : ℕ) (xs : List (ℕ × ℕ))
    → count_at p (put k (count_at k xs + 1) xs) ≡ count_at p xs + bit (k == p)
count_at-put k p xs = elim (Bool-cases (k == p)) [
  | inl same ↦
      let e : k ≡ p = (ground (arith, same)) in
      rw (e, lookup-put p (count_at p xs + 1) xs, ==_refl p)
  | inr apart ↦ rw (lookup-put_other k p (count_at k xs + 1) xs apart, apart) (omega arith)
]

pub count_at-bump_all :
    (ks : List ℕ) (p : ℕ) (xs : List (ℕ × ℕ))
    → count_at p (bump_all ks xs) ≡ count_at p xs + count (λ j. j == p) ks
count_at-bump_all [] p xs = omega arith
count_at-bump_all (k ∷ ks) p xs =
    let rest = count_at-bump_all ks p (put k (count_at k xs + 1) xs) in
    let here = count_at-put k p xs in
    elim (Bool-cases (k == p)) [
      | inl same ↦ rw (rest, here, same) (omega arith)
      | inr apart ↦ rw (rest, here, apart) (omega arith)
    ]

pub bump_all-KeysUnique :
    (ks : List ℕ) (xs : List (ℕ × ℕ)) → KeysUnique xs → KeysUnique (bump_all ks xs)
bump_all-KeysUnique [] xs u = u
bump_all-KeysUnique (k ∷ ks) xs u =
    bump_all-KeysUnique ks (put k (count_at k xs + 1) xs)
      (put-KeysUnique k (count_at k xs + 1) xs u)

-- No number occurs twice.
abbrev pub Distinct : List ℕ → Type 0
Distinct ks = (p : ℕ) → count (λ j. j == p) ks ≡ bit (any (λ j. j == p) ks)

any-append_one :
    (ks : List ℕ) (k p : ℕ) → any (λ j. j == p) (ks ++ k ∷ []) ≡ any (λ j. j == p) ks || k == p
any-append_one [] k p = ground arith
any-append_one (j ∷ ks) k p = let rest = any-append_one ks k p in ground (arith, rest)

count-append_one :
    (ks : List ℕ) (k p : ℕ)
    → count (λ j. j == p) (ks ++ k ∷ []) ≡ count (λ j. j == p) ks + bit (k == p)
count-append_one [] k p = elim (Bool-cases (k == p)) [ inl e ↦ rw e | inr e ↦ rw e ]
count-append_one (j ∷ ks) k p =
    let rest = count-append_one ks k p in
    elim (Bool-cases (j == p)) [ inl e ↦ rw (e, rest) (omega arith) | inr e ↦ rw (e, rest) refl ]

any-add_offset :
    (k p : ℕ) (ks : List ℕ) → any (λ j. j == p) (add_offset k ks) ≡ any (λ j. j == p) ks || k == p
any-add_offset k p ks = elim (Bool-cases (any (λ j. j == k) ks)) [
  | inl there ↦ elim (Bool-cases (k == p)) [
    | inl same ↦ let e : k ≡ p = (ground (arith, same)) in rw (there, same) (rw (rw e at there))
    | inr apart ↦ rw (there, apart) (ground arith)
  ]
  | inr new ↦ rw new (any-append_one ks k p)
]

add_offset-Distinct : (k : ℕ) (ks : List ℕ) → Distinct ks → Distinct (add_offset k ks)
add_offset-Distinct k ks d p = elim (Bool-cases (any (λ j. j == k) ks)) [
  | inl there ↦ rw there (d p)
  | inr new ↦
      let c = count-append_one ks k p in
      let a = any-append_one ks k p in
      elim (Bool-cases (k == p)) [
        | inl same ↦
            let e : k ≡ p = (ground (arith, same)) in
            let n : any (λ j. j == p) ks ≡ false = (rw e at new) in rw (new, c, a, d p, same, n)
        | inr apart ↦ rw (new, c, a, d p, apart) (ground arith)
      ]
]

-- Whether the offset was noted for the track, and whether the track was.
abbrev pub noted : ℕ → ℕ → List (ℕ × List ℕ) → Bool
noted p t acc = any (λ j. j == p) (or_empty (lookup t acc))

abbrev pub present : ℕ → List (ℕ × List ℕ) → Bool
present t acc = is_some (lookup t acc)

pub record Tidy (acc : List (ℕ × List ℕ)) : Type 0 where
  pub distinct : (t : ℕ) → Distinct (or_empty (lookup t acc))
  pub unique : KeysUnique acc

noted-note_offset :
    (o : Option ℕ) (k p t : ℕ) (acc : List (ℕ × List ℕ))
    → noted p t (note_offset o k acc) ≡ noted p t acc || (is_id o t && k == p)
noted-note_offset none k p t acc = ground arith
noted-note_offset (some u) k p t acc = elim (Bool-cases (u == t)) [
  | inl same ↦
      let e : u ≡ t = (ground (arith, same)) in
      rw (e, lookup-put t (add_offset k (or_empty (lookup t acc))) acc, ==_refl t)
        (any-add_offset k p (or_empty (lookup t acc)))
  | inr apart ↦
      rw (lookup-put_other u t (add_offset k (or_empty (lookup u acc))) acc apart, apart)
        (ground arith)
]

present-note_offset :
    (o : Option ℕ) (k t : ℕ) (acc : List (ℕ × List ℕ))
    → present t (note_offset o k acc) ≡ present t acc || is_id o t
present-note_offset none k t acc = ground arith
present-note_offset (some u) k t acc = elim (Bool-cases (u == t)) [
  | inl same ↦
      let e : u ≡ t = (ground (arith, same)) in
      rw (e, lookup-put t (add_offset k (or_empty (lookup t acc))) acc, ==_refl t) (ground arith)
  | inr apart ↦
      rw (lookup-put_other u t (add_offset k (or_empty (lookup u acc))) acc apart, apart)
        (ground arith)
]

note_offset-Tidy :
    (o : Option ℕ) (k : ℕ) (acc : List (ℕ × List ℕ)) → Tidy acc → Tidy (note_offset o k acc)
note_offset-Tidy none k acc tidy = tidy
note_offset-Tidy (some u) k acc tidy = record {
  distinct = λ t. elim (Bool-cases (u == t)) [
    | inl same ↦
        let e : u ≡ t = (ground (arith, same)) in
        rw (e, lookup-put t (add_offset k (or_empty (lookup t acc))) acc)
          (add_offset-Distinct k (or_empty (lookup t acc)) (tidy.distinct t))
    | inr apart ↦
        rw (lookup-put_other u t (add_offset k (or_empty (lookup u acc))) acc apart)
          (tidy.distinct t)
  ];
  unique = put-KeysUnique u (add_offset k (or_empty (lookup u acc))) acc tidy.unique;
}

-- An entry of the index agrees with a track, and with an offset of it.
abbrev pub is_of : List ℕ → ℕ → ℕ × ℤ → Bool
is_of ids t c = is_id (get_elem? ids c.0) t

abbrev pub agrees : List ℕ → ℤ → ℕ → ℕ → ℕ × ℤ → Bool
agrees ids time p t c = is_of ids t c && offset_key (offset_from c.1 time) == p

pub noted-offsets_by_track :
    (ids : List ℕ) (time : ℤ) (p t : ℕ) (cs : List (ℕ × ℤ)) (acc : List (ℕ × List ℕ))
    → noted p t (offsets_by_track ids time cs acc) ≡ noted p t acc || any (agrees ids time p t) cs
noted-offsets_by_track ids time p t [] acc = ground arith
noted-offsets_by_track ids time p t ((i, source) ∷ cs) acc =
    let k = offset_key (offset_from source time) in
    let next = note_offset (get_elem? ids i) k acc in
    let rest = noted-offsets_by_track ids time p t cs next in
    let here = noted-note_offset (get_elem? ids i) k p t acc in rw (rest, here) (ground arith)

pub present-offsets_by_track :
    (ids : List ℕ) (time : ℤ) (t : ℕ) (cs : List (ℕ × ℤ)) (acc : List (ℕ × List ℕ))
    → present t (offsets_by_track ids time cs acc) ≡ present t acc || any (is_of ids t) cs
present-offsets_by_track ids time t [] acc = ground arith
present-offsets_by_track ids time t ((i, source) ∷ cs) acc =
    let k = offset_key (offset_from source time) in
    let next = note_offset (get_elem? ids i) k acc in
    let rest = present-offsets_by_track ids time t cs next in
    let here = present-note_offset (get_elem? ids i) k t acc in rw (rest, here) (ground arith)

pub offsets_by_track-Tidy :
    (ids : List ℕ) (time : ℤ) (cs : List (ℕ × ℤ)) (acc : List (ℕ × List ℕ))
    → Tidy acc
    → Tidy (offsets_by_track ids time cs acc)
offsets_by_track-Tidy ids time [] acc tidy = tidy
offsets_by_track-Tidy ids time ((i, source) ∷ cs) acc tidy =
    let k = offset_key (offset_from source time) in
    offsets_by_track-Tidy ids time cs (note_offset (get_elem? ids i) k acc)
      (note_offset-Tidy (get_elem? ids i) k acc tidy)
