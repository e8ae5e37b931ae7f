-- ===== src/Songs/Similarity/Distance.antt =====
-- The table of levenshtein in src/services/songs.service.js against the recurrence for the distance of
-- two texts.
use hernan_pedraza_pi_back.Prelude.{
  ℕ, suc, ◌+◌, ◌≤◌, min, max, List, [], ◌∷◌, ◌==◌, length, if◌then◌else◌, if_elim, ◌≡◌, refl, sym,
  ap, ◌∙◌, arith,
}
use hernan_pedraza_pi_back.Songs.Similarity.{
  Text, cells, next_row, fill_rows, count_up, last_cell, levenshtein,
}

-- The number of single characters to insert, delete or replace between two texts that are read
-- from their ends.
unfoldable pub distance : Text → Text → ℕ
distance [] s = length s
distance (x ∷ r) [] = suc (length r)
distance (x ∷ r) (y ∷ s) =
    if x == y
    then distance r s
    else min (min (distance r s) (distance (x ∷ r) s)) (distance r (y ∷ s)) + 1

-- A text read from its end, in front of another.
abbrev pub onto : Text → Text → Text
onto [] r = r
onto (x ∷ s) r = onto s (x ∷ r)

-- The cells of a row behind a prefix of `b`.
tails : Text → Text → Text → List ℕ
tails r s [] = []
tails r s (y ∷ b) = distance r (y ∷ s) ∷ tails r (y ∷ s) b

cells-tails :
    (x : ℕ) (r s b : Text)
    → cells x (distance r s) (distance (x ∷ r) s) b (tails r s b) ≡ tails (x ∷ r) s b
unfolding cells tails distance
cells-tails x r s [] = refl
cells-tails x r s (y ∷ b) = ap (λ t. distance (x ∷ r) (y ∷ s) ∷ t) (cells-tails x r (y ∷ s) b)

-- The row of the table for a prefix of `a`.
row : Text → Text → List ℕ
row r b = distance r [] ∷ tails r [] b

distance_of_nothing : (r : Text) → distance r [] ≡ length r
unfolding distance
distance_of_nothing [] = refl
distance_of_nothing (x ∷ r) = refl

first_row : (s b : Text) → tails [] s b ≡ count_up (length s + 1) b
unfolding tails distance
first_row s [] = refl
first_row s (y ∷ b) =
    let n : suc (length s) ≡ length s + 1 = omega arith in
    ap (λ k. k ∷ tails [] (y ∷ s) b) n
    ∙ ap (λ t. (length s + 1) ∷ t) (first_row (y ∷ s) b ∙ ap (λ k. count_up (k + 1) b) n)

next_row-row : (x : ℕ) (r b : Text) → next_row (length r + 1) x b (row r b) ≡ row (x ∷ r) b
unfolding row
next_row-row x r b =
    let i : length r + 1 ≡ distance (x ∷ r) [] =
      sym (distance_of_nothing (x ∷ r) ∙ (omega arith)) in
    ap (λ k. k ∷ cells x (distance r []) k b (tails r [] b)) i
    ∙ ap (λ t. distance (x ∷ r) [] ∷ t) (cells-tails x r [] b)

fill_rows-row : (a r b : Text) → fill_rows (length r + 1) a b (row r b) ≡ row (onto a r) b
unfolding fill_rows
fill_rows-row [] r b = refl
fill_rows-row (x ∷ a) r b =
    let n : length r + 1 ≡ length (x ∷ r) = omega arith in
    ap (λ t. fill_rows (length r + 1 + 1) a b t) (next_row-row x r b)
    ∙ ap (λ k. fill_rows (k + 1) a b (row (x ∷ r) b)) n
    ∙ fill_rows-row a (x ∷ r) b

last_cell-tails : (r s b : Text) → last_cell (distance r s) (tails r s b) ≡ distance r (onto b s)
unfolding tails
last_cell-tails r s [] = refl
last_cell-tails r s (y ∷ b) = last_cell-tails r (y ∷ s) b

-- Between any two texts, the table that levenshtein fills row by row gives their distance: the
-- least number of insertions, deletions and replacements that the recurrence on the last characters
-- counts.
pub levenshtein-distance : (a b : Text) → levenshtein a b ≡ distance (onto a []) (onto b [])
unfolding levenshtein row
levenshtein-distance a b =
    let start : 0 ∷ count_up 1 b ≡ row [] b =
      (ap (λ k. k ∷ count_up 1 b) (sym (distance_of_nothing []))
        ∙ ap (λ t. distance [] [] ∷ t) (sym (first_row [] b))) in
    ap (λ t. last_cell 0 (fill_rows 1 a b t)) start
    ∙ ap (λ t. last_cell 0 t) (fill_rows-row a [] b)
    ∙ last_cell-tails (onto a []) [] b

distance_bound : (r s : Text) → distance r s ≤ max (length r) (length s)
unfolding distance
distance_bound [] s = ground arith
distance_bound (x ∷ r) [] = ground arith
distance_bound (x ∷ r) (y ∷ s) =
    let rest = distance_bound r s in
    if_elim (λ n. n ≤ max (suc (length r)) (suc (length s))) (x == y) _ _ (ground (arith, rest))
      (ground (arith, rest))

length-onto : (s r : Text) → length (onto s r) ≡ length s + length r
length-onto [] r = omega arith
length-onto (x ∷ s) r = ground (arith, length-onto s (x ∷ r))

-- The value of levenshtein is no larger than the longer text, so an edit score is not negative.
pub levenshtein_bound : (a b : Text) → levenshtein a b ≤ max (length a) (length b)
levenshtein_bound a b = ground (
  arith,
  levenshtein-distance a b,
  distance_bound (onto a []) (onto b []),
  length-onto a [],
  length-onto b [],
)
