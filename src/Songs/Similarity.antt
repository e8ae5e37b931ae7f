-- ===== src/Songs/Similarity.antt =====
-- src/services/songs.service.js: normalizeText, similarity and levenshtein. A text is the list of the
-- codes of its characters; a normalized one has letters, digits and single blanks only. Ratios are
-- exact.
pub mod Distance
pub mod Scripts
use hernan_pedraza_pi_back.Prelude.{
  ℕ, zero, suc, ◌+◌, ◌-◌, ◌*◌, min, max, Bool, true, false, not, ◌&&◌, ◌||◌, List, [], ◌∷◌, ltb,
  leb, ◌==◌, length, any, count, if◌then◌else◌,
}
use hernan_pedraza_pi_back.Recognition.Thresholds.{Ratio, below}

abbrev pub Text : Type 0
Text = List ℕ

abbrev is_plain : ℕ → Bool
is_plain c = (leb b'a' c && leb c b'z') || (leb b'0' c && leb c b'9')

-- .replace(/[^a-z0-9]+/g, ' ').trim(), where `gap` says that other characters came before.
unfoldable pub words_from : Bool → Text → Text
words_from gap [] = []
words_from gap (c ∷ s) =
    let rest = words_from (not (is_plain c)) s in
    if is_plain c then (if gap then 32 ∷ c ∷ rest else c ∷ rest) else rest

abbrev without_blank : Text → Text
without_blank [] = []
without_blank (c ∷ s) = if c == 32 then s else c ∷ s

-- `fold` stands for the engine's NFD form without its marks, in lower case.
unfoldable pub normalize_text : (Text → Text) → Text → Text
unfolding words_from
normalize_text fold s = without_blank (words_from false (fold s))

abbrev pub same : Text → Text → Bool
same [] [] = true
same (c ∷ s) (d ∷ t) = c == d && same s t
same _ _ = false

abbrev starts : Text → Text → Bool
starts s [] = true
starts [] (d ∷ t) = false
starts (c ∷ s) (d ∷ t) = c == d && starts s t

-- s.includes(t)
unfoldable pub contains : Text → Text → Bool
contains [] t = starts [] t
contains (c ∷ s) t = starts (c ∷ s) t || contains s t

abbrev push_char : ℕ → List Text → List Text
push_char c [] = (c ∷ []) ∷ []
push_char c (w ∷ ws) = (c ∷ w) ∷ ws

-- s.split(' ')
unfoldable pub split_words : Text → List Text
split_words [] = [] ∷ []
split_words (c ∷ s) = let rest = split_words s in if c == 32 then [] ∷ rest else push_char c rest

-- new Set(...)
unfoldable pub distinct : List Text → List Text
distinct [] = []
distinct (w ∷ ws) = let rest = distinct ws in if any (same w) ws then rest else w ∷ rest

-- One row of the table after another: `prev` is the cell up and to the left, `left` the one before.
unfoldable pub cells : ℕ → ℕ → ℕ → Text → List ℕ → List ℕ
cells x prev left [] row = []
cells x prev left (y ∷ ys) [] = []
cells x prev left (y ∷ ys) (next ∷ row) =
    let cell = if x == y then prev else min (min prev left) next + 1 in
    cell ∷ cells x next cell ys row

abbrev pub next_row : ℕ → ℕ → Text → List ℕ → List ℕ
next_row i x b [] = []
next_row i x b (prev ∷ row) = i ∷ cells x prev i b row

unfoldable pub fill_rows : ℕ → Text → Text → List ℕ → List ℕ
unfolding cells
fill_rows i [] b row = row
fill_rows i (x ∷ a) b row = fill_rows (i + 1) a b (next_row i x b row)

abbrev pub count_up : ℕ → Text → List ℕ
count_up n [] = []
count_up n (y ∷ ys) = n ∷ count_up (n + 1) ys

abbrev pub last_cell : ℕ → List ℕ → ℕ
last_cell n [] = n
last_cell n (m ∷ ms) = last_cell m ms

unfoldable pub levenshtein : Text → Text → ℕ
unfolding fill_rows
levenshtein a b = last_cell 0 (fill_rows 1 a b (0 ∷ count_up 1 b))

abbrev ratio : ℕ → ℕ → Ratio
ratio n d = record { num = n; den = d }

abbrev larger : Ratio → Ratio → Ratio
larger a b = if below a b then b else a

abbrev overlap : List Text → List Text → ℕ
overlap a b = count (λ w. any (same w) b) a

unfoldable pub token_score : Text → Text → Ratio
unfolding distinct split_words
token_score a b =
    let a_tokens = distinct (split_words a) in
    let b_tokens = distinct (split_words b) in
    ratio (2 * overlap a_tokens b_tokens) (length a_tokens + length b_tokens)

unfoldable pub edit_score : Text → Text → Ratio
unfolding levenshtein
edit_score a b = let longer = max (length a) (length b) in ratio (longer - levenshtein a b) longer

unfoldable pub similarity : Text → Text → Ratio
unfolding contains token_score edit_score
similarity a b =
    if length a == 0 || length b == 0
    then ratio 0 1
    else if same a b
    then ratio 1 1
    else if contains a b || contains b a
    then ratio (min (length a) (length b)) (max (length a) (length b))
    else larger (token_score a b) (edit_score a b)
