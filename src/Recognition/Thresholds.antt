-- ===== src/Recognition/Thresholds.antt =====
-- src/services/audio-recognition/match-thresholds.js: which match is a confident winner. Ratios of
-- numbers of hashes are exact: a ratio is below another if it is so after multiplying out.
use hernan_pedraza_pi_back.Prelude.{
  ℕ, ◌*◌, max, Bool, not, ◌&&◌, ◌||◌, Option, none, some, List, [], ◌∷◌, String, ltb, ◌==◌, sort_by,
  if◌then◌else◌,
}

-- An integer.
pub data ℤ : Type 0 where
  pos negsuc : ℕ → ℤ

pub record Ratio : Type 0 where
  pub num : ℕ
  pub den : ℕ

abbrev pub below : Ratio → Ratio → Bool
below a b = ltb (a.num * b.den) (b.num * a.den)

-- What the matcher reports of a track; the offset is a number as in Recognition/Numbers.
pub record Match : Type 0 where
  pub track_id : ℕ
  pub offset : ℤ
  pub score : ℕ
  pub total_aligned : ℕ
  pub offset_concentration : Option Ratio
  pub title : String
  pub artist : String
  pub cover_url : Option String
  pub duration : ℕ

pub record Thresholds : Type 0 where
  pub min_score : ℕ
  pub min_offset_concentration : Ratio
  pub min_margin_ratio : Ratio

-- Values that replace the configured ones; `none` for a value that is no finite number.
pub record Overrides : Type 0 where
  pub score_override : Option ℕ
  pub concentration_override : Option Ratio
  pub margin_override : Option Ratio

abbrev pub value_or {ℓ} : {A : Type ℓ} → Option A → A → A
value_or none d = d
value_or (some a) d = a

-- The configuration stands for `config.matcher` over the defaults.
unfoldable pub resolve_thresholds : Thresholds → Overrides → Thresholds
resolve_thresholds config o = record {
  min_score = value_or o.score_override config.min_score;
  min_offset_concentration = value_or o.concentration_override config.min_offset_concentration;
  min_margin_ratio = value_or o.margin_override config.min_margin_ratio;
}

abbrev pub share : ℕ → ℕ → Ratio
share score total =
    if total == 0 then record { num = 0; den = 1 } else record { num = score; den = total }

unfoldable pub compute_offset_concentration : Match → Ratio
compute_offset_concentration x = value_or x.offset_concentration (share x.score x.total_aligned)

-- The gates that failed.
pub record Failures : Type 0 where
  pub score_failed : Bool
  pub concentration_failed : Bool

unfoldable pub evaluate_absolute_gates : Match → Thresholds → Failures
unfolding compute_offset_concentration
evaluate_absolute_gates x t = record {
  score_failed = ltb x.score t.min_score;
  concentration_failed =
      below (compute_offset_concentration x) t.min_offset_concentration
      && ltb x.score (t.min_score * 10);
}

abbrev pub passed : Failures → Bool
passed f = not (f.score_failed || f.concentration_failed)

pub data Verdict {ℓ} (A : Type ℓ) : Type ℓ where
  no_candidates : Verdict A
  absolute_failed : Failures → Verdict A
  margin_too_low : Verdict A
  winner : A → Verdict A

abbrev pub margin : Match → Match → Ratio
margin top second = record { num = top.score; den = max 1 second.score }

abbrev pub judge_second : {A : Type 0} → (A → Match) → Thresholds → A → List A → Verdict A
judge_second match_of t top [] = winner top
judge_second match_of t top (second ∷ rest) =
    if below (margin (match_of top) (match_of second)) t.min_margin_ratio
    then margin_too_low
    else winner top

abbrev pub judge : {A : Type 0} → (A → Match) → Thresholds → List A → Verdict A
unfolding evaluate_absolute_gates
judge match_of t [] = no_candidates
judge match_of t (top ∷ rest) =
    if passed (evaluate_absolute_gates (match_of top) t)
    then judge_second match_of t top rest
    else absolute_failed (evaluate_absolute_gates (match_of top) t)

abbrev pub higher_score : {A : Type 0} → (A → Match) → A → A → Bool
higher_score match_of a b = ltb (match_of b).score (match_of a).score

-- The candidates carry more than a match; `match_of` is the part that is judged.
unfoldable pub is_confident_winner : {A : Type 0} → (A → Match) → Thresholds → List A → Verdict A
unfolding judge
is_confident_winner match_of t xs = judge match_of t (sort_by (higher_score match_of) xs)
