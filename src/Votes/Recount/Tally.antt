-- ===== src/Votes/Recount/Tally.antt =====
-- The sums of the recount are what counting the votes by kind gives.
use hernan_pedraza_pi_back.Prelude.{
  ℕ, ◌+◌, ◌≡◌, refl, Bool, not, ◌&&◌, List, [], ◌∷◌, arith, count, length, if◌then◌else◌,
}
use hernan_pedraza_pi_back.Models.{Settings, Song, Vote}
use hernan_pedraza_pi_back.Votes.Recount.{
  is_off, is_up, vote_weight, count_vote, count_votes, recount,
}

abbrev pub is_down : Vote → Bool
is_down v = not (is_up v)

-- The votes that weigh double: those cast as a premium attendee, where the event counts them so.
abbrev pub is_double : Settings → Vote → Bool
is_double settings v = not (is_off settings.premium_votes_enabled) && v.is_premium_vote

vote_weight_lem :
    (settings : Settings) (v : Vote)
    → vote_weight settings v ≡ (if is_double settings v then 2 else 1)
unfolding vote_weight
vote_weight_lem settings v = ground arith

abbrev pub ups : Settings → List Vote → ℕ
ups settings vs = count is_up vs + count (λ v. is_up v && is_double settings v) vs

abbrev pub downs : Settings → List Vote → ℕ
downs settings vs = count is_down vs + count (λ v. is_down v && is_double settings v) vs

count_votes_score :
    (settings : Settings) (song : Song) (vs : List Vote)
    → (count_votes settings song vs).vote_score ≡ song.vote_score + ups settings vs
unfolding count_votes
count_votes_score settings song [] = omega arith
count_votes_score settings song (v ∷ vs) =
    ground (
      arith,
      vote_weight_lem settings v,
      count_votes_score settings (count_vote settings song v) vs,
    )

count_votes-downs :
    (settings : Settings) (song : Song) (vs : List Vote)
    → (count_votes settings song vs).downvote_count ≡ song.downvote_count + downs settings vs
unfolding count_votes
count_votes-downs settings song [] = omega arith
count_votes-downs settings song (v ∷ vs) =
    ground (
      arith,
      vote_weight_lem settings v,
      count_votes-downs settings (count_vote settings song v) vs,
    )

count_votes_rest :
    (settings : Settings) (song : Song) (vs : List Vote)
    → record (count_votes settings song vs) { vote_score = 0; downvote_count = 0 }
      ≡ record song { vote_score = 0; downvote_count = 0 }
unfolding count_votes
count_votes_rest settings song [] = refl
count_votes_rest settings song (v ∷ vs) =
    ground (arith, count_votes_rest settings (count_vote settings song v) vs)

-- A recount sets the score to the number of upvotes plus the number of those that weigh double,
-- the downvote count likewise, the vote count to the number of votes, and nothing else.
pub recount_lem :
    (settings : Settings) (votes : List Vote) (song : Song)
    → recount settings votes song ≡ record song {
      vote_score = ups settings votes;
      downvote_count = downs settings votes;
      vote_count = length votes;
    }
unfolding recount
recount_lem settings votes song =
    let s : Song = record song { vote_score = 0; downvote_count = 0; vote_count = length votes } in
    ground (
      arith,
      count_votes_score settings s votes,
      count_votes-downs settings s votes,
      count_votes_rest settings s votes,
    )
