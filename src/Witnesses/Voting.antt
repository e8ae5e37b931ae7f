-- ===== src/Witnesses/Voting.antt =====
-- Votes on the waiting song of the small event.
use hernan_pedraza_pi_back.Prelude.{
  ◌≡◌, ◌↔◌, ◌⊎◌, refl, sym, ◌∙◌, true, none, some, [], ◌∷◌, arith, Memᴰ,
}
use hernan_pedraza_pi_back.Errors.{ok, Returns}
use hernan_pedraza_pi_back.Mongo.{list_mongo}
use hernan_pedraza_pi_back.Platform.{plain_platform}
use hernan_pedraza_pi_back.SongStates.{pending, rejected}
use hernan_pedraza_pi_back.SongStates.Order.{Transition}
use hernan_pedraza_pi_back.Models.{Vote, down}
use hernan_pedraza_pi_back.Votes.Recount.{recount, recalculated}
use hernan_pedraza_pi_back.Votes.Recount.Tally.{recount_lem}
use hernan_pedraza_pi_back.Votes.Recount.Ladder.{
  IsVotedOut, recalculated-rejected_iff, recalculated-Transition,
}
use hernan_pedraza_pi_back.Votes.Casting.{
  CastResult, cast_ballot, find_vote, remove_vote, delete_vote,
}
use hernan_pedraza_pi_back.Votes.Casting.Ballots.{IdsUnique, OneVoteEach, cast_ballot-OneVoteEach}
use hernan_pedraza_pi_back.Votes.Casting.Removal.{remove_vote-find_vote}
use hernan_pedraza_pi_back.Witnesses.Samples.{db, tune, upvote, open_settings, ann_user, vote_runs}

recount_lem_example :
    recount open_settings (upvote ∷ []) tune
    ≡ record tune { vote_score = 2; downvote_count = 0; vote_count = 1 }
recount_lem_example = recount_lem open_settings (upvote ∷ []) tune

recalculated-rejected_iff_example :
    ((recalculated list_mongo plain_platform 300 open_settings tune db).status ≡ rejected)
    ↔ IsVotedOut list_mongo plain_platform db open_settings tune
recalculated-rejected_iff_example =
    recalculated-rejected_iff list_mongo plain_platform db 300 open_settings tune refl

recalculated-Transition_example :
    ((recalculated list_mongo plain_platform 300 open_settings tune db).status ≡ pending)
    ⊎ Transition pending (recalculated list_mongo plain_platform 300 open_settings tune db).status
recalculated-Transition_example =
    recalculated-Transition list_mongo plain_platform db 300 open_settings tune

sole : {x : Vote} → Memᴰ x (upvote ∷ []) → x ≡ upvote
sole (Memᴰ.head e) = e
sole (Memᴰ.tail there) = elim there [ ]

db-IdsUnique : IdsUnique list_mongo plain_platform db
db-IdsUnique x y here there same = sole here ∙ sym (sole there)

db-OneVoteEach : OneVoteEach list_mongo plain_platform db
db-OneVoteEach s p = ground arith

cast_ballot-OneVoteEach_example :
    OneVoteEach list_mongo plain_platform
      (cast_ballot list_mongo plain_platform 300 41 3 5 down (some ann_user) db).1
cast_ballot-OneVoteEach_example =
    cast_ballot-OneVoteEach list_mongo plain_platform 300 41 3 5 down (some ann_user) db
      db-IdsUnique db-OneVoteEach

abbrev downvoted : CastResult
downvoted = record {
  vote = record upvote { value = down };
  song = record {
    id = 3;
    event_id = 1;
    title = "Tune";
    artist = "Band";
    status = rejected;
    vote_score = 0;
    downvote_count = 2;
    vote_count = 1;
    auto_rejected_at = some 300;
    removal_reason = some "Rejected by downvotes";
  };
  auto_rejected = true;
}

ann_votes_down :
    (cast_ballot list_mongo plain_platform 300 41 3 5 down (some ann_user) db).0 ≡ ok downvoted
unfolding vote_runs
ann_votes_down = refl

removes : Returns (remove_vote list_mongo plain_platform 300 3 5 (some ann_user) db).0
unfolding vote_runs remove_vote delete_vote
removes = tt

remove_vote-find_vote_example :
    find_vote list_mongo plain_platform
      (remove_vote list_mongo plain_platform 300 3 5 (some ann_user) db).1
      3
      5
    ≡ none
remove_vote-find_vote_example =
    remove_vote-find_vote list_mongo plain_platform 300 3 5 (some ann_user) db db-OneVoteEach
      removes
