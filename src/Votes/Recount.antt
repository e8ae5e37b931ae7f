-- ===== src/Votes/Recount.antt =====
-- The recount of src/services/votes.service.js: weights, the sums over a song's votes, and what
-- they do to its status.
pub mod Tally
pub mod Ladder
use hernan_pedraza_pi_back.Prelude.{
  ℕ, ◌+◌, ◌/◌, max, Bool, true, false, ◌&&◌, ◌||◌, Option, none, some, List, [], ◌∷◌, ◌==◌, is_id,
  leb, length, if◌then◌else◌,
}
use hernan_pedraza_pi_back.Errors.{Result, or_missing}
use hernan_pedraza_pi_back.Mongo.{Mongo}
use hernan_pedraza_pi_back.Platform.{Platform}
use hernan_pedraza_pi_back.SongStates.{
  SongStatus, pending, approved, playing, played, rejected, skipped,
}
use hernan_pedraza_pi_back.Models.{Settings, Event, Song, Ballot, up, down, Vote, Db}
use hernan_pedraza_pi_back.Participants.Access.{count_active_participants}

abbrev pub premium_vote_weight : ℕ
premium_vote_weight = 2

abbrev pub regular_vote_weight : ℕ
regular_vote_weight = 1

-- `flag === false`
abbrev pub is_off : Option Bool → Bool
is_off (some false) = true
is_off (some true) = false
is_off none = false

unfoldable pub vote_weight : Settings → Vote → ℕ
vote_weight settings v =
    if is_off settings.premium_votes_enabled
    then regular_vote_weight
    else if v.is_premium_vote
    then premium_vote_weight
    else regular_vote_weight

abbrev pub is_up : Vote → Bool
is_up v = elim v.value [ up ↦ true | down ↦ false ]

-- One round of the loop over the votes.
unfoldable pub count_vote : Settings → Song → Vote → Song
count_vote settings song v =
    if is_up v
    then record song { vote_score = song.vote_score + vote_weight settings v }
    else record song { downvote_count = song.downvote_count + vote_weight settings v }

unfoldable pub count_votes : Settings → Song → List Vote → Song
unfolding count_vote
count_votes settings song [] = song
count_votes settings song (v ∷ vs) = count_votes settings (count_vote settings song v) vs

unfoldable pub recount : Settings → List Vote → Song → Song
unfolding count_votes
recount settings votes song =
    count_votes settings
      (record song { vote_score = 0; downvote_count = 0; vote_count = length votes }) votes

unfoldable pub auto_reject : ℕ → Song → Song
auto_reject now song = record song {
  status = rejected;
  auto_rejected_at = some now;
  removed_at = some now;
  removal_reason = some "Rejected by downvotes";
}

-- `approveLadderThreshold ?? 3`
abbrev pub ladder_threshold : Settings → ℕ
ladder_threshold settings = elim settings.approve_ladder_threshold [ none ↦ 3 | some n ↦ n ]

abbrev pub is_pending : SongStatus → Bool
is_pending pending = true
is_pending _ = false

abbrev pub is_running : SongStatus → Bool
is_running approved = true
is_running playing = true
is_running _ = false

abbrev pub is_playing : SongStatus → Bool
is_playing playing = true
is_playing _ = false

-- `threshold` is the answer of `_getAutoRejectThreshold`.
unfoldable pub apply_ladder_effects : ℕ → ℕ → Settings → Song → Song
unfolding auto_reject
apply_ladder_effects now threshold settings song =
    if is_pending song.status
    then (if leb threshold song.downvote_count
        then auto_reject now song
        else if leb (ladder_threshold settings) song.vote_score
        then record song { status = approved }
        else song)
    else song

-- Whether `_applyAutoReject` rejects.
unfoldable pub is_voted_out : ℕ → Song → Bool
is_voted_out threshold song = is_running song.status && leb threshold song.downvote_count

unfoldable pub apply_auto_reject : ℕ → ℕ → Song → Song
unfolding auto_reject is_voted_out
apply_auto_reject now threshold song =
    if is_voted_out threshold song then auto_reject now song else song

module _ (m : Mongo) (env : Platform) where
  unfoldable pub get_auto_reject_threshold : Db m → ℕ → ℕ
  get_auto_reject_threshold db e = max 1 ((count_active_participants m env db e + 1) / 2)

  unfoldable pub get_event_settings : Db m → ℕ → Result Settings
  get_event_settings db e =
      elim (or_missing (m.find_one Event (λ x. x.id == e) db.events) "Event not found") [
        | Result.err x ↦ Result.err x
        | Result.ok x ↦ Result.ok x.settings
      ]

  unfoldable pub votes_of : Db m → ℕ → List Vote
  votes_of db s = m.find Vote (λ v. v.song_id == s) db.votes

  -- What the event still shows as playing is taken away when that song is voted out.
  unfoldable pub clear_current_song : Song → Db m → Db m
  clear_current_song song db = record db {
    events =
        m.update_one Event (λ x. x.id == song.event_id && is_id x.current_song_id song.id)
          (λ x. record x { current_song_id = none }) db.events;
  }

  -- `_recalculateSongVoteState`: the song in memory, and the database after it.
  unfoldable pub recalculated : ℕ → Settings → Song → Db m → Song
  recalculated now settings song db =
      let threshold = get_auto_reject_threshold db song.event_id in
      apply_auto_reject now threshold
        (apply_ladder_effects now threshold settings (recount settings (votes_of db song.id) song))

  unfoldable pub recalculate_db : ℕ → Settings → Song → Db m → Db m
  recalculate_db now settings song db =
      let threshold = get_auto_reject_threshold db song.event_id in
      let s =
        apply_ladder_effects now threshold settings (recount settings (votes_of db song.id) song) in
      if is_voted_out threshold s && is_playing s.status then clear_current_song s db else db
