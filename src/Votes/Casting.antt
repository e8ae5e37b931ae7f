-- ===== src/Votes/Casting.antt =====
-- The methods of src/services/votes.service.js that cast, remove and read votes, and the recount of
-- a whole event.
pub mod Ballots
pub mod Removal
use hernan_pedraza_pi_back.Prelude.{
  ℕ, ◌+◌, String, Bool, true, false, not, ◌&&◌, ◌||◌, Option, none, some, List, [], ◌∷◌, ◌++◌, ◌==◌,
  is_id, is_some, take, length, if◌then◌else◌,
}
use hernan_pedraza_pi_back.Errors.{Result, ok, err, validation, not_found, or_missing, refuse}
use hernan_pedraza_pi_back.Exec.{Exec, pure, raise, lift, gets, update, ◌>>=◌, ◌>>◌}
use hernan_pedraza_pi_back.Mongo.{Mongo}
use hernan_pedraza_pi_back.Platform.{Platform}
use hernan_pedraza_pi_back.SongStates.{
  SongStatus, pending, approved, playing, played, rejected, skipped, same_status,
}
use hernan_pedraza_pi_back.Models.{Settings, Song, Participant, Ballot, up, down, Vote, Actor, Db}
use hernan_pedraza_pi_back.Participants.Access.{find_participant, ensure_participant_can_interact}
use hernan_pedraza_pi_back.Votes.Recount.{
  is_off, is_up, is_pending, is_running, get_event_settings, recalculated, recalculate_db,
}

-- `_formatSongVoteState`
pub record SongVoteState : Type 0 where
  pub id : ℕ
  pub event_id : ℕ
  pub title : String
  pub artist : String
  pub status : SongStatus
  pub vote_score : ℕ
  pub downvote_count : ℕ
  pub vote_count : ℕ
  pub auto_rejected_at : Option ℕ
  pub removal_reason : Option String

unfoldable pub format_song_vote_state : Song → SongVoteState
format_song_vote_state s = record {
  id = s.id;
  event_id = s.event_id;
  title = s.title;
  artist = s.artist;
  status = s.status;
  vote_score = s.vote_score;
  downvote_count = s.downvote_count;
  vote_count = s.vote_count;
  auto_rejected_at = s.auto_rejected_at;
  removal_reason = s.removal_reason;
}

pub record CastResult : Type 0 where
  pub vote : Vote
  pub song : SongVoteState
  pub auto_rejected : Bool

abbrev pub is_rejected : SongStatus → Bool
is_rejected rejected = true
is_rejected _ = false

-- The recount of every song of an event that is still in play.
pub record Recomputed : Type 0 where
  pub changed_songs : List SongVoteState
  pub rejected_songs : List SongVoteState

module _ (m : Mongo) (env : Platform) where
  unfoldable pub find_song : Db m → ℕ → Option Song
  find_song db s = m.find_one Song (λ x. x.id == s) db.songs

  abbrev pub is_vote_of : ℕ → ℕ → Vote → Bool
  is_vote_of s p v = v.song_id == s && v.participant_id == p

  unfoldable pub find_vote : Db m → ℕ → ℕ → Option Vote
  find_vote db s p = m.find_one Vote (is_vote_of s p) db.votes

  unfoldable pub save_song : Song → Db m → Db m
  save_song song db = record db { songs = m.save Song (λ x. x.id == song.id) song db.songs }

  unfoldable pub save_vote : Vote → Db m → Db m
  save_vote v db = record db { votes = m.save Vote (λ x. x.id == v.id) v db.votes }

  unfoldable pub create_vote : Vote → Db m → Db m
  create_vote v db = record db { votes = m.create Vote v db.votes }

  -- `_recalculateSongVoteState` and `song.save()`.
  unfoldable pub recalculate_and_save : ℕ → Settings → Song → Exec (Db m) Song
  recalculate_and_save now settings song = do
    s ← gets (λ db. recalculated m env now settings song db)
    update (recalculate_db m env now settings song)
    update (save_song s)
    pure s

  -- A vote with the value and the voter's standing of this call: the one that was there, or a new
  -- one.
  unfoldable pub ballot : ℕ → ℕ → ℕ → ℕ → Ballot → Bool → Option Vote → Vote
  ballot now i s p value premium none = record {
    id = i;
    song_id = s;
    participant_id = p;
    value = value;
    is_premium_vote = premium;
    created_at = now;
  }
  ballot now i s p value premium (some v) = record v { value = value; is_premium_vote = premium }

  unfoldable pub store_vote : Option Vote → Vote → Db m → Db m
  unfolding save_vote create_vote
  store_vote none v = create_vote v
  store_vote (some old) v = save_vote v

  abbrev pub premium_of : Option Participant → Bool
  premium_of none = false
  premium_of (some p) = p.is_premium

  unfoldable pub check_voting : Settings → Ballot → Result (Unit {0})
  check_voting settings value =
      if is_off settings.voting_enabled
      then err (validation "Voting is disabled for this event")
      else elim value [
        | up ↦ ok tt
        | down ↦
            refuse (is_off settings.allow_downvotes)
              (validation "Downvotes are disabled for this event")
      ]

  -- The end of `castVote`, after its checks.
  unfoldable pub record_vote : ℕ → ℕ → ℕ → ℕ → Ballot → Settings → Song → Exec (Db m) CastResult
  record_vote now i s p value settings song = do
    voter ← gets (λ db. find_participant m env db p)
    old ← gets (λ db. find_vote db s p)
    let v = ballot now i s p value (premium_of voter) old
    update (store_vote old v)
    after ← recalculate_and_save now settings song
    pure (record {
      vote = v;
      song = format_song_vote_state after;
      auto_rejected =
          not (is_rejected song.status)
          && is_rejected after.status
          && is_some after.auto_rejected_at;
    })

  -- The body of `castVote` for a value of 1 or -1; `i` is the identifier that a new vote gets.
  unfoldable pub cast_ballot : ℕ → ℕ → ℕ → ℕ → Ballot → Option Actor → Exec (Db m) CastResult
  cast_ballot now i s p value actor = do
    found ← gets (λ db. or_missing (find_song db s) "Song not found")
    song ← lift found
    read ← gets (λ db. get_event_settings m env db song.event_id)
    settings ← lift read
    lift (check_voting settings value)
    _ ← ensure_participant_can_interact m env now p (some song.event_id) true actor
    record_vote now i s p value settings song

  -- A value that is neither 1 nor -1 is `none`.
  unfoldable pub cast_vote : ℕ → ℕ → ℕ → ℕ → Option Ballot → Option Actor → Exec (Db m) CastResult
  unfolding cast_ballot
  cast_vote now i s p none actor = raise (validation "Vote value must be 1 or -1")
  cast_vote now i s p (some value) actor = cast_ballot now i s p value actor

  -- The deletion in `findOneAndDelete`, by the identifier of the document that was found.
  unfoldable pub delete_vote : Vote → Db m → Db m
  delete_vote v db = record db { votes = m.delete_many Vote (λ x. x.id == v.id) db.votes }

  unfoldable pub remove_vote : ℕ → ℕ → ℕ → Option Actor → Exec (Db m) SongVoteState
  remove_vote now s p actor = do
    found ← gets (λ db. or_missing (find_song db s) "Song not found")
    song ← lift found
    _ ← ensure_participant_can_interact m env now p (some song.event_id) true actor
    cast ← gets (λ db. or_missing (find_vote db s p) "Vote not found")
    v ← lift cast
    update (delete_vote v)
    read ← gets (λ db. get_event_settings m env db song.event_id)
    settings ← lift read
    after ← recalculate_and_save now settings song
    pure (format_song_vote_state after)

  unfoldable pub get_participant_vote : Db m → ℕ → ℕ → Option Vote
  get_participant_vote db s p = find_vote db s p

  unfoldable pub get_song_votes : Db m → ℕ → List Vote
  get_song_votes db s = m.find Vote (λ v. v.song_id == s) db.votes

  unfoldable pub is_changed : Song → Song → Bool
  is_changed before after =
      not (before.vote_score == after.vote_score)
      || not (before.downvote_count == after.downvote_count)
      || not (before.vote_count == after.vote_count)
      || not (same_status before.status after.status)

  unfoldable pub recompute_songs : ℕ → Settings → List Song → Recomputed → Exec (Db m) Recomputed
  unfolding is_changed
  recompute_songs now settings [] acc db = (ok acc, db)
  recompute_songs now settings (song ∷ songs) acc db =
      let after = recalculated m env now settings song db in
      let db' = recalculate_db m env now settings song db in
      let changed = is_changed song after in
      let lost = not (is_rejected song.status) && is_rejected after.status in
      recompute_songs now settings songs
        (record {
          changed_songs =
              if changed
              then acc.changed_songs ++ format_song_vote_state after ∷ []
              else acc.changed_songs;
          rejected_songs =
              if changed && lost
              then acc.rejected_songs ++ format_song_vote_state after ∷ []
              else acc.rejected_songs;
        })
        (if changed then save_song after db' else db')

  unfoldable pub recompute_active_songs_for_event : ℕ → ℕ → Exec (Db m) Recomputed
  recompute_active_songs_for_event now e = do
    songs ← gets (λ db.
        m.find Song (λ s. s.event_id == e && (is_pending s.status || is_running s.status)) db.songs)
    read ← gets (λ db. get_event_settings m env db e)
    settings ← lift read
    recompute_songs now settings songs (record { changed_songs = []; rejected_songs = [] })
