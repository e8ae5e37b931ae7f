-- ===== src/Songs/Suggestion/Storing.antt =====
-- src/services/songs.service.js: suggestSong. The formatted result is the song itself.
use Prim.Native.String
use hernan_pedraza_pi_back.Prelude.{ℕ, String, Bool, true, false, Option, none, some}
use hernan_pedraza_pi_back.Errors.{or_missing}
use hernan_pedraza_pi_back.Exec.{Exec, pure, lift, gets, update, ◌>>=◌, ◌>>◌}
use hernan_pedraza_pi_back.Mongo.{Mongo}
use hernan_pedraza_pi_back.Platform.{Platform}
use hernan_pedraza_pi_back.SongStates.{pending}
use hernan_pedraza_pi_back.Models.{RecognitionMatch, Song, Actor, Db}
use hernan_pedraza_pi_back.Participants.Access.{find_participant, assert_participant_session}
use hernan_pedraza_pi_back.Participants.Text.{decimal}
use hernan_pedraza_pi_back.Songs.Metadata.{
  Cipher, encrypt_metadata, decrypt_metadata, find_song_event,
}
use hernan_pedraza_pi_back.Songs.Similarity.{Text}
use hernan_pedraza_pi_back.Songs.Suggestion.{
  Request, title_or, artist_or, duration_or, suggests_as_premium, chosen_match,
}

-- The song before its texts are encrypted; the fields that the schema fills are written out.
unfoldable pub suggested : ℕ → ℕ → String → ℕ → ℕ → Bool → Option RecognitionMatch → Request → Song
unfolding decimal
suggested now i uuid e p premium found r = record {
  id = i;
  event_id = e;
  title = title_or found r.title;
  artist = artist_or found r.artist;
  recognition_match = found;
  requested_by = some p;
  status = pending;
  vote_score = 0;
  downvote_count = 0;
  vote_count = 0;
  is_premium_suggestion = premium;
  sort_key = String.◌++◌ (decimal now) (String.◌++◌ "_" uuid);
  total_duration = duration_or found r.total_duration;
  created_at = now;
  pinned = false;
  started_playing_at = none;
  skipped_at = none;
  skipped_by = none;
  skipped_reason = none;
  removed_at = none;
  removal_reason = none;
  auto_rejected_at = none;
}

module _ (m : Mongo) (env : Platform) (cipher : Cipher) (fold : Text → Text)
    (find_recording_match : String → String → Option ℕ → Option RecognitionMatch) where
  -- `i` and `uuid` are the identifier of the new song and the random part of its sort key.
  unfoldable pub suggest_song : ℕ → ℕ → String → ℕ → ℕ → Request → Actor → Exec (Db m) Song
  unfolding chosen_match suggested
  suggest_song now i uuid e p r actor = do
    _ ← assert_participant_session m env now p (some e) actor true
    premium ← gets (λ db. suggests_as_premium (find_participant m env db p))
    choice ← gets (λ db. chosen_match m env cipher fold find_recording_match db e r)
    found ← lift choice
    doc ← gets (λ db. or_missing (find_song_event m cipher db e) "Event not found")
    event ← lift doc
    let song = suggested now i uuid e p premium found r
    update (λ db. record db {
      songs = m.create Song (encrypt_metadata m cipher (some event) song) db.songs;
    })
    pure (decrypt_metadata m cipher (some event) (encrypt_metadata m cipher (some event) song))
