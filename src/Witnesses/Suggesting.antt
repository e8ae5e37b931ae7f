-- ===== src/Witnesses/Suggesting.antt =====
-- An attendee of the small event asks for a song that is close to a track of the event.
use hernan_pedraza_pi_back.Prelude.{ℕ, ◌≡◌, refl, String, true, false, Option, none, some, [], ◌∷◌}
use hernan_pedraza_pi_back.Errors.{ok}
use hernan_pedraza_pi_back.Mongo.{list_mongo}
use hernan_pedraza_pi_back.Platform.{plain_platform}
use hernan_pedraza_pi_back.Models.{RecognitionMatch, Db}
use hernan_pedraza_pi_back.Participants.Access.{assert_participant_session}
use hernan_pedraza_pi_back.Songs.Metadata.{no_cipher, decrypt_metadata, encrypt_metadata}
use hernan_pedraza_pi_back.Songs.Similarity.{Text, levenshtein}
use hernan_pedraza_pi_back.Songs.Similarity.Distance.{onto}
use hernan_pedraza_pi_back.Songs.Similarity.Scripts.{Least, levenshtein-Least}
use hernan_pedraza_pi_back.Songs.Suggestion.{Request, chosen_match}
use hernan_pedraza_pi_back.Songs.Suggestion.Storing.{suggested, suggest_song}
use hernan_pedraza_pi_back.Songs.Suggestion.Stored.{StoredIn, suggest_song-StoredIn}
use hernan_pedraza_pi_back.Witnesses.Samples.{db, ann_user, attendee_runs}

-- "tune" and "tuna".
abbrev tune_text : Text
tune_text = 116 ∷ 117 ∷ 110 ∷ 101 ∷ []

abbrev tuna_text : Text
tuna_text = 116 ∷ 117 ∷ 110 ∷ 97 ∷ []

tune_tuna : levenshtein tune_text tuna_text ≡ 1
unfolding levenshtein
tune_tuna = refl

levenshtein-Least_example :
    Least (onto tune_text []) (onto tuna_text []) (levenshtein tune_text tuna_text)
levenshtein-Least_example = levenshtein-Least tune_text tuna_text

abbrev as_typed : Text → Text
as_typed s = s

abbrev no_lookup : String → String → Option ℕ → Option RecognitionMatch
no_lookup title artist duration = none

abbrev library : Db list_mongo
library = record db {
  audio_tracks =
      record { id = 70; event_id = 1; title = "tune"; artist = "band"; duration = 180 } ∷ [];
}

abbrev wish : Request
wish = record {
  title = "tuna";
  artist = "band";
  total_duration = none;
  options = record {
    fingerprint_track_id = none;
    music_brainz_confirmed = false;
    music_brainz_match = none;
    skip_music_brainz_lookup = false;
  };
}

abbrev corrected : RecognitionMatch
corrected = record {
  track_id = some 70;
  title = some "tune";
  artist = some "band";
  duration = some 180;
  score = 838;
}

wish_finds :
    chosen_match list_mongo plain_platform no_cipher as_typed no_lookup library 1 wish
    ≡ ok (some corrected)
unfolding chosen_match
wish_finds = refl

wish_returns :
    (suggest_song list_mongo plain_platform no_cipher as_typed no_lookup 150 8 "u" 1 5 wish ann_user
      library).0
    ≡ ok (suggested 150 8 "u" 1 5 true (some corrected) wish)
unfolding attendee_runs assert_participant_session suggest_song suggested chosen_match
    decrypt_metadata encrypt_metadata
wish_returns = refl

suggest_song-StoredIn_example :
    StoredIn list_mongo plain_platform no_cipher as_typed no_lookup 1 5
      (suggested 150 8 "u" 1 5 true (some corrected) wish)
      library
      (suggest_song list_mongo plain_platform no_cipher as_typed no_lookup 150 8 "u" 1 5 wish
        ann_user library).1
suggest_song-StoredIn_example =
    suggest_song-StoredIn list_mongo plain_platform no_cipher as_typed no_lookup library 150 8 1 5
      "u" wish ann_user (suggested 150 8 "u" 1 5 true (some corrected) wish) wish_returns
