-- ===== src/Songs/Suggestion.antt =====
-- src/services/songs.service.js: suggestSong, with the match that it looks up for the title and the
-- artist of a request. The lookup at MusicBrainz is a parameter, `none` when it fails. Of a match the
-- fields of `RecognitionMatch` are kept, with a score in thousandths.
pub mod Storing
pub mod Stored
use Prim.Native.Char.{code}
use hernan_pedraza_pi_back.Prelude.{
  ℕ, ◌+◌, ◌*◌, ◌/◌, String, Bool, true, false, not, ◌&&◌, ◌||◌, Option, none, some, is_some,
  or_else, List, [], ◌∷◌, map, ltb, leb, ◌==◌, str_eq, length, take, find?, sort_by, if◌then◌else◌,
}
use hernan_pedraza_pi_back.Errors.{Result, ok, err, validation, or_missing}
use hernan_pedraza_pi_back.Exec.{Exec, pure, lift, gets, update, ◌>>=◌, ◌>>◌}
use hernan_pedraza_pi_back.Mongo.{Mongo}
use hernan_pedraza_pi_back.Platform.{Platform}
use hernan_pedraza_pi_back.SongStates.{pending}
use hernan_pedraza_pi_back.Models.{
  Event, AudioTrack, RecognitionMatch, Song, Participant, Actor, Db,
}
use hernan_pedraza_pi_back.Participants.Access.{find_participant, assert_participant_session}
use hernan_pedraza_pi_back.Recognition.Thresholds.{Ratio, below}
use hernan_pedraza_pi_back.Songs.Metadata.{
  Cipher, map_metadata, encrypt_metadata, decrypt_metadata, find_song_event,
}
use hernan_pedraza_pi_back.Songs.Similarity.{Text, normalize_text, similarity}

pub data MatchedOn : Type 0 where
  title_artist by_title by_artist lenient : MatchedOn

pub record LocalMatch : Type 0 where
  pub track : AudioTrack
  pub score : ℕ
  pub matched_on : MatchedOn

pub record Options : Type 0 where
  pub fingerprint_track_id : Option ℕ
  pub music_brainz_confirmed : Bool
  pub music_brainz_match : Option RecognitionMatch
  pub skip_music_brainz_lookup : Bool

pub record Request : Type 0 where
  pub title : String
  pub artist : String
  pub total_duration : Option ℕ
  pub options : Options

abbrev codes : String → Text
codes String.[] = []
codes (String.◌∷◌ c s) = code c ∷ codes s

abbrev percent : ℕ → Ratio
percent n = record { num = n; den = 100 }

abbrev at_least : Ratio → ℕ → Bool
at_least a n = not (below a (percent n))

-- 0.65 of the score of the title and 0.35 of that of the artist.
unfoldable pub combined_score : Ratio → Ratio → Ratio
combined_score t a = record {
  num = 65 * t.num * a.den + 35 * a.num * t.den;
  den = 100 * t.den * a.den;
}

-- Number(score.toFixed(3)), in thousandths.
unfoldable pub rounded : Ratio → ℕ
rounded a = (2000 * a.num + a.den) / (2 * a.den)

-- What a match rests on; the strict pass takes no candidate that rests on nothing.
unfoldable pub matched_by : Bool → Ratio → Ratio → Option MatchedOn
matched_by strict t a =
    if at_least t 82 && at_least a 72
    then some title_artist
    else if at_least t 86
    then some by_title
    else if at_least a 90
    then some by_artist
    else if strict
    then none
    else some lenient

abbrev match_of : AudioTrack → ℕ → RecognitionMatch
match_of track score = record {
  track_id = some track.id;
  title = some track.title;
  artist = some track.artist;
  duration = some track.duration;
  score = score;
}

abbrev push_match : Option MatchedOn → AudioTrack → ℕ → List LocalMatch → List LocalMatch
push_match none track score rest = rest
push_match (some on) track score rest =
    record { track = track; score = score; matched_on = on } ∷ rest

module _ (fold : Text → Text) where
  -- The loop over the tracks, decrypted. `min_score` is a percentage.
  unfoldable pub local_candidates : Bool → ℕ → Text → Text → List AudioTrack → List LocalMatch
  unfolding normalize_text similarity combined_score rounded matched_by
  local_candidates strict min_score title artist [] = []
  local_candidates strict min_score title artist (track ∷ tracks) =
      let rest = local_candidates strict min_score title artist tracks in
      let t = similarity title (normalize_text fold (codes track.title)) in
      let a = similarity artist (normalize_text fold (codes track.artist)) in
      if below (combined_score t a) (percent min_score)
      then rest
      else push_match (matched_by strict t a) track (rounded (combined_score t a)) rest

abbrev higher_match : LocalMatch → LocalMatch → Bool
higher_match a b = ltb b.score a.score

abbrev first_match : List LocalMatch → Option RecognitionMatch
first_match [] = none
first_match (c ∷ cs) = some (match_of c.track c.score)

abbrev has_texts : RecognitionMatch → Bool
has_texts r = has_text r.title && has_text r.artist
  where
    has_text : Option String → Bool
    has_text none = false
    has_text (some s) = not (str_eq s "")

abbrev confirmed_match : Options → Option RecognitionMatch
confirmed_match o = if o.music_brainz_confirmed then with_texts o.music_brainz_match else none
  where
    with_texts : Option RecognitionMatch → Option RecognitionMatch
    with_texts none = none
    with_texts (some r) = if has_texts r then some r else none

abbrev title_or : Option RecognitionMatch → String → String
title_or none s = s
title_or (some r) s = or_text r.title s
  where
    or_text : Option String → String → String
    or_text none s = s
    or_text (some t) s = if str_eq t "" then s else t

abbrev artist_or : Option RecognitionMatch → String → String
artist_or none s = s
artist_or (some r) s = or_text r.artist s
  where
    or_text : Option String → String → String
    or_text none s = s
    or_text (some t) s = if str_eq t "" then s else t

abbrev duration_or : Option RecognitionMatch → Option ℕ → Option ℕ
duration_or none d = d
duration_or (some r) d = or_else r.duration d

abbrev suggests_as_premium : Option Participant → Bool
suggests_as_premium none = false
suggests_as_premium (some p) = p.is_premium

module _ (m : Mongo) (env : Platform) (cipher : Cipher) (fold : Text → Text)
    (find_recording_match : String → String → Option ℕ → Option RecognitionMatch) where
  abbrev decrypt_audio_track : Option Event → AudioTrack → AudioTrack
  decrypt_audio_track none t = t
  decrypt_audio_track (some e) t = record t {
    title = cipher.decrypt e t.title;
    artist = cipher.decrypt e t.artist;
  }

  unfoldable pub find_local_recognition_match :
      Db m → ℕ → String → String → Bool → ℕ → ℕ → List LocalMatch
  unfolding local_candidates normalize_text find_song_event
  find_local_recognition_match db e title artist strict limit min_score =
      let t = normalize_text fold (codes title) in
      let a = normalize_text fold (codes artist) in
      if length t == 0 && length a == 0
      then []
      else take limit (
          sort_by higher_match (
            local_candidates fold strict min_score t a (
              map (decrypt_audio_track (find_song_event m cipher db e))
                (m.find AudioTrack (λ x. x.event_id == e) db.audio_tracks))))

  -- MusicBrainz first, then a strict local match, then the best lenient one.
  unfoldable pub find_recognition_match :
      Db m → ℕ → String → String → Option ℕ → Option RecognitionMatch
  unfolding find_local_recognition_match
  find_recognition_match db e title artist total_duration =
      or_else (find_recording_match title artist total_duration) (
        or_else (first_match (find_local_recognition_match db e title artist true 1 0))
          (first_match (find_local_recognition_match db e title artist false 5 35)))

  unfoldable pub resolve_recognition_match : Db m → ℕ → Request → Option RecognitionMatch
  unfolding find_recognition_match
  resolve_recognition_match db e r = or_else (confirmed_match r.options) (
      if r.options.skip_music_brainz_lookup
      then none
      else find_recognition_match db e r.title r.artist r.total_duration)

  -- The track that the attendee picked: its score is 1.
  unfoldable pub selected_match : Db m → ℕ → ℕ → Result RecognitionMatch
  unfolding find_song_event
  selected_match db e t =
      found (m.find_one AudioTrack (λ x. x.id == t && x.event_id == e) db.audio_tracks)
    where
      found : Option AudioTrack → Result RecognitionMatch
      found none = err (validation "Selected fingerprint track was not found")
      found (some track) =
          ok (match_of (decrypt_audio_track (find_song_event m cipher db e) track) 1000)

  unfoldable pub chosen_match : Db m → ℕ → Request → Result (Option RecognitionMatch)
  unfolding selected_match resolve_recognition_match
  chosen_match db e r = by_id r.options.fingerprint_track_id
    where
      some_match : Result RecognitionMatch → Result (Option RecognitionMatch)
      some_match (ok x) = ok (some x)
      some_match (err x) = err x

      by_id : Option ℕ → Result (Option RecognitionMatch)
      by_id none = ok (resolve_recognition_match db e r)
      by_id (some t) = some_match (selected_match db e t)
