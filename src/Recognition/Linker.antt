-- ===== src/Recognition/Linker.antt =====
-- src/services/audio-recognition/queue-linker.js: what a recognised track means for the queue of
-- the event. `key_before` orders sort keys as the database does.
use Prim.Native.Char.{code}
use hernan_pedraza_pi_back.Prelude.{
  ℕ, Bool, true, false, not, ◌&&◌, ◌||◌, Option, none, some, List, [], ◌∷◌, map, String, ltb, leb,
  ◌==◌, is_some, is_id, or_else, filter, length, str_eq, if◌then◌else◌,
}
use mathlib.Core.Option
use hernan_pedraza_pi_back.Mongo.{Mongo}
use hernan_pedraza_pi_back.Platform.{Platform}
use hernan_pedraza_pi_back.SongStates.{SongStatus}
use hernan_pedraza_pi_back.Models.{Event, Song, AudioTrack, Db}
use hernan_pedraza_pi_back.Songs.Metadata.{Cipher, decrypt_metadata, find_song_event}
use hernan_pedraza_pi_back.Songs.Playback.{
  track_of, is_next, is_approved_status, is_playing_status, queue_db_sort,
}
use hernan_pedraza_pi_back.Recognition.Thresholds.{Match}

-- `formatQueueSongSummary`
pub record SongSummary : Type 0 where
  pub song_id : ℕ
  pub event_id : ℕ
  pub title : String
  pub artist : String
  pub status : SongStatus
  pub pinned : Bool
  pub vote_score : ℕ
  pub total_duration : Option ℕ
  pub started_playing_at : Option ℕ
  pub requested_by : Option ℕ

unfoldable pub format_queue_song_summary : Song → SongSummary
format_queue_song_summary s = record {
  song_id = s.id;
  event_id = s.event_id;
  title = s.title;
  artist = s.artist;
  status = s.status;
  pinned = s.pinned;
  vote_score = s.vote_score;
  total_duration = s.total_duration;
  started_playing_at = s.started_playing_at;
  requested_by = s.requested_by;
}

-- A flag or a hint that the code leaves out is `none`.
pub record QueueContext : Type 0 where
  pub has_match : Bool
  pub is_in_queue : Bool
  pub has_pending : Bool
  pub has_approved : Bool
  pub has_playing : Bool
  pub pending : Option SongSummary
  pub next_approved : Option SongSummary
  pub approved_count : ℕ
  pub playing : Option SongSummary
  pub is_playable_now : Option Bool
  pub suggested_action : Option String

-- A match with its context in the queue, and the time when it was locked.
pub record Candidate : Type 0 where
  pub found : Match
  pub context : QueueContext
  pub locked_at : Option ℕ

abbrev pub is_pending_status : SongStatus → Bool
is_pending_status SongStatus.pending = true
is_pending_status _ = false

abbrev pub is_active_status : SongStatus → Bool
is_active_status s = (is_pending_status s || is_approved_status s) || is_playing_status s

-- The last one of a list that passes, which the loop leaves in its variable.
abbrev pub last_of : (Song → Bool) → List Song → Option Song
last_of p [] = none
last_of p (x ∷ xs) = or_else (last_of p xs) (if p x then some x else none)

abbrev pub head_of : List Song → Option Song
head_of [] = none
head_of (x ∷ xs) = some x

unfoldable pub suggest_action : Bool → Bool → Bool → String
suggest_action playing approved pending =
    if playing
    then "already_playing"
    else if approved
    then "send_now"
    else if pending
    then "awaiting_approval"
    else "no_queue_entry"

-- The context of a track without songs, as enrichment leaves it and as the session makes it.
abbrev pub absent_context : QueueContext
absent_context = record {
  has_match = false;
  is_in_queue = false;
  has_pending = false;
  has_approved = false;
  has_playing = false;
  pending = none;
  next_approved = none;
  approved_count = 0;
  playing = none;
  is_playable_now = none;
  suggested_action = none;
}

abbrev pub empty_queue_context : QueueContext
empty_queue_context = record absent_context {
  is_playable_now = some false;
  suggested_action = some "no_queue_entry";
}

-- The context of the songs of one track. No code of the repository stores a `queuePosition`, so
-- sorting by it leaves the approved ones in their order.
unfoldable pub context_of : List Song → QueueContext
unfolding format_queue_song_summary suggest_action
context_of [] = absent_context
context_of (x ∷ xs) =
    let songs = x ∷ xs in
    let pending =
      Option.map format_queue_song_summary (last_of (λ s. is_pending_status s.status) songs) in
    let approved = filter (λ s. is_approved_status s.status) songs in
    let playing =
      Option.map format_queue_song_summary (last_of (λ s. is_playing_status s.status) songs) in
    record {
      has_match = true;
      is_in_queue = true;
      has_pending = is_some pending;
      has_approved = is_some (head_of approved);
      has_playing = is_some playing;
      pending = pending;
      next_approved = Option.map format_queue_song_summary (head_of approved);
      approved_count = length approved;
      playing = playing;
      is_playable_now = some (is_some playing || is_some (head_of approved));
      suggested_action =
          some (suggest_action (is_some playing) (is_some (head_of approved)) (is_some pending));
    }

-- The song that comes next, with its track.
pub record Target : Type 0 where
  pub track_id : Option ℕ
  pub song_id : ℕ

-- String(s).toLowerCase().replace(/[^a-z0-9]+/g, '')
abbrev pub letters_and_digits : String → String
letters_and_digits String.[] = ""
letters_and_digits (String.◌∷◌ c s) =
    if (leb b'a' (code c) && leb (code c) b'z') || (leb b'0' (code c) && leb (code c) b'9')
    then String.◌∷◌ c (letters_and_digits s)
    else letters_and_digits s

unfoldable pub fuzzy_equals : Platform → String → String → Bool
fuzzy_equals env a b =
    not (str_eq a "")
    && not (str_eq b "")
    && str_eq (letters_and_digits (env.to_lower a)) (letters_and_digits (env.to_lower b))

abbrev pub older_song : Song → Song → Bool
older_song a b = ltb a.created_at b.created_at

abbrev pub decrypt_track : Cipher → Option Event → AudioTrack → AudioTrack
decrypt_track cipher none t = t
decrypt_track cipher (some e) t = record t {
  title = cipher.decrypt e t.title;
  artist = cipher.decrypt e t.artist;
}

module _ (m : Mongo) (env : Platform) (cipher : Cipher) (key_before : String → String → Bool) where
  abbrev pub plain_song : Db m → ℕ → Song → Song
  plain_song db e s = decrypt_metadata m cipher (find_song_event m cipher db e) s

  unfoldable pub find_queue_context_for_track : Db m → ℕ → ℕ → QueueContext
  find_queue_context_for_track db e t = context_of (
      map (plain_song db e) (
        m.find Song (λ s. (s.event_id == e && is_id (track_of s) t) && is_active_status s.status)
          db.songs))

  unfoldable pub find_up_next_queue_track : Db m → ℕ → Option Target
  find_up_next_queue_track db e =
      Option.map (λ s. record { track_id = track_of s; song_id = s.id })
        (m.find_first Song (queue_db_sort key_before) (is_next e) db.songs)

  -- `enrichMatchesWithQueueContext` fetches the songs of all tracks at once; per match it takes
  -- those of its track.
  unfoldable pub enrich_match : Db m → ℕ → Match → Candidate
  enrich_match db e x = record {
    found = x;
    context = find_queue_context_for_track db e x.track_id;
    locked_at = none;
  }

  unfoldable pub enrich_matches_with_queue_context : Db m → ℕ → List Match → List Candidate
  enrich_matches_with_queue_context db e xs = map (enrich_match db e) xs

  abbrev pub unbound_pending : ℕ → Song → Bool
  unbound_pending e s =
      (s.event_id == e && is_pending_status s.status) && not (is_some (track_of s))

  abbrev pub close_texts : Song → AudioTrack → Bool
  close_texts s t = fuzzy_equals env s.title t.title || fuzzy_equals env s.artist t.artist

  abbrev pub encrypted_text : Option Event → String → String
  encrypted_text none s = s
  encrypted_text (some e) s = cipher.encrypt e s

  abbrev pub bound_match : Option Event → ℕ → AudioTrack → Song → Song
  bound_match doc t track s = record s {
    recognition_match = some (record {
      track_id = some t;
      title = some (encrypted_text doc track.title);
      artist = some (encrypted_text doc track.artist);
      duration = elim s.recognition_match [ none ↦ none | some r ↦ r.duration ];
      score = 1000;
    });
  }

  abbrev pub bind_if_close : Db m → Option Event → ℕ → Option Song → Option AudioTrack → Db m
  bind_if_close db doc t none track = db
  bind_if_close db doc t (some s) none = db
  bind_if_close db doc t (some s) (some track) =
      if close_texts (decrypt_metadata m cipher doc s) (decrypt_track cipher doc track)
      then record db {
        songs =
            m.update_one Song (λ x. x.id == s.id)
              (bound_match doc t (decrypt_track cipher doc track)) db.songs;
      }
      else db

  -- The oldest pending song without a track gets the track, if their texts agree.
  unfoldable pub bind_recognition_match_to_pending_song : ℕ → ℕ → Db m → Db m
  bind_recognition_match_to_pending_song e t db =
      bind_if_close db (find_song_event m cipher db e) t
        (m.find_first Song older_song (unbound_pending e) db.songs)
        (m.find_one AudioTrack (λ x. x.id == t) db.audio_tracks)
