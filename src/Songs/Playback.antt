-- ===== src/Songs/Playback.antt =====
-- The methods of src/services/songs.service.js with which a DJ moves songs through their states.
-- Each returns the song that it formats; the formatter is left out.
pub mod Playing
pub mod Starting
pub mod Moves
pub mod Approval
use hernan_pedraza_pi_back.Prelude.{
  ℕ, ◌+◌, String, Bool, true, false, not, ◌&&◌, ◌||◌, Option, none, some, List, [], ◌∷◌, ◌==◌,
  is_some, or_else, str_eq, ltb, if◌then◌else◌,
}
use hernan_pedraza_pi_back.Errors.{Result, ok, err, match_required, or_missing}
use hernan_pedraza_pi_back.Exec.{Exec, pure, lift, gets, update, ◌>>=◌, ◌>>◌}
use hernan_pedraza_pi_back.Mongo.{Mongo}
use hernan_pedraza_pi_back.Platform.{Platform}
use hernan_pedraza_pi_back.SongStates.{
  SongStatus, pending, approved, playing, played, rejected, skipped, status_name,
  validate_transition,
}
use hernan_pedraza_pi_back.Models.{Event, Participant, RecognitionMatch, Song, Actor, Db}
use hernan_pedraza_pi_back.Permissions.{actor_id, object_id, Context, assert_song_admin}
use hernan_pedraza_pi_back.Participants.Joining.{truthy}
use hernan_pedraza_pi_back.Songs.Metadata.{
  Cipher, decrypt_metadata, find_song_event, get_song_for_event, save_encrypted,
}

abbrev pub match_track : Option RecognitionMatch → Option ℕ
match_track none = none
match_track (some r) = r.track_id

-- `song.recognitionMatch?.trackId`
abbrev pub track_of : Song → Option ℕ
track_of s = match_track s.recognition_match

-- `_assertPlayableMatch`
unfoldable pub assert_playable_match : Song → Result (Unit {0})
assert_playable_match s =
    if is_some (track_of s)
    then ok tt
    else err (match_required "Song needs a fingerprint match before it can be played")

abbrev pub is_approved_status : SongStatus → Bool
is_approved_status approved = true
is_approved_status _ = false

abbrev pub is_playing_status : SongStatus → Bool
is_playing_status playing = true
is_playing_status _ = false

abbrev pub text_or : Option String → String → String
text_or none d = d
text_or (some s) d = s

-- The recognised title, and the recognised artist if there is one, replace the requested ones.
abbrev pub retitled : Option String → Option String → Song → Song
retitled none artist s = s
retitled (some title) artist s = record s { title = title; artist = text_or artist s.artist }

abbrev pub recognised : Option RecognitionMatch → Song → Song
recognised none s = s
recognised (some r) s = retitled (truthy r.title) (truthy r.artist) s

unfoldable pub canonical_title : Song → Song
canonical_title s = recognised s.recognition_match s

abbrev pub is_playing_in : ℕ → Song → Bool
is_playing_in e x = x.event_id == e && is_playing_status x.status

abbrev pub as_played : Song → Song
as_played x = record x { status = played }

-- `_queueDbSort`: pinned, then score, then premium suggestions, then the sort key (by code units).
abbrev pub order_of : Bool → Bool → Bool → Bool
order_of a b rest = if a && not b then true else if b && not a then false else rest

unfoldable pub queue_db_sort : (String → String → Bool) → Song → Song → Bool
queue_db_sort key_before a b = order_of a.pinned b.pinned (
    if ltb b.vote_score a.vote_score
    then true
    else if ltb a.vote_score b.vote_score
    then false
    else order_of a.is_premium_suggestion b.is_premium_suggestion
        (key_before a.sort_key b.sort_key))

abbrev pub is_next : ℕ → Song → Bool
is_next e x = x.event_id == e && is_approved_status x.status && is_some (track_of x)

abbrev pub start_playing : ℕ → Song → Song
start_playing now x = record x { status = playing; started_playing_at = some now }

module _ (m : Mongo) (env : Platform) (cipher : Cipher) where
  abbrev pub song_admin : ℕ → Actor → Exec (Db m) Context
  song_admin e actor db = (assert_song_admin m env db (object_id e) actor, db)

  -- `ParticipantModel.findByIdAndUpdate(requestedBy, { $inc: { approvalCount: 1 } })`
  unfoldable pub count_approval : Option ℕ → Db m → Db m
  count_approval none db = db
  count_approval (some p) db = record db {
    participants =
        m.update_one Participant (λ x. x.id == p)
          (λ x. record x { approval_count = x.approval_count + 1 }) db.participants;
  }

  unfoldable pub approve_pending : Song → Exec (Db m) Song
  approve_pending song = do
    lift (validate_transition (status_name song.status) "APPROVED" "DJ")
    let s = record (canonical_title song) { status = approved }
    after ← save_encrypted m cipher s
    update (count_approval song.requested_by)
    pure after

  unfoldable pub approve_song : ℕ → ℕ → Actor → Exec (Db m) Song
  unfolding approve_pending
  approve_song s e actor = do
    _ ← song_admin e actor
    song ← get_song_for_event m cipher s e
    if is_approved_status song.status then pure song else approve_pending song

  unfoldable pub reject_song : ℕ → ℕ → Actor → Exec (Db m) Song
  reject_song s e actor = do
    _ ← song_admin e actor
    song ← get_song_for_event m cipher s e
    lift (validate_transition (status_name song.status) "REJECTED" "DJ")
    save_encrypted m cipher (record song { status = rejected })

  -- The other songs of the event that play become played.
  unfoldable pub demote_others : Song → Db m → Db m
  demote_others song db = record db {
    songs =
        m.update_many Song (λ x. is_playing_in song.event_id x && not (x.id == song.id)) as_played
          db.songs;
  }

  unfoldable pub set_current_song : ℕ → ℕ → Db m → Db m
  set_current_song e s db = record db {
    events =
        m.update_one Event (λ x. x.id == e) (λ x. record x { current_song_id = some s }) db.events;
  }

  unfoldable pub send_now : ℕ → ℕ → ℕ → Actor → Exec (Db m) Song
  send_now now s e actor = do
    _ ← song_admin e actor
    song ← get_song_for_event m cipher s e
    lift (assert_playable_match song)
    lift (validate_transition (status_name song.status) "PLAYING" "DJ")
    update (demote_others song)
    after ←
        save_encrypted m cipher (record song { status = playing; started_playing_at = some now })
    update (set_current_song e song.id)
    pure after

  unfoldable pub skip_song : ℕ → ℕ → ℕ → String → Actor → Exec (Db m) Song
  skip_song now s e reason actor = do
    context ← song_admin e actor
    song ← get_song_for_event m cipher s e
    lift (validate_transition (status_name song.status) "SKIPPED" "DJ")
    save_encrypted m cipher (record song {
      status = skipped;
      skipped_at = some now;
      skipped_by = or_else context.user_id (actor_id actor);
      skipped_reason = some reason;
    })

  unfoldable pub mark_song_as_played : ℕ → ℕ → Actor → Exec (Db m) Song
  mark_song_as_played s e actor = do
    _ ← song_admin e actor
    song ← get_song_for_event m cipher s e
    lift (validate_transition (status_name song.status) "PLAYED" "DJ")
    save_encrypted m cipher (record song { status = played })

  unfoldable pub demote_playing : ℕ → Db m → Db m
  demote_playing e db = record db {
    songs = m.update_many Song (is_playing_in e) as_played db.songs;
  }

  unfoldable pub promote : ℕ → Option Song → Db m → Db m
  promote now none db = db
  promote now (some n) db = record db {
    songs = m.update_one Song (λ x. x.id == n.id) (start_playing now) db.songs;
  }

  -- The song as it is returned: in its new state, with plain texts.
  unfoldable pub promoted : ℕ → Option Event → Option Song → Option Song
  promoted now doc none = none
  promoted now doc (some n) = some (decrypt_metadata m cipher doc (start_playing now n))

  -- `key_before` compares sort keys as the database does.
  unfoldable pub play_next_song :
      (String → String → Bool) → ℕ → ℕ → Actor → Exec (Db m) (Option Song)
  unfolding demote_playing promote
  play_next_song key_before now e actor = do
    _ ← song_admin e actor
    lift (validate_transition "APPROVED" "PLAYING" "DJ")
    update (demote_playing e)
    next ← gets (λ db. m.find_first Song (queue_db_sort key_before) (is_next e) db.songs)
    update (promote now next)
    doc ← gets (λ db. find_song_event m cipher db e)
    pure (promoted now doc next)
