-- ===== src/Witnesses/Playing.antt =====
-- The owner of the small event starts songs.
use hernan_pedraza_pi_back.Prelude.{
  ℕ, ◌≤◌, ◌≡◌, refl, String, Bool, true, false, some, count, is_some, ◌==◌, arith,
}
use hernan_pedraza_pi_back.Errors.{ok}
use hernan_pedraza_pi_back.Mongo.{list_mongo}
use hernan_pedraza_pi_back.Platform.{plain_platform}
use hernan_pedraza_pi_back.SongStates.{approved, playing, validate_transition, status_name}
use hernan_pedraza_pi_back.Permissions.{assert_song_admin}
use hernan_pedraza_pi_back.Models.{Song}
use hernan_pedraza_pi_back.Songs.Metadata.{
  no_cipher, load_song, get_song_for_event, decrypt_metadata, encrypt_metadata, find_song_event,
  save_encrypted,
}
use hernan_pedraza_pi_back.Songs.Playback.{
  is_playing_in, track_of, send_now, play_next_song, assert_playable_match, promoted, promote,
  demote_others, demote_playing, queue_db_sort,
}
use hernan_pedraza_pi_back.Songs.Playback.Playing.{play_next_song-now_playing}
use hernan_pedraza_pi_back.Songs.Playback.Starting.{send_now-needs_approved, send_now-now_playing}
use hernan_pedraza_pi_back.Witnesses.Samples.{show, ready, owner, permission_runs}

abbrev keys : String → String → Bool
keys a b = false

abbrev started : Song
started = record ready { status = playing; started_playing_at = some 400 }

sent : (send_now list_mongo plain_platform no_cipher 400 4 1 owner show).0 ≡ ok started
unfolding permission_runs send_now get_song_for_event assert_song_admin load_song decrypt_metadata
    find_song_event assert_playable_match save_encrypted encrypt_metadata validate_transition
    status_name demote_others
sent = refl

each_id_once : (i : ℕ) → count (λ x. x.id == i) (list_mongo.docs Song show.songs) ≤ 1
each_id_once i = ground arith

send_now-needs_approved_example :
    (started.status ≡ playing)
    × ((x : Song) × (load_song list_mongo no_cipher show 4 ≡ some x)
        × (x.event_id ≡ 1)
        × (x.status ≡ approved)
        × (is_some (track_of x) ≡ true))
send_now-needs_approved_example =
    send_now-needs_approved list_mongo plain_platform no_cipher 400 4 1 owner show started sent

send_now-now_playing_example :
    count (is_playing_in 1) (
      list_mongo.docs Song
        (send_now list_mongo plain_platform no_cipher 400 4 1 owner show).1.songs)
    ≤ 1
send_now-now_playing_example =
    send_now-now_playing list_mongo plain_platform no_cipher 400 4 1 owner show started each_id_once
      sent

nexted :
    (play_next_song list_mongo plain_platform no_cipher keys 400 1 owner show).0 ≡ ok (some started)
unfolding permission_runs play_next_song assert_song_admin validate_transition promoted
    decrypt_metadata find_song_event promote demote_playing queue_db_sort
nexted = refl

play_next_song-now_playing_example :
    count (is_playing_in 1) (
      list_mongo.docs Song
        (play_next_song list_mongo plain_platform no_cipher keys 400 1 owner show).1.songs)
    ≤ 1
play_next_song-now_playing_example =
    play_next_song-now_playing list_mongo plain_platform no_cipher keys 400 1 owner show
      (some started) nexted
