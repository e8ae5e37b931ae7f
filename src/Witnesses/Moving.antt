-- ===== src/Witnesses/Moving.antt =====
-- The owner of the small event approves, rejects, skips and ends songs.
use hernan_pedraza_pi_back.Prelude.{◌⊎◌}
use hernan_pedraza_pi_back.Errors.{Returns}
use hernan_pedraza_pi_back.Mongo.{list_mongo}
use hernan_pedraza_pi_back.Platform.{plain_platform}
use hernan_pedraza_pi_back.SongStates.{approved, validate_transition, status_name}
use hernan_pedraza_pi_back.Permissions.{assert_song_admin}
use hernan_pedraza_pi_back.Songs.Metadata.{
  no_cipher, load_song, get_song_for_event, decrypt_metadata, encrypt_metadata, find_song_event,
  save_encrypted,
}
use hernan_pedraza_pi_back.Songs.Playback.{
  approve_song, approve_pending, reject_song, skip_song, mark_song_as_played,
}
use hernan_pedraza_pi_back.Songs.Playback.Moves.{Moved}
use hernan_pedraza_pi_back.Songs.Playback.Approval.{ApprovedBefore, approve_song-Moved}
use hernan_pedraza_pi_back.Witnesses.Samples.{show, owner, permission_runs}

unfoldable move_runs : Unit {0}
unfolding permission_runs assert_song_admin get_song_for_event load_song decrypt_metadata
    encrypt_metadata find_song_event save_encrypted validate_transition status_name
move_runs = tt

approves : Returns (approve_song list_mongo plain_platform no_cipher 3 1 owner show).0
unfolding move_runs approve_song approve_pending
approves = tt

approve_song-Moved_example :
    ApprovedBefore list_mongo plain_platform no_cipher 3 1 show
      (approve_song list_mongo plain_platform no_cipher 3 1 owner show)
    ⊎ Moved list_mongo plain_platform no_cipher approved 3 1 show
        (approve_song list_mongo plain_platform no_cipher 3 1 owner show)
approve_song-Moved_example =
    approve_song-Moved list_mongo plain_platform no_cipher 3 1 owner show approves

rejects : Returns (reject_song list_mongo plain_platform no_cipher 3 1 owner show).0
unfolding move_runs reject_song
rejects = tt

skips : Returns (skip_song list_mongo plain_platform no_cipher 400 6 1 "next" owner show).0
unfolding move_runs skip_song
skips = tt

ends : Returns (mark_song_as_played list_mongo plain_platform no_cipher 6 1 owner show).0
unfolding move_runs mark_song_as_played
ends = tt
