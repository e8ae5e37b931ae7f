-- ===== src/Songs/Queue.antt =====
-- The queue of an event in src/services/songs.service.js: getQueueForEvent and
-- _withQueuePositions. An entry is the song that is formatted, with its position.
pub mod Positions
use hernan_pedraza_pi_back.Prelude.{
  ℕ, String, Bool, true, false, ◌&&◌, ◌||◌, Option, none, some, List, [], ◌∷◌, map, ◌==◌, suc,
  sort_by, find?, if◌then◌else◌,
}
use hernan_pedraza_pi_back.Errors.{Result, ok, or_missing}
use hernan_pedraza_pi_back.Mongo.{Mongo}
use hernan_pedraza_pi_back.Platform.{Platform}
use hernan_pedraza_pi_back.Models.{Event, Song, Db}
use hernan_pedraza_pi_back.Songs.Metadata.{Cipher, decrypt_metadata, find_song_event, load_song}
use hernan_pedraza_pi_back.Songs.Playback.{
  is_approved_status, is_playing_status, order_of, queue_db_sort,
}

pub record QueueEntry : Type 0 where
  pub song : Song
  pub position : ℕ

-- The playing song comes first, then the order of the database.
unfoldable pub queue_before : Platform → Song → Song → Bool
queue_before env a b =
    order_of (is_playing_status a.status) (is_playing_status b.status)
      (queue_db_sort env.locale_before a b)

-- The songs that do not play are numbered after the ones before them; `n` of them came before.
abbrev pub numbered : ℕ → List Song → List QueueEntry
numbered n [] = []
numbered n (x ∷ xs) =
    if is_playing_status x.status
    then record { song = x; position = 0 } ∷ numbered n xs
    else record { song = x; position = suc n } ∷ numbered (suc n) xs

unfoldable pub with_queue_positions : Platform → List Song → List QueueEntry
unfolding queue_before
with_queue_positions env songs = numbered 0 (sort_by (queue_before env) songs)

abbrev pub is_queued_in : ℕ → Song → Bool
is_queued_in e x = x.event_id == e && (is_approved_status x.status || is_playing_status x.status)

module _ (m : Mongo) (env : Platform) (cipher : Cipher) (key_before : String → String → Bool) where
  unfoldable pub get_queue_for_event : ℕ → Db m → List QueueEntry
  get_queue_for_event e db = with_queue_positions env (
      map (decrypt_metadata m cipher (find_song_event m cipher db e))
        (m.find_sorted Song (queue_db_sort key_before) (is_queued_in e) db.songs))

  abbrev pub position_in : Option QueueEntry → Option ℕ
  position_in none = none
  position_in (some q) = some q.position

  -- The position that `getSongPosition` returns.
  unfoldable pub get_song_position : ℕ → Db m → Result (Option ℕ)
  get_song_position s db = elim (or_missing (load_song m cipher db s) "Song not found") [
    | Result.err x ↦ Result.err x
    | Result.ok song ↦
        ok (position_in (find? (λ q. q.song.id == s) (get_queue_for_event song.event_id db)))
  ]
