-- ===== src/Songs/Metadata.antt =====
-- Loading and saving a song in src/services/songs.service.js: titles and artists are encrypted in
-- the database and plain in memory. The cipher (src/services/text-crypto.js over node's crypto)
-- enters as two functions.
use hernan_pedraza_pi_back.Prelude.{ℕ, String, Option, none, some, ◌==◌}
use mathlib.Core.Option
use hernan_pedraza_pi_back.Errors.{or_missing, guard, not_found}
use hernan_pedraza_pi_back.Exec.{Exec, pure, lift, gets, update, ◌>>=◌, ◌>>◌}
use hernan_pedraza_pi_back.Mongo.{Mongo}
use hernan_pedraza_pi_back.Models.{Event, RecognitionMatch, Song, Db}

pub record Cipher : Type 0 where
  pub encrypt : Event → String → String
  pub decrypt : Event → String → String

-- The identity, for concrete runs.
abbrev pub no_cipher : Cipher
no_cipher = record { encrypt = λ e s. s; decrypt = λ e s. s }

-- The text slots of a song and of its recognition match, each passed through a function.
unfoldable pub map_match : (String → String) → RecognitionMatch → RecognitionMatch
map_match f r = record r { title = Option.map f r.title; artist = Option.map f r.artist }

unfoldable pub map_metadata : (String → String) → Song → Song
unfolding map_match
map_metadata f s = record s {
  title = f s.title;
  artist = f s.artist;
  recognition_match = Option.map (map_match f) s.recognition_match;
}

module _ (m : Mongo) (cipher : Cipher) where
  unfoldable pub decrypt_metadata : Option Event → Song → Song
  unfolding map_metadata
  decrypt_metadata none s = s
  decrypt_metadata (some e) s = map_metadata (cipher.decrypt e) s

  unfoldable pub encrypt_metadata : Option Event → Song → Song
  unfolding map_metadata
  encrypt_metadata none s = s
  encrypt_metadata (some e) s = map_metadata (cipher.encrypt e) s

  unfoldable pub find_song_event : Db m → ℕ → Option Event
  find_song_event db e = m.find_one Event (λ x. x.id == e) db.events

  unfoldable pub load_song : Db m → ℕ → Option Song
  load_song db s = m.find_one Song (λ x. x.id == s) db.songs

  -- `_getSongForEvent`
  unfoldable pub get_song_for_event : ℕ → ℕ → Exec (Db m) Song
  get_song_for_event s e = do
    found ← gets (λ db. or_missing (load_song db s) "Song not found")
    song ← lift found
    lift (guard (song.event_id == e) (not_found "Song not in this event"))
    doc ← gets (λ db. find_song_event db song.event_id)
    pure (decrypt_metadata doc song)

  -- `saveSongWithEncryptedMetadata`: the stored song is encrypted, the one in memory plain again.
  unfoldable pub save_encrypted : Song → Exec (Db m) Song
  save_encrypted song = do
    doc ← gets (λ db. find_song_event db song.event_id)
    let stored = encrypt_metadata doc song
    update (λ db. record db { songs = m.save Song (λ x. x.id == song.id) stored db.songs })
    pure (decrypt_metadata doc stored)
