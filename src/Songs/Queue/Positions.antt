-- ===== src/Songs/Queue/Positions.antt =====
-- Which positions the queue of an event shows.
use hernan_pedraza_pi_back.Prelude.{
  ℕ, ◌≡◌, refl, ap, ◌∙◌, String, Bool, true, false, not, ◌&&◌, ◌||◌, List, [], ◌∷◌, map, ◌==◌, suc,
  zero, sort_by, count, count-sort_by, count-map, count-filter, Bool-cases, inl, inr, arith,
  if◌then◌else◌,
}
use hernan_pedraza_pi_back.Mongo.{Mongo, count-find_sorted}
use hernan_pedraza_pi_back.Platform.{Platform}
use hernan_pedraza_pi_back.Models.{Song, Db}
use hernan_pedraza_pi_back.SongStates.{
  SongStatus, pending, approved, playing, played, rejected, skipped,
}
use hernan_pedraza_pi_back.Songs.Metadata.{Cipher, decrypt_metadata, find_song_event}
use hernan_pedraza_pi_back.Songs.Playback.{is_approved_status, is_playing_status, queue_db_sort}
use hernan_pedraza_pi_back.Songs.Playback.Starting.{decrypt_metadata-kept}
use hernan_pedraza_pi_back.Songs.Queue.{
  QueueEntry, queue_before, numbered, with_queue_positions, is_queued_in, get_queue_for_event,
}

-- The numbers from `n` + 1 on, `k` of them.
abbrev pub up_from : ℕ → ℕ → List ℕ
up_from n zero = []
up_from n (suc k) = suc n ∷ up_from (suc n) k

abbrev pub waits : Song → Bool
waits x = not (is_playing_status x.status)

-- The positions of the entries that do not play, and of those that do.
abbrev pub waiting_positions : List QueueEntry → List ℕ
waiting_positions [] = []
waiting_positions (q ∷ qs) =
    if waits q.song then q.position ∷ waiting_positions qs else waiting_positions qs

abbrev pub playing_positions : List QueueEntry → List ℕ
playing_positions [] = []
playing_positions (q ∷ qs) =
    if waits q.song then playing_positions qs else q.position ∷ playing_positions qs

abbrev pub zeros : ℕ → List ℕ
zeros zero = []
zeros (suc k) = 0 ∷ zeros k

waiting_positions-numbered :
    (n : ℕ) (xs : List Song) → waiting_positions (numbered n xs) ≡ up_from n (count waits xs)
waiting_positions-numbered n [] = refl
waiting_positions-numbered n (x ∷ xs) = elim (Bool-cases (is_playing_status x.status)) [
  | inl on ↦ rw (on, on) (waiting_positions-numbered n xs)
  | inr off ↦ rw (off, off) (ap (λ ys. suc n ∷ ys) (waiting_positions-numbered (suc n) xs))
]

playing_positions-numbered :
    (n : ℕ) (xs : List Song)
    → playing_positions (numbered n xs) ≡ zeros (count (λ x. is_playing_status x.status) xs)
playing_positions-numbered n [] = refl
playing_positions-numbered n (x ∷ xs) = elim (Bool-cases (is_playing_status x.status)) [
  | inl on ↦ rw (on, on) (ap (λ ys. 0 ∷ ys) (playing_positions-numbered n xs))
  | inr off ↦ rw (off, off) (playing_positions-numbered (suc n) xs)
]

-- A count by status over the fetched and decrypted songs is one over the stored songs.
count_fetched :
    (m : Mongo) (env : Platform) (cipher : Cipher) (key_before : String → String → Bool) (e : ℕ)
    (db : Db m) (p : SongStatus → Bool)
    → count
        (λ x. p x.status)
        (map
          (decrypt_metadata m cipher (find_song_event m cipher db e))
          (m.find_sorted Song (queue_db_sort key_before) (is_queued_in e) db.songs))
      ≡ count (λ x. is_queued_in e x && p x.status) (m.docs Song db.songs)
count_fetched m env cipher key_before e db p =
    count-map (λ x. p x.status) (decrypt_metadata m cipher (find_song_event m cipher db e)) _
      (λ x. ap p (decrypt_metadata-kept m env cipher (find_song_event m cipher db e) x).2)
    ∙ count-find_sorted m (queue_db_sort key_before) (is_queued_in e) db.songs (λ x. p x.status)
    ∙ count-filter (λ x. p x.status) (is_queued_in e) (m.docs Song db.songs)

count_alike :
    (p q : Song → Bool) (xs : List Song) → ((x : Song) → p x ≡ q x) → count p xs ≡ count q xs
count_alike p q [] same = refl
count_alike p q (x ∷ xs) same = let rest = count_alike p q xs same in ground (arith, same x, rest)

waiting_alike :
    (b : Bool) (c : SongStatus)
    → (b && (is_approved_status c || is_playing_status c)) && not (is_playing_status c)
      ≡ b && is_approved_status c
waiting_alike false c = refl
waiting_alike true pending = refl
waiting_alike true approved = refl
waiting_alike true playing = refl
waiting_alike true played = refl
waiting_alike true rejected = refl
waiting_alike true skipped = refl

playing_alike :
    (b : Bool) (c : SongStatus)
    → (b && (is_approved_status c || is_playing_status c)) && is_playing_status c
      ≡ b && is_playing_status c
playing_alike false c = refl
playing_alike true pending = refl
playing_alike true approved = refl
playing_alike true playing = refl
playing_alike true played = refl
playing_alike true rejected = refl
playing_alike true skipped = refl

-- In the queue of an event, the entries that do not play carry the positions 1, 2, 3 and so on in
-- their order, one for each approved song of the event in the database, and the entries that play
-- carry 0, one for each playing song of the event.
pub get_queue_for_event-positions :
    (m : Mongo) (env : Platform) (cipher : Cipher) (key_before : String → String → Bool) (e : ℕ)
    (db : Db m)
    → (waiting_positions (get_queue_for_event m env cipher key_before e db)
        ≡ up_from 0
            (count (λ x. x.event_id == e && is_approved_status x.status) (m.docs Song db.songs)))
      × (playing_positions (get_queue_for_event m env cipher key_before e db)
          ≡ zeros
              (count (λ x. x.event_id == e && is_playing_status x.status) (m.docs Song db.songs)))
unfolding get_queue_for_event with_queue_positions
get_queue_for_event-positions m env cipher key_before e db =
    let fetched =
      map (decrypt_metadata m cipher (find_song_event m cipher db e))
        (m.find_sorted Song (queue_db_sort key_before) (is_queued_in e) db.songs) in
    let sorted = sort_by (queue_before env) fetched in
    let waiting : count waits sorted
        ≡ count (λ x. x.event_id == e && is_approved_status x.status) (m.docs Song db.songs) =
      count-sort_by (queue_before env) waits fetched
      ∙ count_fetched m env cipher key_before e db (λ c. not (is_playing_status c))
      ∙ count_alike _ _ (m.docs Song db.songs) (λ x. waiting_alike (x.event_id == e) x.status) in
    let on : count (λ x. is_playing_status x.status) sorted
        ≡ count (λ x. x.event_id == e && is_playing_status x.status) (m.docs Song db.songs) =
      count-sort_by (queue_before env) (λ x. is_playing_status x.status) fetched
      ∙ count_fetched m env cipher key_before e db is_playing_status
      ∙ count_alike _ _ (m.docs Song db.songs) (λ x. playing_alike (x.event_id == e) x.status) in
    (
      waiting_positions-numbered 0 sorted ∙ ap (up_from 0) waiting,
      playing_positions-numbered 0 sorted ∙ ap zeros on,
    )
