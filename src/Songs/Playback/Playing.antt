-- ===== src/Songs/Playback/Playing.antt =====
-- One song of an event plays at a time: what sendNow and playNextSong leave in the database.
use hernan_pedraza_pi_back.Prelude.{
  ℕ, ◌+◌, ◌≤◌, ◌≡◌, refl, ap, sym, ◌∙◌, String, Bool, false, not, ◌&&◌, Option, none, some, List,
  [], ◌∷◌, ◌==◌, arith, Bool-cases, inl, inr, is_some, count, modify, if◌then◌else◌,
}
use hernan_pedraza_pi_back.Errors.{ok, Result-cases}
use hernan_pedraza_pi_back.Mongo.{Mongo, modify_first, docs-update_many, docs-update_one}
use hernan_pedraza_pi_back.Platform.{Platform}
use hernan_pedraza_pi_back.SongStates.{approved, playing, status_name, validate_transition}
use hernan_pedraza_pi_back.SongStates.Order.{
  Transition, validate_transition_iff, song_state-status_name,
}
use hernan_pedraza_pi_back.Models.{Event, Song, Actor, Db}
use hernan_pedraza_pi_back.Permissions.{Context, assert_song_admin, object_id}
use hernan_pedraza_pi_back.Songs.Metadata.{Cipher, find_song_event}
use hernan_pedraza_pi_back.Songs.Playback.{
  is_playing_in, as_played, start_playing, promoted, is_next, demote_playing, promote,
  queue_db_sort, play_next_song,
}

-- Nothing plays once everything that plays is changed to something that does not.
count_after_all :
    (p : Song → Bool) (f : Song → Song) (xs : List Song)
    → ((x : Song) → p (f x) ≡ false)
    → count p (modify p f xs) ≡ 0
count_after_all p f [] off = refl
count_after_all p f (x ∷ xs) off = elim (Bool-cases (p x)) [
  | inl hit ↦ rw (hit, off x) (count_after_all p f xs off)
  | inr miss ↦ rw (miss, miss) (count_after_all p f xs off)
]

-- A change of one element adds at most one to a count.
count-modify_first :
    (p q : Song → Bool) (f : Song → Song) (xs : List Song)
    → count p (modify_first q f xs) ≤ 1 + count p xs
count-modify_first p q f [] = omega arith
count-modify_first p q f (x ∷ xs) = let rest = count-modify_first p q f xs in ground (arith, rest)

-- When all that pass a test but the elements named by `q` are changed to fail it, and those
-- named by `q` are replaced, at most the replaced ones pass.
pub count_after_replacement :
    (p q : Song → Bool) (f : Song → Song) (d : Song) (xs : List Song)
    → ((x : Song) → p (f x) ≡ false)
    → ((x : Song) → q (f x) ≡ q x)
    → count p (modify q (λ _. d) (modify (λ x. p x && not (q x)) f xs)) ≤ count q xs
count_after_replacement p q f d [] off same = omega arith
count_after_replacement p q f d (x ∷ xs) off same =
    let rest = count_after_replacement p q f d xs off same in
    ground (arith, rest, off x, same x, Bool-cases (p x), Bool-cases (q x))

dj_may_start : validate_transition "APPROVED" "PLAYING" "DJ" ≡ ok tt
unfolding status_name
dj_may_start = (validate_transition_iff "APPROVED" "PLAYING" "DJ").1 (
  approved,
  playing,
  song_state-status_name approved,
  song_state-status_name playing,
  Transition.play,
  refl,
)

module _ (m : Mongo) (env : Platform) (cipher : Cipher) where
  abbrev now_playing : ℕ → Db m → ℕ
  now_playing e db = count (is_playing_in e) (m.docs Song db.songs)

  demote_playing-now_playing :
      (e : ℕ) (db : Db m) → now_playing e (demote_playing m env cipher e db) ≡ 0
  unfolding demote_playing
  demote_playing-now_playing e db =
      rw docs-update_many
        (count_after_all (is_playing_in e) as_played (m.docs Song db.songs) (λ x. ground arith))

  promote-now_playing :
      (now e : ℕ) (next : Option Song) (db : Db m)
      → now_playing e db ≡ 0
      → now_playing e (promote m env cipher now next db) ≤ (if is_some next then 1 else 0)
  unfolding promote
  promote-now_playing now e none db h = omega arith
  promote-now_playing now e (some n) db h =
      let more =
        count-modify_first (is_playing_in e) (λ x. x.id == n.id) (start_playing now)
          (m.docs Song db.songs) in
      rw docs-update_one (omega (arith, h, more))

  abbrev next_of : (String → String → Bool) → ℕ → Db m → Option Song
  next_of key_before e db = m.find_first Song (queue_db_sort key_before) (is_next e) db.songs

  abbrev started_of : (String → String → Bool) → ℕ → ℕ → Db m → Db m
  started_of key_before now e db = promote m env cipher now (next_of key_before e db) db

  play_next_song_runs :
      (key_before : String → String → Bool) (now e : ℕ) (actor : Actor) (db : Db m) {c : Context}
      → assert_song_admin m env db (object_id e) actor ≡ ok c
      → play_next_song m env cipher key_before now e actor db ≡ (
        ok (
            promoted m env cipher now
              (find_song_event m cipher
                (started_of key_before now e (demote_playing m env cipher e db))
                e)
              (next_of key_before e (demote_playing m env cipher e db))),
        started_of key_before now e (demote_playing m env cipher e db),
      )
  unfolding play_next_song
  play_next_song_runs key_before now e actor db allowed = rw (allowed, dj_may_start, demote_playing)

  promoted-is_some :
      (now : ℕ) (doc : Option Event) (n : Option Song)
      → is_some (promoted m env cipher now doc n) ≡ is_some n
  unfolding promoted
  promoted-is_some now doc none = refl
  promoted-is_some now doc (some n) = refl

-- After playNextSong has returned, one song of the event plays at most if it returned one, and
-- none if it returned null, whatever played before.
pub play_next_song-now_playing :
    (m : Mongo) (env : Platform) (cipher : Cipher) (key_before : String → String → Bool) (now e : ℕ)
    (actor : Actor) (db : Db m) (next : Option Song)
    → (play_next_song m env cipher key_before now e actor db).0 ≡ ok next
    → count
        (is_playing_in e)
        (m.docs Song (play_next_song m env cipher key_before now e actor db).1.songs)
      ≤ (if is_some next then 1 else 0)
unfolding play_next_song
play_next_song-now_playing m env cipher key_before now e actor db next h =
    elim (Result-cases (assert_song_admin m env db (object_id e) actor)) [
      | inr (_, refused) ↦ cc (rw refused at h)
      | inl (c, allowed) ↦
          let runs = play_next_song_runs m env cipher key_before now e actor db allowed in
          let start = demote_playing m env cipher e db in
          let n = next_of m env cipher key_before e start in
          let doc = find_song_event m cipher (started_of m env cipher key_before now e start) e in
          let same : promoted m env cipher now doc n ≡ next = (cc (rw runs at h)) in
          let tested : is_some n ≡ is_some next =
            sym (promoted-is_some m env cipher now doc n) ∙ ap is_some same in
          rw (runs, ← tested)
            (promote-now_playing m env cipher now e n start
              (demote_playing-now_playing m env cipher e db))
    ]
