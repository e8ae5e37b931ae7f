-- ===== src/Songs/Playback/Starting.antt =====
-- What sendNow in src/services/songs.service.js demands of a song, and what it leaves playing.
use hernan_pedraza_pi_back.Prelude.{
  ℕ, ◌≤◌, ◌≡◌, refl, ap, sym, ◌∙◌, String, true, Option, none, some, ◌==◌, arith, Bool-cases,
  Option-cases, inl, inr, is_some, count, modify,
}
use mathlib.Core.Option
use hernan_pedraza_pi_back.Errors.{Result, ok, Result-cases, Returns}
use hernan_pedraza_pi_back.Mongo.{Mongo, docs-update_many, docs-save}
use hernan_pedraza_pi_back.Platform.{Platform}
use hernan_pedraza_pi_back.SongStates.{
  SongStatus, approved, playing, status_name, validate_transition,
}
use hernan_pedraza_pi_back.SongStates.Order.{
  Transition, validate_transition_iff, song_state-status_name,
}
use hernan_pedraza_pi_back.Models.{Event, RecognitionMatch, Song, Actor, Db}
use hernan_pedraza_pi_back.Permissions.{assert_song_admin, object_id}
use hernan_pedraza_pi_back.Songs.Metadata.{
  Cipher, map_match, map_metadata, decrypt_metadata, encrypt_metadata, find_song_event, load_song,
  get_song_for_event, save_encrypted,
}
use hernan_pedraza_pi_back.Songs.Playback.{
  track_of, match_track, is_playing_in, as_played, demote_others, set_current_song,
  assert_playable_match, send_now,
}
use hernan_pedraza_pi_back.Songs.Playback.Playing.{count_after_replacement}

track_of-map_match :
    (f : String → String) (r : Option RecognitionMatch)
    → is_some (match_track (Option.map (map_match f) r)) ≡ is_some (match_track r)
unfolding map_match
track_of-map_match f none = refl
track_of-map_match f (some r) = refl

module _ (m : Mongo) (env : Platform) (cipher : Cipher) where
  abbrev pub plain_of : Db m → Song → Song
  plain_of db x = decrypt_metadata m cipher (find_song_event m cipher db x.event_id) x

  pub get_song_for_event_runs :
      (s e : ℕ) (db : Db m)
      → Returns (get_song_for_event m cipher s e db).0
      → (x : Song) × (load_song m cipher db s ≡ some x)
        × (x.event_id ≡ e)
        × (get_song_for_event m cipher s e db ≡ (ok (plain_of db x), db))
  unfolding get_song_for_event
  get_song_for_event_runs s e db h = elim (Option-cases (load_song m cipher db s)) [
    | inl missing ↦ absurd (rw (missing, Returns) at h)
    | inr (x, found) ↦ elim (Bool-cases (x.event_id == e)) [
      | inl same ↦ (x, found, ground (arith, same), rw (found, same))
      | inr other ↦ absurd (rw (found, other, Returns) at h)
    ]
  ]

  -- Decryption changes the texts of a song alone.
  pub decrypt_metadata-kept :
      (doc : Option Event) (x : Song)
      → ((decrypt_metadata m cipher doc x).id ≡ x.id)
        × ((decrypt_metadata m cipher doc x).event_id ≡ x.event_id)
        × ((decrypt_metadata m cipher doc x).status ≡ x.status)
        × (is_some (track_of (decrypt_metadata m cipher doc x)) ≡ is_some (track_of x))
  unfolding decrypt_metadata map_metadata
  decrypt_metadata-kept none x = (refl, refl, refl, refl)
  decrypt_metadata-kept (some doc) x =
      (refl, refl, refl, track_of-map_match (cipher.decrypt doc) x.recognition_match)

  encrypt_metadata-kept :
      (doc : Option Event) (x : Song) → (encrypt_metadata m cipher doc x).status ≡ x.status
  unfolding encrypt_metadata map_metadata
  encrypt_metadata-kept none x = refl
  encrypt_metadata-kept (some doc) x = refl

  -- A save succeeds and keeps the status of the song in memory.
  pub save_encrypted_runs :
      (y : Song) (db : Db m)
      → (stored : Song) × (v : Song) × (stored.status ≡ y.status)
        × (v.status ≡ y.status)
        × (save_encrypted m cipher y db
            ≡ (ok v, record db { songs = m.save Song (λ x. x.id == y.id) stored db.songs }))
  unfolding save_encrypted
  save_encrypted_runs y db =
      let doc = find_song_event m cipher db y.event_id in
      let stored = encrypt_metadata m cipher doc y in
      (
        stored,
        decrypt_metadata m cipher doc stored,
        encrypt_metadata-kept doc y,
        (decrypt_metadata-kept doc stored).2 ∙ encrypt_metadata-kept doc y,
        refl,
      )

  playable :
      (y : Song) {u : Unit {0}} → assert_playable_match y ≡ ok u → is_some (track_of y) ≡ true
  unfolding assert_playable_match
  playable y h = elim (Bool-cases (is_some (track_of y))) [
    | inl bound ↦ bound
    | inr unbound ↦ cc (rw unbound at h)
  ]

  -- The checks that a call passed, and the collection of songs it left.
  abbrev Started : Db m → ℕ → ℕ → ℕ → Result Song × Db m → Type 0
  Started db now s e outcome =
      (x : Song) × (stored : Song) × (v : Song) × (load_song m cipher db s ≡ some x)
      × (x.event_id ≡ e)
      × (is_some (track_of (plain_of db x)) ≡ true)
      × (validate_transition (status_name (plain_of db x).status) "PLAYING" "DJ" ≡ ok tt)
      × (outcome.0 ≡ ok v)
      × (v.status ≡ playing)
      × (m.docs Song outcome.1.songs
          ≡ modify (λ y. y.id == (plain_of db x).id) (λ _. stored)
              (m.docs Song (demote_others m env cipher (plain_of db x) db).songs))

  send_now_runs :
      (now s e : ℕ) (actor : Actor) (db : Db m)
      → Returns (send_now m env cipher now s e actor db).0
      → Started db now s e (send_now m env cipher now s e actor db)
  unfolding send_now set_current_song demote_others
  send_now_runs now s e actor db h =
      elim (Result-cases (assert_song_admin m env db (object_id e) actor)) [
        | inr (_, refused) ↦ absurd (rw (refused, Returns) at h)
        | inl (c, allowed) ↦ elim (Result-cases (get_song_for_event m cipher s e db).0) [
          | inr (_, missing) ↦ absurd (rw (allowed, missing, Returns) at h)
          | inl (y, got) ↦
              let (x, found, same, run) = get_song_for_event_runs s e db (rw (got, Returns) tt) in
              elim (Result-cases (assert_playable_match (plain_of db x))) [
                | inr (_, unbound) ↦ absurd (rw (allowed, run, unbound, Returns) at h)
                | inl (_, bound) ↦
                    elim (Result-cases
                      (validate_transition (status_name (plain_of db x).status) "PLAYING" "DJ")) [
                        | inr (_, refused) ↦
                            absurd (rw (allowed, run, bound, refused, Returns) at h)
                        | inl (_, legal) ↦
                            let y = record (plain_of db x) {
                              status = playing;
                              started_playing_at = some now;
                            } in
                            let (stored, v, _, kept, saved) =
                              save_encrypted_runs y
                                (demote_others m env cipher (plain_of db x) db) in
                            (
                              x,
                              stored,
                              v,
                              found,
                              same,
                              playable (plain_of db x) bound,
                              legal,
                              rw (allowed, run, bound, legal, saved),
                              kept,
                              rw (allowed, run, bound, legal, saved, set_current_song, docs-save),
                            )
                      ]
              ]
        ]
      ]

approved_before_playing :
    (c : SongStatus) → validate_transition (status_name c) "PLAYING" "DJ" ≡ ok tt → c ≡ approved
unfolding status_name
approved_before_playing c h =
    let (a, b, ea, eb, t, _) = (validate_transition_iff (status_name c) "PLAYING" "DJ").0 h in
    let from : c ≡ a = (cc (song_state-status_name c, ea)) in
    let to : b ≡ playing = (cc (song_state-status_name playing, eb)) in from ∙ starts t to
  where
    starts : {a b : SongStatus} → Transition a b → b ≡ playing → a ≡ approved
    starts Transition.play e = refl
    starts Transition.approve e = cc
    starts Transition.reject_pending e = cc
    starts Transition.reject_approved e = cc
    starts Transition.finish e = cc
    starts Transition.skip e = cc
    starts Transition.reject_playing e = cc

-- When sendNow returns a song, that song plays, and the song it loaded belongs to the event, was
-- approved and is bound to an audio track.
pub send_now-needs_approved :
    (m : Mongo) (env : Platform) (cipher : Cipher) (now s e : ℕ) (actor : Actor) (db : Db m)
    (v : Song)
    → (send_now m env cipher now s e actor db).0 ≡ ok v
    → (v.status ≡ playing)
      × ((x : Song) × (load_song m cipher db s ≡ some x)
          × (x.event_id ≡ e)
          × (x.status ≡ approved)
          × (is_some (track_of x) ≡ true))
send_now-needs_approved m env cipher now s e actor db v h =
    let (x, stored, w, found, same, bound, legal, got, kept, _) =
      send_now_runs m env cipher now s e actor db (rw (h, Returns) tt) in
    let (_, _, status, tracked) =
      decrypt_metadata-kept m env cipher (find_song_event m cipher db x.event_id) x in
    let returned : w ≡ v = (cc (got, h)) in
    (
      ap (λ z. z.status) (sym returned) ∙ kept,
      (x, found, same, sym status ∙ approved_before_playing _ legal, sym tracked ∙ bound),
    )

-- When every identifier occurs at most once among the songs and sendNow returns, at most one song
-- of the event plays afterwards, whatever played before.
pub send_now-now_playing :
    (m : Mongo) (env : Platform) (cipher : Cipher) (now s e : ℕ) (actor : Actor) (db : Db m)
    (v : Song)
    → ((i : ℕ) → count (λ x. x.id == i) (m.docs Song db.songs) ≤ 1)
    → (send_now m env cipher now s e actor db).0 ≡ ok v
    → count (is_playing_in e) (m.docs Song (send_now m env cipher now s e actor db).1.songs) ≤ 1
unfolding demote_others
send_now-now_playing m env cipher now s e actor db v once h =
    let (x, stored, w, found, same, bound, legal, got, kept, songs) =
      send_now_runs m env cipher now s e actor db (rw (h, Returns) tt) in
    let y = plain_of m env cipher db x in
    let (_, home, _, _) =
      decrypt_metadata-kept m env cipher (find_song_event m cipher db x.event_id) x in
    let here : y.event_id ≡ e = home ∙ same in
    let few = once y.id in
    let bounded =
      count_after_replacement (is_playing_in e) (λ z. z.id == y.id) as_played stored
        (m.docs Song db.songs) (λ z. ground arith) (λ z. refl) in
    rw (songs, docs-update_many, here) (omega (arith, few, bounded))
