-- ===== src/Songs/Suggestion/Stored.antt =====
-- src/services/songs.service.js: what suggestSong stores.
use hernan_pedraza_pi_back.Prelude.{
  ℕ, String, Bool, true, Option, none, some, List, [], ◌∷◌, ◌++◌, ◌==◌, find?, find?-mem, arith,
  ◌≡◌, refl, sym, ap, ◌∙◌, Bool-cases, inl, inr,
}
use hernan_pedraza_pi_back.Errors.{ok, or_missing}
use hernan_pedraza_pi_back.Exec.{ok-lift, ok_bind, bind_keeps}
use hernan_pedraza_pi_back.Mongo.{Mongo, docs-create, find_one_lem}
use hernan_pedraza_pi_back.Platform.{Platform}
use hernan_pedraza_pi_back.SongStates.{pending}
use hernan_pedraza_pi_back.Models.{Event, RecognitionMatch, Song, Participant, Actor, Db}
use hernan_pedraza_pi_back.Participants.Access.{
  find_participant, assert_participant_session, check_event, assert_session, check_cooldown,
  clear_expired_cooldown, cooldown_over, save_participant,
}
use hernan_pedraza_pi_back.Songs.Metadata.{
  Cipher, encrypt_metadata, decrypt_metadata, find_song_event,
}
use hernan_pedraza_pi_back.Songs.Similarity.{Text}
use hernan_pedraza_pi_back.Songs.Suggestion.{Request, suggests_as_premium, chosen_match}
use hernan_pedraza_pi_back.Songs.Suggestion.Storing.{suggested, suggest_song}

module _ (m : Mongo) (env : Platform) where
  songs_of : Db m → List Song
  songs_of db = m.docs Song db.songs

  clear_expired_cooldown-songs :
      (now : ℕ) (p : Participant) (db : Db m)
      → (clear_expired_cooldown m env now p db).1.songs ≡ db.songs
  unfolding clear_expired_cooldown save_participant
  clear_expired_cooldown-songs now p db = elim (Bool-cases (cooldown_over now p)) [
    | inl e ↦ (rw e refl)
    | inr e ↦ (rw e refl)
  ]

  -- The checks of a session leave the songs alone.
  assert_participant_session-songs :
      (now i : ℕ) (e : Option ℕ) (actor : Actor) (check : Bool) (db : Db m)
      → (assert_participant_session m env now i e actor check db).1.songs ≡ db.songs
  unfolding assert_participant_session
  assert_participant_session-songs now i e actor check db =
      let songs : (Db m → m.Coll Song) = (λ d. d.songs) in
      bind_keeps songs (or_missing (find_participant m env db i) "Participant not found") _ db (λ p.
        bind_keeps songs (check_event m env e p) _ db (λ _.
          bind_keeps songs (assert_session p actor) _ db (λ _.
            bind_keeps songs (check_cooldown m env check now p) _ db
              (λ _. clear_expired_cooldown-songs now p db))))

found_event :
    (m : Mongo) (cipher : Cipher) (db : Db m) (e : ℕ) (event : Event)
    → or_missing (find_song_event m cipher db e) "Event not found" ≡ ok event
    → event.id ≡ e
unfolding find_song_event
found_event m cipher db e event h =
    let there : find? (λ x. x.id == e) (m.docs Event db.events) ≡ some event =
      (sym (find_one_lem m (λ x. x.id == e) db.events)
        ∙ ok-or_missing (m.find_one Event (λ x. x.id == e) db.events) h) in
    ground (arith, (find?-mem (λ x. x.id == e) (m.docs Event db.events) event there).1)
  where
    ok-or_missing : (o : Option Event) → or_missing o "Event not found" ≡ ok event → o ≡ some event
    ok-or_missing none q = cc
    ok-or_missing (some x) q = cc

module _ (m : Mongo) (env : Platform) (cipher : Cipher) (fold : Text → Text)
    (find_recording_match : String → String → Option ℕ → Option RecognitionMatch) where
  -- A song that waits for approval in an event, on the wish of an attendee.
  abbrev pub Waits : ℕ → ℕ → Song → Type 0
  Waits e p s = (s.status ≡ pending) × (s.event_id ≡ e) × (s.requested_by ≡ some p)

  -- One document more, that of a waiting song with its texts encrypted.
  abbrev pub StoredIn : ℕ → ℕ → Song → Db m → Db m → Type 0
  StoredIn e p s db db' =
      (event : Event) × (plain : Song) × (m.docs Song db'.songs
        ≡ m.docs Song db.songs ++ encrypt_metadata m cipher (some event) plain ∷ [])
      × (s ≡ decrypt_metadata m cipher (some event) (encrypt_metadata m cipher (some event) plain))
      × (event.id ≡ e)
      × Waits e p plain

  -- A call of suggestSong that returns has added one song to the collection, at its end, and has
  -- changed no other. The new song waits for approval in that event, is requested by that
  -- attendee, and is stored with its texts encrypted for that event; the song returned has them
  -- decrypted again.
  pub suggest_song-StoredIn :
      (db : Db m) (now i e p : ℕ) (uuid : String) (r : Request) (actor : Actor) (s : Song)
      → (suggest_song m env cipher fold find_recording_match now i uuid e p r actor db).0 ≡ ok s
      → StoredIn e p s db
          (suggest_song m env cipher fold find_recording_match now i uuid e p r actor db).1
  unfolding suggest_song suggested
  suggest_song-StoredIn db now i e p uuid r actor s h =
      let db1 : Db m = (assert_participant_session m env now p (some e) actor true db).1 in
      let kept : db1.songs ≡ db.songs =
        assert_participant_session-songs m env now p (some e) actor true db in
      ok_bind (assert_participant_session m env now p (some e) actor true) _ db s h (λ a e1 h1.
        ok-lift (chosen_match m env cipher fold find_recording_match db1 e r) _ db1 s h1
          (λ found e2 h2.
            ok-lift (or_missing (find_song_event m cipher db1 e) "Event not found") _ db1 s h2
              (λ event e3 h3.
                let plain : Song =
                  suggested now i uuid e p (suggests_as_premium (find_participant m env db1 p))
                    found r in
                let stored : m.docs Song
                      (m.create Song (encrypt_metadata m cipher (some event) plain) db1.songs)
                    ≡ m.docs Song db.songs ++ encrypt_metadata m cipher (some event) plain ∷ [] =
                  (docs-create m (encrypt_metadata m cipher (some event) plain) db1.songs
                    ∙ ap (λ c. m.docs Song c ++ encrypt_metadata m cipher (some event) plain ∷ [])
                        kept) in
                let returned : s
                    ≡ decrypt_metadata m cipher (some event)
                        (encrypt_metadata m cipher (some event) plain) =
                  cc in
                (
                  event,
                  plain,
                  (rw (e1, e2, e3) stored),
                  returned,
                  found_event m cipher db1 e event e3,
                  (refl, refl, refl),
                ))))
