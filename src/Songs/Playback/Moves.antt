-- ===== src/Songs/Playback/Moves.antt =====
-- The moves of a DJ in src/services/songs.service.js as edges of the state machine.
use hernan_pedraza_pi_back.Prelude.{
  ℕ, ◌≡◌, refl, ◌∙◌, String, some, or_else, ◌==◌, inl, inr, modify,
}
use mathlib.Core.Path.{subst}
use hernan_pedraza_pi_back.Errors.{Result, ok, Result-cases, Returns}
use hernan_pedraza_pi_back.Exec.{Exec, ◌>>=◌, ◌>>◌, lift}
use hernan_pedraza_pi_back.Mongo.{Mongo, docs-save}
use hernan_pedraza_pi_back.Platform.{Platform}
use hernan_pedraza_pi_back.SongStates.{
  SongStatus, played, rejected, skipped, status_name, validate_transition,
}
use hernan_pedraza_pi_back.SongStates.Order.{
  Transition, validate_transition_iff, song_state-status_name,
}
use hernan_pedraza_pi_back.Models.{Song, Actor, Db}
use hernan_pedraza_pi_back.Permissions.{actor_id, assert_song_admin, object_id}
use hernan_pedraza_pi_back.Songs.Metadata.{
  Cipher, find_song_event, load_song, get_song_for_event, save_encrypted,
}
use hernan_pedraza_pi_back.Songs.Playback.{reject_song, skip_song, mark_song_as_played}
use hernan_pedraza_pi_back.Songs.Playback.Starting.{
  plain_of, get_song_for_event_runs, decrypt_metadata-kept, save_encrypted_runs,
}

pub validated_Transition :
    (c n : SongStatus) {u : Unit {0}}
    → validate_transition (status_name c) (status_name n) "DJ" ≡ ok u
    → Transition c n
validated_Transition c n h =
    let (a, b, ea, eb, t, _) = (validate_transition_iff (status_name c) (status_name n) "DJ").0 h in
    let from : a ≡ c = (cc (song_state-status_name c, ea)) in
    let to : b ≡ n = (cc (song_state-status_name n, eb)) in
    subst (λ z. Transition z n) from (subst (λ z. Transition a z) to t)

module _ (m : Mongo) (env : Platform) (cipher : Cipher) where
  -- The song of the event moved to a state along an edge: the returned song and the stored one
  -- are in it, and no song of another identifier changed.
  abbrev pub Moved : SongStatus → ℕ → ℕ → Db m → Result Song × Db m → Type 0
  Moved n s e db outcome =
      (x : Song) × (stored : Song) × (v : Song) × (load_song m cipher db s ≡ some x)
      × (x.event_id ≡ e)
      × Transition x.status n
      × (outcome.0 ≡ ok v)
      × (v.status ≡ n)
      × (stored.status ≡ n)
      × (m.docs Song outcome.1.songs
          ≡ modify (λ y. y.id == x.id) (λ _. stored) (m.docs Song db.songs))

  -- What the methods have in common: the transition is checked, then the changed song is saved.
  abbrev move : SongStatus → (Song → Song) → ℕ → ℕ → Exec (Db m) Song
  move n change s e = do
    song ← get_song_for_event m cipher s e
    lift (validate_transition (status_name song.status) (status_name n) "DJ")
    save_encrypted m cipher (change song)

  move-Moved :
      (n : SongStatus) (change : Song → Song) (s e : ℕ) (db : Db m)
      → ((x : Song) → ((change x).status ≡ n) × ((change x).id ≡ x.id))
      → Returns (move n change s e db).0
      → Moved n s e db (move n change s e db)
  move-Moved n change s e db reaches h =
      elim (Result-cases (get_song_for_event m cipher s e db).0) [
        | inr (_, missing) ↦ absurd (rw (missing, Returns) at h)
        | inl (y, got) ↦
            let (x, found, same, run) =
              get_song_for_event_runs m env cipher s e db (rw (got, Returns) tt) in
            let p = plain_of m env cipher db x in
            elim (Result-cases (validate_transition (status_name p.status) (status_name n) "DJ")) [
              | inr (_, refused) ↦ absurd (rw (run, refused, Returns) at h)
              | inl (_, legal) ↦
                  let (stored, v, kept, shown, saved) =
                    save_encrypted_runs m env cipher (change p) db in
                  let (ident, _, status, _) =
                    decrypt_metadata-kept m env cipher (find_song_event m cipher db x.event_id) x in
                  (
                    x,
                    stored,
                    v,
                    found,
                    same,
                    subst (λ z. Transition z n) status (validated_Transition p.status n legal),
                    rw (run, legal, saved),
                    shown ∙ (reaches p).0,
                    kept ∙ (reaches p).0,
                    rw (run, legal, saved, docs-save, (reaches p).1, ident),
                  )
            ]
      ]

  abbrev status_reached : SongStatus → Song → Song
  status_reached n x = record x { status = n }

  -- When rejectSong returns, the song of the event moved along an edge of the state machine to
  -- rejected: the returned song and the stored one are rejected, and no song of another identifier
  -- changed.
  pub reject_song-Moved :
      (s e : ℕ) (actor : Actor) (db : Db m)
      → Returns (reject_song m env cipher s e actor db).0
      → Moved rejected s e db (reject_song m env cipher s e actor db)
  unfolding reject_song status_name
  reject_song-Moved s e actor db h =
      elim (Result-cases (assert_song_admin m env db (object_id e) actor)) [
        | inr (_, refused) ↦ absurd (rw (refused, Returns) at h)
        | inl (c, allowed) ↦ rw allowed (
            move-Moved rejected (status_reached rejected) s e db (λ x. (refl, refl))
              (rw allowed at h))
      ]

  -- When markSongAsPlayed returns, the song of the event moved along an edge of the state machine to
  -- played: the returned song and the stored one are played, and no song of another identifier
  -- changed.
  pub mark_song_as_played-Moved :
      (s e : ℕ) (actor : Actor) (db : Db m)
      → Returns (mark_song_as_played m env cipher s e actor db).0
      → Moved played s e db (mark_song_as_played m env cipher s e actor db)
  unfolding mark_song_as_played status_name
  mark_song_as_played-Moved s e actor db h =
      elim (Result-cases (assert_song_admin m env db (object_id e) actor)) [
        | inr (_, refused) ↦ absurd (rw (refused, Returns) at h)
        | inl (c, allowed) ↦
            rw allowed (
              move-Moved played (status_reached played) s e db (λ x. (refl, refl))
                (rw allowed at h))
      ]

  -- When skipSong returns, the song of the event moved along an edge of the state machine to
  -- skipped: the returned song and the stored one are skipped, and no song of another identifier
  -- changed.
  pub skip_song-Moved :
      (now s e : ℕ) (reason : String) (actor : Actor) (db : Db m)
      → Returns (skip_song m env cipher now s e reason actor db).0
      → Moved skipped s e db (skip_song m env cipher now s e reason actor db)
  unfolding skip_song status_name
  skip_song-Moved now s e reason actor db h =
      elim (Result-cases (assert_song_admin m env db (object_id e) actor)) [
        | inr (_, refused) ↦ absurd (rw (refused, Returns) at h)
        | inl (c, allowed) ↦
            let by = or_else c.user_id (actor_id actor) in
            let change : Song → Song = λ x. record x {
              status = skipped;
              skipped_at = some now;
              skipped_by = by;
              skipped_reason = some reason;
            } in
            rw allowed (move-Moved skipped change s e db (λ x. (refl, refl)) (rw allowed at h))
      ]
