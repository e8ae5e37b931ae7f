-- ===== src/Songs/Playback/Approval.antt =====
-- Approving in src/services/songs.service.js: what approveSong leaves of the song and of the event.
use hernan_pedraza_pi_back.Prelude.{
  ℕ, ◌≡◌, refl, sym, ◌∙◌, String, true, Option, none, some, Bool-cases, inl, inr, ◌⊎◌,
}
use mathlib.Core.Path.{subst}
use hernan_pedraza_pi_back.Participants.Joining.{truthy}
use hernan_pedraza_pi_back.Errors.{Result, ok, Result-cases, Returns}
use hernan_pedraza_pi_back.Exec.{◌>>=◌}
use hernan_pedraza_pi_back.Mongo.{Mongo, docs-save}
use hernan_pedraza_pi_back.Platform.{Platform}
use hernan_pedraza_pi_back.SongStates.{SongStatus, approved, status_name, validate_transition}
use hernan_pedraza_pi_back.SongStates.Order.{Transition}
use hernan_pedraza_pi_back.Models.{RecognitionMatch, Song, Actor, Db}
use hernan_pedraza_pi_back.Permissions.{assert_song_admin, object_id}
use hernan_pedraza_pi_back.Songs.Metadata.{Cipher, find_song_event, load_song, get_song_for_event}
use hernan_pedraza_pi_back.Songs.Playback.{
  approve_song, approve_pending, count_approval, is_approved_status, canonical_title, retitled,
  recognised,
}
use hernan_pedraza_pi_back.Songs.Playback.Starting.{
  plain_of, get_song_for_event_runs, decrypt_metadata-kept, save_encrypted_runs,
}
use hernan_pedraza_pi_back.Songs.Playback.Moves.{Moved, validated_Transition}

retitled-id : (title artist : Option String) (x : Song) → (retitled title artist x).id ≡ x.id
retitled-id none artist x = refl
retitled-id (some title) artist x = refl

recognised-id : (r : Option RecognitionMatch) (x : Song) → (recognised r x).id ≡ x.id
recognised-id none x = refl
recognised-id (some r) x = retitled-id (truthy r.title) (truthy r.artist) x

canonical_title-id : (x : Song) → (canonical_title x).id ≡ x.id
unfolding canonical_title
canonical_title-id x = recognised-id x.recognition_match x

approved_status : (c : SongStatus) → is_approved_status c ≡ true → c ≡ approved
approved_status SongStatus.approved h = refl
approved_status SongStatus.pending h = cc
approved_status SongStatus.playing h = cc
approved_status SongStatus.played h = cc
approved_status SongStatus.rejected h = cc
approved_status SongStatus.skipped h = cc

module _ (m : Mongo) (env : Platform) (cipher : Cipher) where
  count_approval-songs :
      (p : Option ℕ) (db : Db m) → (count_approval m env cipher p db).songs ≡ db.songs
  unfolding count_approval
  count_approval-songs none db = refl
  count_approval-songs (some p) db = refl

  -- The song of the event is stored as approved, and it is the outcome as it is.
  abbrev pub ApprovedBefore : ℕ → ℕ → Db m → Result Song × Db m → Type 0
  ApprovedBefore s e db outcome =
      (x : Song) × (load_song m cipher db s ≡ some x)
      × (x.event_id ≡ e)
      × (x.status ≡ approved)
      × (outcome ≡ (ok (plain_of m env cipher db x), db))

  -- Approving counts for the attendee besides, which leaves the songs alone.
  approve_pending-Moved :
      (s e : ℕ) (db : Db m)
      → Returns ((get_song_for_event m cipher s e >>= approve_pending m env cipher) db).0
      → Moved m env cipher approved s e db
          ((get_song_for_event m cipher s e >>= approve_pending m env cipher) db)
  unfolding approve_pending status_name
  approve_pending-Moved s e db h = elim (Result-cases (get_song_for_event m cipher s e db).0) [
    | inr (_, missing) ↦ absurd (rw (missing, Returns) at h)
    | inl (y, got) ↦
        let (x, found, same, run) =
          get_song_for_event_runs m env cipher s e db (rw (got, Returns) tt) in
        let p = plain_of m env cipher db x in
        elim (Result-cases (validate_transition (status_name p.status) "APPROVED" "DJ")) [
          | inr (_, refused) ↦ absurd (rw (run, refused, Returns) at h)
          | inl (_, legal) ↦
              let y : Song = record (canonical_title p) { status = approved } in
              let (stored, v, kept, shown, saved) = save_encrypted_runs m env cipher y db in
              let (ident, _, status, _) =
                decrypt_metadata-kept m env cipher (find_song_event m cipher db x.event_id) x in
              (
                x,
                stored,
                v,
                found,
                same,
                subst (λ z. Transition z approved) status
                    (validated_Transition p.status approved legal),
                rw (run, legal, saved),
                shown,
                kept,
                rw (
                  run,
                  legal,
                  saved,
                  count_approval-songs,
                  docs-save,
                  canonical_title-id p,
                  ident,
                ),
              )
        ]
  ]

-- When approveSong returns, either the stored song of the event was approved already, and that
-- song is returned decrypted and the database left alone, or the song moved along an edge of the
-- state machine to approved: the returned song and the stored one are approved, and no song of
-- another identifier changed.
pub approve_song-Moved :
    (m : Mongo) (env : Platform) (cipher : Cipher) (s e : ℕ) (actor : Actor) (db : Db m)
    → Returns (approve_song m env cipher s e actor db).0
    → ApprovedBefore m env cipher s e db (approve_song m env cipher s e actor db)
      ⊎ Moved m env cipher approved s e db (approve_song m env cipher s e actor db)
unfolding approve_song
approve_song-Moved m env cipher s e actor db h =
    elim (Result-cases (assert_song_admin m env db (object_id e) actor)) [
      | inr (_, refused) ↦ absurd (rw (refused, Returns) at h)
      | inl (c, allowed) ↦ elim (Result-cases (get_song_for_event m cipher s e db).0) [
        | inr (_, missing) ↦ absurd (rw (allowed, missing, Returns) at h)
        | inl (y, got) ↦
            let (x, found, same, run) =
              get_song_for_event_runs m env cipher s e db (rw (got, Returns) tt) in
            let p = plain_of m env cipher db x in
            elim (Bool-cases (is_approved_status p.status)) [
              | inl already ↦
                  let (_, _, status, _) =
                    decrypt_metadata-kept m env cipher (find_song_event m cipher db x.event_id) x in
                  let before : x.status ≡ approved =
                    sym status ∙ approved_status p.status already in
                  inl (x, found, same, before, rw (allowed, run, already))
              | inr waiting ↦
                  let step : approve_song m env cipher s e actor db
                      ≡ (get_song_for_event m cipher s e >>= approve_pending m env cipher) db =
                    (rw (allowed, run, waiting)) in
                  inr (rw step (approve_pending-Moved m env cipher s e db (rw step at h)))
            ]
      ]
    ]
