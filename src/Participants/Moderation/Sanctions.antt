-- ===== src/Participants/Moderation/Sanctions.antt =====
-- What kicks, bans and cooldowns do to the later requests of the attendee.
use hernan_pedraza_pi_back.Prelude.{
  ℕ, ◌≡◌, refl, String, Bool, true, Option, some, ◌==◌, ==_refl, arith, Bool-cases, Option-cases,
  inl, inr, ap, find?, modify, List, [], ◌∷◌, if◌then◌else◌,
}
use hernan_pedraza_pi_back.Errors.{ApiError, Result, ok, err, forbidden, Result-cases, Returns}
use hernan_pedraza_pi_back.Exec.{◌>>=◌, continue}
use hernan_pedraza_pi_back.Mongo.{Mongo, find_one_lem, docs-save}
use hernan_pedraza_pi_back.Platform.{Platform}
use hernan_pedraza_pi_back.Models.{Participant, Actor, Db}
use hernan_pedraza_pi_back.Participants.Access.{
  ParticipantView, format_participant, find_participant, save_participant, saved, assert_active,
  ensure_participant_can_interact, assert_participant_admin_permission,
}
use hernan_pedraza_pi_back.Participants.Moderation.{kick_participant, ban_participant}

-- What `find` meets first is what `modify` replaces first.
find?-modify_id :
    (i : ℕ) (q : Participant) (xs : List Participant) {p : Participant}
    → q.id ≡ i
    → find? (λ x. x.id == i) xs ≡ some p
    → find? (λ x. x.id == i) (modify (λ x. x.id == i) (λ _. q) xs) ≡ some q
find?-modify_id i q [] same h = cc
find?-modify_id i q (x ∷ xs) same h = elim (Bool-cases (x.id == i)) [
  | inl hit ↦ ground (arith, hit, same)
  | inr miss ↦ rw (miss, miss) (find?-modify_id i q xs same (rw miss at h))
]

find?-id :
    (i : ℕ) (xs : List Participant) {p : Participant}
    → find? (λ x. x.id == i) xs ≡ some p
    → p.id ≡ i
find?-id i [] h = cc
find?-id i (x ∷ xs) h = elim (Bool-cases (x.id == i)) [
  | inl hit ↦ ground (arith, hit)
  | inr miss ↦ find?-id i xs (rw miss at h)
]

module _ (m : Mongo) (env : Platform) where
  pub find_participant-id :
      (db : Db m) (i : ℕ) {p : Participant} → find_participant m env db i ≡ some p → p.id ≡ i
  unfolding find_participant
  find_participant-id db i h = find?-id i _ (rw find_one_lem at h)

  -- What is saved over a participant that was found is found from then on.
  pub find_participant-save :
      (db : Db m) (i : ℕ) (p q : Participant)
      → find_participant m env db i ≡ some p
      → q.id ≡ i
      → find_participant m env (save_participant m env q db).1 i ≡ some (saved m env q)
  unfolding find_participant save_participant saved
  find_participant-save db i p q h same =
      rw (find_one_lem, docs-save, same)
        (find?-modify_id i (record (saved m env q) { id = i }) _ refl (rw find_one_lem at h))

  -- Every method that sanctions looks the attendee up, checks the moderator, saves the changed
  -- document and returns it formatted.
  abbrev Sanctioned :
      Db m
      → ℕ
      → ℕ
      → Actor
      → (ℕ → Participant → Participant)
      → Result ParticipantView × Db m
      → Type 0
  Sanctioned db now i actor change outcome =
      (p : Participant) × (u : ℕ) × (find_participant m env db i ≡ some p)
      × (assert_participant_admin_permission m env db p actor ≡ ok u)
      × (outcome
          ≡ (ok (format_participant now (change u p)), (save_participant m env (change u p) db).1))

  abbrev kick : ℕ → String → ℕ → Participant → Participant
  kick now reason u p = record p {
    kicked_at = some now;
    kicked_by = some u;
    kick_reason = some reason;
    left_at = some now;
  }

  kick-Sanctioned :
      (db : Db m) (now i : ℕ) (reason : String) (actor : Actor)
      → Returns (kick_participant m env now i reason actor db).0
      → Sanctioned db now i actor (kick now reason) (kick_participant m env now i reason actor db)
  unfolding kick_participant save_participant format_participant
  kick-Sanctioned db now i reason actor h = elim (Option-cases (find_participant m env db i)) [
    | inl missing ↦ absurd (rw (missing, Returns) at h)
    | inr (p, found) ↦ elim (Result-cases (assert_participant_admin_permission m env db p actor)) [
      | inr (e, refused) ↦ absurd (rw (found, refused, Returns) at h)
      | inl (u, allowed) ↦ (p, u, found, allowed, rw (found, allowed, ◌>>=◌, continue))
    ]
  ]

  abbrev ban : ℕ → String → ℕ → Participant → Participant
  ban now reason u p = record p {
    banned_at = some now;
    banned_by = some u;
    ban_reason = some reason;
    is_banned = true;
    left_at = some now;
  }

  ban-Sanctioned :
      (db : Db m) (now i : ℕ) (reason : String) (actor : Actor)
      → Returns (ban_participant m env now i reason actor db).0
      → Sanctioned db now i actor (ban now reason) (ban_participant m env now i reason actor db)
  unfolding ban_participant save_participant format_participant
  ban-Sanctioned db now i reason actor h = elim (Option-cases (find_participant m env db i)) [
    | inl missing ↦ absurd (rw (missing, Returns) at h)
    | inr (p, found) ↦ elim (Result-cases (assert_participant_admin_permission m env db p actor)) [
      | inr (e, refused) ↦ absurd (rw (found, refused, Returns) at h)
      | inl (u, allowed) ↦ (p, u, found, allowed, rw (found, allowed, ◌>>=◌, continue))
    ]
  ]

  -- An attendee whose document is not active is refused, whoever asks, and nothing is written.
  inactive_refused :
      (db : Db m) (now i : ℕ) (check : Bool) (actor : Option Actor) (p : Participant) (e : ApiError)
      → find_participant m env db i ≡ some p
      → assert_active p ≡ err e
      → ensure_participant_can_interact m env now i (some p.event_id) check actor db ≡ (err e, db)
  unfolding ensure_participant_can_interact
  inactive_refused db now i check actor p e found inactive =
      rw (found, ==_refl p.event_id, inactive)

-- On the database that a successful kick leaves, every check of the attendee in that event is
-- refused, at any time of the clock, with or without the cooldown test and whoever acts: as banned
-- if the attendee was banned before, as kicked otherwise. The refused check writes nothing.
pub kick_participant-blocks :
    (m : Mongo) (env : Platform) (db : Db m) (now i : ℕ) (reason : String) (actor : Actor)
    (v : ParticipantView)
    → (kick_participant m env now i reason actor db).0 ≡ ok v
    → (later : ℕ) (check : Bool) (who : Option Actor)
    → ensure_participant_can_interact m env later i
        (some v.event_id)
        check
        who
        (kick_participant m env now i reason actor db).1
      ≡ (
        err (
            forbidden (
              if v.is_banned
              then "Participant has been banned from this event"
              else "Participant was kicked from this event")),
        (kick_participant m env now i reason actor db).1,
      )
unfolding format_participant assert_active saved
kick_participant-blocks m env db now i reason actor v h later check who =
    let (p, u, found, allowed, done) =
      kick-Sanctioned m env db now i reason actor (rw (h, Returns) tt) in
    let q : Participant = kick m env now reason u p in
    let same : v ≡ format_participant now q = (cc (ap (λ x. x.0) done)) in
    rw (same, done)
      (inactive_refused m env (save_participant m env q db).1 later i check who (saved m env q) _
        (find_participant-save m env db i p q found (find_participant-id m env db i found))
        (ground arith))

-- On the database that a successful ban leaves, every check of the attendee in that event is refused
-- as banned, and the refused check writes nothing.
pub ban_participant-blocks :
    (m : Mongo) (env : Platform) (db : Db m) (now i : ℕ) (reason : String) (actor : Actor)
    (v : ParticipantView)
    → (ban_participant m env now i reason actor db).0 ≡ ok v
    → (later : ℕ) (check : Bool) (who : Option Actor)
    → ensure_participant_can_interact m env later i
        (some v.event_id)
        check
        who
        (ban_participant m env now i reason actor db).1
      ≡ (
        err (forbidden "Participant has been banned from this event"),
        (ban_participant m env now i reason actor db).1,
      )
unfolding format_participant assert_active saved
ban_participant-blocks m env db now i reason actor v h later check who =
    let (p, u, found, allowed, done) =
      ban-Sanctioned m env db now i reason actor (rw (h, Returns) tt) in
    let q : Participant = ban m env now reason u p in
    let same : v ≡ format_participant now q = (cc (ap (λ x. x.0) done)) in
    rw (same, done)
      (inactive_refused m env (save_participant m env q db).1 later i check who (saved m env q) _
        (find_participant-save m env db i p q found (find_participant-id m env db i found)) refl)
