-- ===== src/Participants/Admission.antt =====
-- Exactly which attendees pass the checks of src/services/participants.service.js before they act.
use hernan_pedraza_pi_back.Prelude.{
  ℕ, ◌≤◌, ◌≡◌, ap, ◌↔◌, refl, Bool, true, false, not, ◌&&◌, Option, none, some, ◌==◌, ==_iff,
  ==_refl, arith, Bool-cases, Option-cases, inl, inr, is_id, is_some,
}
use hernan_pedraza_pi_back.Errors.{ok, Returns, Result-cases}
use hernan_pedraza_pi_back.Exec.{Returns-lift}
use hernan_pedraza_pi_back.Mongo.{Mongo}
use hernan_pedraza_pi_back.Platform.{Platform}
use hernan_pedraza_pi_back.Models.{Participant, Actor, Db}
use hernan_pedraza_pi_back.Permissions.{actor_id}
use hernan_pedraza_pi_back.Participants.Access.{
  find_participant, assert_active, assert_participant_owner, assert_session, check_event,
  check_owner, check_cooldown, on_cooldown, cooldown_error, clear_expired_cooldown, cooldown_over,
  ensure_participant_can_interact, assert_participant_session,
}

-- The participant belongs to the event that the request names, if it names one.
abbrev pub InEvent : Option ℕ → Participant → Type 0
InEvent none p = Unit
InEvent (some e) p = p.event_id ≡ e

abbrev pub IsActive : Participant → Type 0
IsActive p = (p.is_banned ≡ false) × (p.left_at ≡ none)

-- The user who acts is the one who joined.
abbrev pub OwnedBy : Actor → Participant → Type 0
OwnedBy actor p = (u : ℕ) × (actor_id actor ≡ some u) × (p.user_id ≡ some u)

abbrev pub OwnedByAny : Option Actor → Participant → Type 0
OwnedByAny none p = Unit
OwnedByAny (some actor) p = OwnedBy actor p

-- Where cooldowns are checked, none reaches beyond the present.
abbrev pub IsFree : Bool → ℕ → Participant → Type 0
IsFree check now p = check ≡ true → (t : ℕ) → p.cooldown_until ≡ some t → t ≤ now

is_id→eq : (o : Option ℕ) (u : ℕ) → is_id o u ≡ true → o ≡ some u
is_id→eq none u h = cc
is_id→eq (some a) u h = ap some ((==_iff a u).0 h)

eq→is_id : (o : Option ℕ) (u : ℕ) → o ≡ some u → is_id o u ≡ true
eq→is_id o u h = rw h (==_refl u)

IsActive-sound : (p : Participant) → Returns (assert_active p) → IsActive p
unfolding assert_active
IsActive-sound p h = elim (Bool-cases p.is_banned) [
  | inl banned ↦ absurd (rw (banned, Returns) at h)
  | inr clear ↦ elim (Option-cases p.left_at) [
    | inl here ↦ (clear, here)
    | inr (t, gone) ↦ elim (Option-cases p.kicked_at) [
      | inl left ↦ absurd (rw (clear, gone, left, Returns) at h)
      | inr (k, kicked) ↦ absurd (rw (clear, gone, kicked, Returns) at h)
    ]
  ]
]

active_complete : (p : Participant) → IsActive p → assert_active p ≡ ok tt
unfolding assert_active
active_complete p h = ground arith

owner_sound :
    (p : Participant) (actor : Actor) → Returns (assert_participant_owner p actor) → OwnedBy actor p
unfolding assert_participant_owner
owner_sound p actor h = elim (Option-cases (actor_id actor)) [
  | inl nobody ↦ absurd (rw (nobody, Returns) at h)
  | inr (u, who) ↦ elim (Bool-cases (is_id p.user_id u)) [
    | inl own ↦ (u, who, is_id→eq p.user_id u own)
    | inr other ↦ absurd (rw (who, other, Returns) at h)
  ]
]

owner_complete :
    (p : Participant) (actor : Actor) → OwnedBy actor p → assert_participant_owner p actor ≡ ok tt
unfolding assert_participant_owner
owner_complete p actor (u, who, own) = rw (who, own, ==_refl u)

IsFree-sound :
    (check : Bool) (now : ℕ) (p : Participant)
    → (check && on_cooldown now p) ≡ false
    → IsFree check now p
unfolding on_cooldown
IsFree-sound check now p h on t until = ground (arith, h, on, until)

free_complete :
    (check : Bool) (now : ℕ) (p : Participant)
    → IsFree check now p
    → (check && on_cooldown now p) ≡ false
unfolding on_cooldown
free_complete false now p h = refl
free_complete true now p h = elim (Option-cases p.cooldown_until) [
  | inl never ↦ rw never
  | inr (t, until) ↦ ground (arith, until, h refl t until)
]

module _ (m : Mongo) (env : Platform) where
  event_sound : (e : Option ℕ) (p : Participant) → Returns (check_event m env e p) → InEvent e p
  unfolding check_event
  event_sound none p h = tt
  event_sound (some e) p h = elim (Bool-cases (p.event_id == e)) [
    | inl same ↦ (==_iff p.event_id e).0 same
    | inr other ↦ absurd (rw (other, Returns) at h)
  ]

  event_complete : (e : Option ℕ) (p : Participant) → InEvent e p → check_event m env e p ≡ ok tt
  unfolding check_event
  event_complete none p h = refl
  event_complete (some e) p h = rw (h, ==_refl e)

  asker_sound :
      (a : Option Actor) (p : Participant) → Returns (check_owner m env a p) → OwnedByAny a p
  unfolding check_owner
  asker_sound none p h = tt
  asker_sound (some actor) p h = owner_sound p actor h

  asker_complete :
      (a : Option Actor) (p : Participant) → OwnedByAny a p → check_owner m env a p ≡ ok tt
  unfolding check_owner
  asker_complete none p h = refl
  asker_complete (some actor) p h = owner_complete p actor h

  cooldown_sound :
      (check : Bool) (now : ℕ) (p : Participant)
      → Returns (check_cooldown m env check now p)
      → IsFree check now p
  unfolding check_cooldown cooldown_error
  cooldown_sound check now p h = elim (Bool-cases (check && on_cooldown now p)) [
    | inl on ↦ absurd (rw (on, Returns) at h)
    | inr off ↦ IsFree-sound check now p off
  ]

  cooldown_complete :
      (check : Bool) (now : ℕ) (p : Participant)
      → IsFree check now p
      → check_cooldown m env check now p ≡ ok tt
  unfolding check_cooldown
  cooldown_complete check now p h = rw (free_complete check now p h)

  clear-Returns :
      (now : ℕ) (p : Participant) (db : Db m) → Returns (clear_expired_cooldown m env now p db).0
  unfolding clear_expired_cooldown
  clear-Returns now p db = elim (Bool-cases (cooldown_over now p)) [
    | inl over ↦ rw (over, Returns) tt
    | inr not ↦ rw (not, Returns) tt
  ]

  -- The two methods that let an attendee act, as one chain of checks after the lookup.
  abbrev pub Admits : Option ℕ → Bool → ℕ → Db m → ℕ → (Participant → Type 0) → Type 0
  Admits e check now db i Owns =
      (p : Participant) × (find_participant m env db i ≡ some p)
      × InEvent e p
      × IsActive p
      × Owns p
      × IsFree check now p

  ensure_sound :
      (now i : ℕ) (e : Option ℕ) (check : Bool) (actor : Option Actor) (db : Db m)
      → Returns (ensure_participant_can_interact m env now i e check actor db).0
      → Admits e check now db i (OwnedByAny actor)
  unfolding ensure_participant_can_interact
  ensure_sound now i e check actor db h = elim (Option-cases (find_participant m env db i)) [
    | inl missing ↦ absurd (rw (missing, Returns) at h)
    | inr (p, found) ↦
        let (a, h₁) = Returns-lift _ _ db (rw (found, Returns) at h) in
        let (b, h₂) = Returns-lift _ _ db h₁ in
        let (c, h₃) = Returns-lift _ _ db h₂ in
        let (d, h₄) = Returns-lift _ _ db h₃ in
        (
          p,
          found,
          event_sound e p a,
          IsActive-sound p b,
          asker_sound actor p c,
          cooldown_sound check now p d,
        )
  ]

  ensure_complete :
      (now i : ℕ) (e : Option ℕ) (check : Bool) (actor : Option Actor) (db : Db m)
      → Admits e check now db i (OwnedByAny actor)
      → Returns (ensure_participant_can_interact m env now i e check actor db).0
  unfolding ensure_participant_can_interact
  ensure_complete now i e check actor db (p, found, a, b, c, d) =
      rw
        (
          found,
          Returns,
          event_complete e p a,
          active_complete p b,
          asker_complete actor p c,
          cooldown_complete check now p d,
        )
        (clear-Returns now p db)

  session_sound :
      (p : Participant) (actor : Actor)
      → Returns (assert_session p actor)
      → IsActive p × OwnedBy actor p
  unfolding assert_session
  session_sound p actor h = elim (Result-cases (assert_active p)) [
    | inr (e, gone) ↦ absurd (rw (gone, Returns) at h)
    | inl (_, here) ↦
        let active = IsActive-sound p (rw (here, Returns) tt) in
        elim (Bool-cases (is_some p.user_id)) [
          | inr nobody ↦ absurd (rw (here, nobody, Returns) at h)
          | inl someone ↦ (active, owner_sound p actor (rw (here, someone, Returns) at h))
        ]
  ]

  session_complete :
      (p : Participant) (actor : Actor)
      → IsActive p
      → OwnedBy actor p
      → assert_session p actor ≡ ok tt
  unfolding assert_session
  session_complete p actor active (u, who, own) =
      let someone : is_some p.user_id ≡ true = (ground (arith, own)) in
      ground (arith, active_complete p active, someone, owner_complete p actor (u, who, own))

  by_session_sound :
      (now i : ℕ) (e : Option ℕ) (actor : Actor) (check : Bool) (db : Db m)
      → Returns (assert_participant_session m env now i e actor check db).0
      → Admits e check now db i (OwnedBy actor)
  unfolding assert_participant_session
  by_session_sound now i e actor check db h = elim (Option-cases (find_participant m env db i)) [
    | inl missing ↦ absurd (rw (missing, Returns) at h)
    | inr (p, found) ↦
        let (a, h₁) = Returns-lift _ _ db (rw (found, Returns) at h) in
        let (b, h₂) = Returns-lift _ _ db h₁ in
        let (c, h₃) = Returns-lift _ _ db h₂ in
        let (active, own) = session_sound p actor b in
        (p, found, event_sound e p a, active, own, cooldown_sound check now p c)
  ]

  by_session_complete :
      (now i : ℕ) (e : Option ℕ) (actor : Actor) (check : Bool) (db : Db m)
      → Admits e check now db i (OwnedBy actor)
      → Returns (assert_participant_session m env now i e actor check db).0
  unfolding assert_participant_session
  by_session_complete now i e actor check db (p, found, a, b, c, d) =
      rw
        (
          found,
          Returns,
          event_complete e p a,
          session_complete p actor b c,
          cooldown_complete check now p d,
        )
        (clear-Returns now p db)

-- `ensureParticipantCanInteract` succeeds exactly for a participant that exists, belongs to the
-- event asked for, is neither banned nor gone, was joined by the user who acts (if one is given)
-- and, where cooldowns are checked, is on none.
pub ensure_participant_can_interact_iff :
    (m : Mongo) (env : Platform) (now i : ℕ) (e : Option ℕ) (check : Bool) (actor : Option Actor)
    (db : Db m)
    → Returns (ensure_participant_can_interact m env now i e check actor db).0 ↔ (
        (p : Participant) × (find_participant m env db i ≡ some p)
        × InEvent e p
        × IsActive p
        × OwnedByAny actor p
        × IsFree check now p)
ensure_participant_can_interact_iff m env now i e check actor db =
    (ensure_sound m env now i e check actor db, ensure_complete m env now i e check actor db)

-- `assertParticipantSession` succeeds exactly for a participant that exists, belongs to the event
-- asked for, is neither banned nor gone, was joined by the user who acts and, where cooldowns are
-- checked, is on none.
pub assert_participant_session_iff :
    (m : Mongo) (env : Platform) (now i : ℕ) (e : Option ℕ) (actor : Actor) (check : Bool)
    (db : Db m)
    → Returns (assert_participant_session m env now i e actor check db).0 ↔ (
        (p : Participant) × (find_participant m env db i ≡ some p)
        × InEvent e p
        × IsActive p
        × OwnedBy actor p
        × IsFree check now p)
assert_participant_session_iff m env now i e actor check db = (
  by_session_sound m env now i e actor check db,
  by_session_complete m env now i e actor check db,
)
