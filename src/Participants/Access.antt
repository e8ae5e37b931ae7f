-- ===== src/Participants/Access.antt =====
-- The checks of src/services/participants.service.js on one participant and the user who acts,
-- with the queries that they make.
use Prim.Native.String
use hernan_pedraza_pi_back.Prelude.{
  ℕ, String, Bool, false, not, ◌&&◌, ◌||◌, Option, none, some, List, ◌==◌, is_id, is_some, str_eq,
  ltb, leb, if◌then◌else◌,
}
use hernan_pedraza_pi_back.Errors.{Result, ok, err, validation, forbidden, guard, or_missing}
use hernan_pedraza_pi_back.Exec.{Exec, pure, lift, update, ◌>>=◌, ◌>>◌}
use hernan_pedraza_pi_back.Mongo.{Mongo}
use hernan_pedraza_pi_back.Platform.{Platform}
use hernan_pedraza_pi_back.Models.{
  Event, Participant, SocialPrefs, Actor, plain, signed, anonymous, Db,
}
use hernan_pedraza_pi_back.Permissions.{actor_id, object_id, assert_participant_admin}

-- `_normalizeActorUser`: the identifier is that of the permission service; a string has no role.
unfoldable pub normalized_role : Actor → Option String
normalized_role (plain u) = none
normalized_role (signed a) = a.role
normalized_role anonymous = none

unfoldable pub owner_check : Participant → Option ℕ → Result (Unit {0})
owner_check p none = err (forbidden "Participant ownership could not be verified")
owner_check p (some u) = guard (is_id p.user_id u) (forbidden "You cannot act as this attendee")

unfoldable pub assert_participant_owner : Participant → Actor → Result (Unit {0})
unfolding owner_check actor_id
assert_participant_owner p actor = owner_check p (actor_id actor)

-- The tests on the participant's own state, which two methods write out alike.
unfoldable pub assert_active : Participant → Result (Unit {0})
assert_active p =
    if p.is_banned
    then err (forbidden "Participant has been banned from this event")
    else if is_some p.left_at
    then (if is_some p.kicked_at
        then err (forbidden "Participant was kicked from this event")
        else err (forbidden "Participant is no longer active in this event"))
    else ok tt

unfoldable pub assert_session : Participant → Actor → Result (Unit {0})
assert_session p actor = elim (assert_active p) [
  | err e ↦ err e
  | ok _ ↦
      if not (is_some p.user_id)
      then err (forbidden "Participant ownership must be proven before this action")
      else assert_participant_owner p actor
]

unfoldable pub on_cooldown : ℕ → Participant → Bool
on_cooldown now p = elim p.cooldown_until [ none ↦ false | some t ↦ ltb now t ]

unfoldable pub cooldown_over : ℕ → Participant → Bool
cooldown_over now p = elim p.cooldown_until [ none ↦ false | some t ↦ leb t now ]

abbrev pub get_or_text : Option String → String → String
get_or_text none d = d
get_or_text (some s) d = if str_eq s "" then d else s

unfoldable pub cooldown_error : Participant → Result (Unit {0})
cooldown_error p = err (
    validation (
      String.◌++◌ "Participant is on cooldown. Reason: "
        (get_or_text p.cooldown_reason "Administrative action")))

-- What `_formatParticipant` sends to clients.
pub record ParticipantView : Type 0 where
  pub id : ℕ
  pub user_id : Option ℕ
  pub event_id : ℕ
  pub nickname : String
  pub profile_picture : Option String
  pub joined_at : ℕ
  pub last_seen_at : ℕ
  pub is_banned : Bool
  pub cooldown_until : Option ℕ
  pub cooldown_reason : Option String
  pub is_premium : Bool
  pub password_protected : Bool
  pub left_at : Option ℕ
  pub anonymous_number : Option ℕ
  pub social_prefs : SocialPrefs

unfoldable pub format_participant : ℕ → Participant → ParticipantView
unfolding on_cooldown
format_participant now p = record {
  id = p.id;
  user_id = p.user_id;
  event_id = p.event_id;
  nickname = p.nickname;
  profile_picture = p.profile_picture;
  joined_at = p.joined_at;
  last_seen_at = p.last_seen_at;
  is_banned = p.is_banned;
  cooldown_until = if on_cooldown now p then p.cooldown_until else none;
  cooldown_reason = if on_cooldown now p then p.cooldown_reason else none;
  is_premium = p.is_premium;
  password_protected = is_some p.password_hash || is_some p.password_set_at;
  left_at = p.left_at;
  anonymous_number = p.anonymous_number;
  social_prefs = p.social_prefs;
}

module _ (m : Mongo) (env : Platform) where
  unfoldable pub find_participant : Db m → ℕ → Option Participant
  find_participant db i = m.find_one Participant (λ p. p.id == i) db.participants

  -- `await participant.save()`: the hook of the schema sets `nicknameLower` first.
  unfoldable pub saved : Participant → Participant
  saved p = record p { nickname_lower = env.to_lower (env.trim p.nickname) }

  unfoldable pub save_participant : Participant → Exec (Db m) (Unit {0})
  unfolding saved
  save_participant p = update (λ db. record db {
    participants = m.save Participant (λ x. x.id == p.id) (saved p) db.participants;
  })

  abbrev pub load_participant : ℕ → Exec (Db m) Participant
  load_participant i db = (or_missing (find_participant db i) "Participant not found", db)

  -- `_activeParticipantQuery`: present, not banned, and not the event's owner.
  abbrev pub is_owner_of : Option Event → Participant → Bool
  is_owner_of none p = false
  is_owner_of (some e) p = is_id p.user_id e.owner_id

  unfoldable pub active_participant_query : Db m → ℕ → Participant → Bool
  active_participant_query db e p =
      p.event_id == e
      && not (is_some p.left_at)
      && not p.is_banned
      && not (is_owner_of (m.find_one Event (λ x. x.id == e) db.events) p)

  unfoldable pub get_event_participants : Db m → ℕ → List Participant
  unfolding active_participant_query
  get_event_participants db e = m.find Participant (active_participant_query db e) db.participants

  unfoldable pub count_active_participants : Db m → ℕ → ℕ
  unfolding active_participant_query
  count_active_participants db e =
      m.count_documents Participant (active_participant_query db e) db.participants

  -- An expired cooldown is removed where it is met.
  unfoldable pub clear_expired_cooldown : ℕ → Participant → Exec (Db m) Participant
  unfolding save_participant cooldown_over
  clear_expired_cooldown now p =
      if cooldown_over now p
      then (do
        let q = record p { cooldown_until = none; cooldown_reason = none }
        save_participant q
        pure q)
      else pure p

  unfoldable pub check_cooldown : Bool → ℕ → Participant → Result (Unit {0})
  unfolding on_cooldown cooldown_error
  check_cooldown check now p = if check && on_cooldown now p then cooldown_error p else ok tt

  -- `eventId && participant.eventId !== eventId`
  unfoldable pub check_event : Option ℕ → Participant → Result (Unit {0})
  check_event none p = ok tt
  check_event (some e) p =
      guard (p.event_id == e) (validation "Participant is not part of this event")

  unfoldable pub check_owner : Option Actor → Participant → Result (Unit {0})
  unfolding assert_participant_owner
  check_owner none p = ok tt
  check_owner (some actor) p = assert_participant_owner p actor

  unfoldable pub ensure_participant_can_interact :
      ℕ → ℕ → Option ℕ → Bool → Option Actor → Exec (Db m) Participant
  unfolding check_event check_owner check_cooldown clear_expired_cooldown
  ensure_participant_can_interact now i e check actor = do
    p ← load_participant i
    lift (check_event e p)
    lift (assert_active p)
    lift (check_owner actor p)
    lift (check_cooldown check now p)
    clear_expired_cooldown now p

  unfoldable pub assert_participant_session :
      ℕ → ℕ → Option ℕ → Actor → Bool → Exec (Db m) Participant
  unfolding check_event check_cooldown clear_expired_cooldown
  assert_participant_session now i e actor check = do
    p ← load_participant i
    lift (check_event e p)
    lift (assert_session p actor)
    lift (check_cooldown check now p)
    clear_expired_cooldown now p

  unfoldable pub assert_participant_socket_access :
      ℕ → ℕ → Option ℕ → Option Actor → Exec (Db m) ParticipantView
  assert_participant_socket_access now i e actor = do
    p ← ensure_participant_can_interact now i e false actor
    pure (format_participant now p)

  -- `_assertParticipantAdminPermission` returns the moderator's identifier.
  abbrev pub moderator : Db m → Participant → Option ℕ → Option String → Result ℕ
  moderator db p none role = err (validation "Invalid actor user ID")
  moderator db p (some u) role =
      if is_id p.user_id u
      then err (forbidden "You cannot moderate your own attendee session")
      else elim (assert_participant_admin m env db (object_id p.event_id)
          (signed (record { user_id = some u; doc_id = none; plain_id = none; role = role }))) [
            | err e ↦ err e
            | ok c ↦ ok u
          ]

  unfoldable pub assert_participant_admin_permission : Db m → Participant → Actor → Result ℕ
  unfolding normalized_role
  assert_participant_admin_permission db p actor =
      moderator db p (actor_id actor) (normalized_role actor)

  abbrev pub as_moderator : Participant → Actor → Exec (Db m) ℕ
  as_moderator p actor db = (assert_participant_admin_permission db p actor, db)
