-- ===== src/Permissions.antt =====
-- src/services/event-permissions.service.js: who may act on an event. The service only reads the
-- database, so each method is a function of it.
pub mod Rights
use hernan_pedraza_pi_back.Prelude.{
  ℕ, String, Bool, true, false, ◌&&◌, ◌||◌, Option, none, some, List, [], ◌∷◌, ◌==◌, str_eq, is_id,
  or_else, any, if◌then◌else◌,
}
use hernan_pedraza_pi_back.Errors.{Result, ok, err, not_found, forbidden, unauthorized}
use hernan_pedraza_pi_back.Mongo.{Mongo}
use hernan_pedraza_pi_back.Platform.{Platform}
use hernan_pedraza_pi_back.Models.{
  Event, Role, dj, attendee, Member, Actor, plain, signed, anonymous, Db,
}

abbrev pub participant_manage_permissions : List String
participant_manage_permissions = "PARTICIPANT_KICK" ∷ "PARTICIPANT_BAN" ∷ []

abbrev pub phone_microphone_permissions : List String
phone_microphone_permissions = "EVENT_SETTINGS_EDIT" ∷ "QUEUE_EDIT" ∷ "SONG_APPROVE_REJECT" ∷ []

-- `actor.userId || actor._id || actor.id || null`
unfoldable pub actor_id : Actor → Option ℕ
actor_id (plain u) = some u
actor_id (signed a) = or_else a.user_id (or_else a.doc_id a.plain_id)
actor_id anonymous = none

-- `actor?.role`: a string has no such field.
unfoldable pub actor_role : Actor → Option String
actor_role (plain u) = none
actor_role (signed a) = a.role
actor_role anonymous = none

unfoldable pub normalize_role : Option String → Option Role
normalize_role none = none
normalize_role (some r) =
    if str_eq r "DJ" then some dj else if str_eq r "ATTENDEE" then some attendee else none

unfoldable pub assert_actor_role : Actor → Result Role
unfolding actor_role
assert_actor_role actor = elim (normalize_role (actor_role actor)) [
  | none ↦ err (unauthorized "Actor has no valid role. Authentication may be incomplete.")
  | some r ↦ ok r
]

-- What the regular expressions make of the event's identifier: an object id or a short code.
pub data EventRef : Type 0 where
  object_id : ℕ → EventRef
  event_code : String → EventRef

pub record Context : Type 0 where
  pub event : Event
  pub user_id : Option ℕ
  pub role : Option Role
  pub is_owner : Bool
  pub is_dj : Bool
  pub member : Option Member

abbrev pub is_dj_role : Role → Bool
is_dj_role dj = true
is_dj_role attendee = false

abbrev pub is_dj_member : Option Member → Bool
is_dj_member none = false
is_dj_member (some x) = is_dj_role x.role

-- `permissions.some((p) => member.permissions.includes(p))`
abbrev pub holds_any : List String → Option Member → Bool
holds_any permissions none = false
holds_any permissions (some x) = any (λ p. any (str_eq p) x.permissions) permissions

unfoldable pub is_event_dj : Context → Bool
is_event_dj c = c.is_dj || c.is_owner || is_dj_member c.member

unfoldable pub has_any_permission : Context → List String → Bool
has_any_permission c permissions =
    if c.is_dj || c.is_owner then true else holds_any permissions c.member

module _ (m : Mongo) (env : Platform) where
  unfoldable pub find_event : Db m → EventRef → Option Event
  find_event db (object_id e) = m.find_one Event (λ x. x.id == e) db.events
  find_event db (event_code s) = m.find_one Event (λ x. str_eq x.code (env.to_upper s)) db.events

  unfoldable pub get_event : Db m → EventRef → Result Event
  get_event db ref = elim (find_event db ref) [
    | none ↦ err (not_found "Event not found")
    | some e ↦ ok e
  ]

  unfoldable pub find_member : Db m → ℕ → ℕ → Option Member
  find_member db e u = m.find_one Member (λ x. x.event_id == e && x.user_id == u) db.members

  -- The tail of `getContext`, for a user with a valid role.
  unfoldable pub member_context : Db m → Event → ℕ → Role → Context
  unfolding find_member
  member_context db e u r =
      let owner = e.owner_id == u in
      let x = if owner then none else find_member db e.id u in
      record {
        event = e;
        user_id = some u;
        role = some r;
        is_owner = owner;
        is_dj = owner || is_dj_member x;
        member = x;
      }

  -- A user without one is treated as having no rights.
  unfoldable pub outsider_context : Event → Option ℕ → Context
  outsider_context e u = record {
    event = e;
    user_id = u;
    role = none;
    is_owner = false;
    is_dj = false;
    member = none;
  }

  unfoldable pub role_context : Db m → Event → ℕ → Option Role → Context
  unfolding outsider_context
  role_context db e u none = outsider_context e (some u)
  role_context db e u (some r) = member_context db e u r

  unfoldable pub user_context : Db m → Event → Option ℕ → Option Role → Context
  unfolding role_context
  user_context db e none r = outsider_context e none
  user_context db e (some u) r = role_context db e u r

  unfoldable pub event_context : Db m → Event → Actor → Context
  unfolding user_context
  event_context db e actor = user_context db e (actor_id actor) (normalize_role (actor_role actor))

  unfoldable pub get_context : Db m → EventRef → Actor → Result Context
  get_context db ref actor = elim (get_event db ref) [
    | err x ↦ err x
    | ok e ↦ ok (event_context db e actor)
  ]

  -- `if (…) return context; throw …`
  abbrev pub accept : Bool → Context → Result Context → Result Context
  accept true c refusal = ok c
  accept false c refusal = refusal

  unfoldable pub assert_event_dj : Db m → EventRef → Actor → String → Result Context
  unfolding get_context
  assert_event_dj db ref actor message = elim (assert_actor_role actor) [
    | err x ↦ err x
    | ok r ↦ elim (get_context db ref actor) [
      | err x ↦ err x
      | ok c ↦ accept (is_event_dj c) c (err (forbidden message))
    ]
  ]

  unfoldable pub assert_any_permission :
      Db m → EventRef → Actor → List String → String → Result Context
  unfolding get_context
  assert_any_permission db ref actor permissions message = elim (assert_actor_role actor) [
    | err x ↦ err x
    | ok r ↦ elim (get_context db ref actor) [
      | err x ↦ err x
      | ok c ↦
          accept (is_event_dj c || has_any_permission c permissions) c (err (forbidden message))
    ]
  ]

  unfoldable pub assert_owner : Db m → EventRef → Actor → String → Result Context
  unfolding get_context
  assert_owner db ref actor message = elim (assert_actor_role actor) [
    | err x ↦ err x
    | ok r ↦ elim (get_context db ref actor) [
      | err x ↦ err x
      | ok c ↦ accept (is_event_dj c) c (err (unauthorized message))
    ]
  ]

  unfoldable pub assert_song_admin : Db m → EventRef → Actor → Result Context
  assert_song_admin db ref actor =
      assert_any_permission db ref actor ("SONG_APPROVE_REJECT" ∷ [])
        "You do not have permission to manage songs in this event"

  unfoldable pub assert_participant_admin : Db m → EventRef → Actor → Result Context
  assert_participant_admin db ref actor =
      assert_any_permission db ref actor participant_manage_permissions
        "You do not have permission to manage attendees in this event"

  unfoldable pub assert_phone_microphone : Db m → EventRef → Actor → Result Context
  assert_phone_microphone db ref actor =
      assert_any_permission db ref actor phone_microphone_permissions "Unauthorized"
