-- ===== src/Events/Lifecycle.antt =====
-- The methods of src/services/events.service.js that create, find and change events. The formatter
-- passes the fields of an event on, so a method returns the event.
use hernan_pedraza_pi_back.Prelude.{
  ℕ, String, Bool, true, false, not, ◌&&◌, Option, none, some, List, [], ◌∷◌, ◌==◌, str_eq, ltb,
  or_else, is_some, is_id, take, drop, if◌then◌else◌,
}
use hernan_pedraza_pi_back.Errors.{
  Result, ok, err, validation, forbidden, unauthorized, guard, refuse, or_missing,
}
use hernan_pedraza_pi_back.Exec.{Exec, pure, lift, gets, update, ◌>>=◌, ◌>>◌}
use hernan_pedraza_pi_back.Mongo.{Mongo}
use hernan_pedraza_pi_back.Platform.{Platform}
use hernan_pedraza_pi_back.Models.{
  Settings, EventState, Event, Role, dj, attendee, Member, Participant, User, Actor, Db,
}
use hernan_pedraza_pi_back.Permissions.{actor_id, EventRef, get_event}
use hernan_pedraza_pi_back.Participants.Joining.{truthy}

-- src/models/shared.js
unfoldable pub default_permissions_for_role : Role → List String
default_permissions_for_role dj =
    "QUEUE_READ" ∷ "QUEUE_EDIT" ∷ "SONG_APPROVE_REJECT" ∷ "PARTICIPANT_KICK" ∷ "PARTICIPANT_BAN"
    ∷ "EVENT_START" ∷ "EVENT_END" ∷ "EVENT_CANCEL" ∷ "EVENT_SETTINGS_EDIT" ∷ []
default_permissions_for_role attendee = "QUEUE_READ" ∷ "SONG_SUGGEST" ∷ "SONG_VOTE" ∷ []

abbrev pub initial_settings : Settings
initial_settings = record {
  allow_requests = some true;
  require_approval = some false;
  max_requests_per_participant = some 3;
  voting_enabled = some true;
  allow_downvotes = some true;
  premium_votes_enabled = some true;
  approve_ladder_threshold = some 3;
}

-- `{ ...event.settings, ...updates.settings }`
unfoldable pub merge_settings : Settings → Settings → Settings
merge_settings new old = record {
  allow_requests = or_else new.allow_requests old.allow_requests;
  require_approval = or_else new.require_approval old.require_approval;
  max_requests_per_participant =
      or_else new.max_requests_per_participant old.max_requests_per_participant;
  voting_enabled = or_else new.voting_enabled old.voting_enabled;
  allow_downvotes = or_else new.allow_downvotes old.allow_downvotes;
  premium_votes_enabled = or_else new.premium_votes_enabled old.premium_votes_enabled;
  approve_ladder_threshold = or_else new.approve_ladder_threshold old.approve_ladder_threshold;
}

pub record EventUpdates : Type 0 where
  pub name : Option String
  pub description : Option String
  pub settings : Option Settings

abbrev pub renamed_to : Option String → Event → Event
renamed_to none e = e
renamed_to (some s) e = record e { name = s }

abbrev pub described_as : Option String → Event → Event
described_as none e = e
described_as (some s) e = record e { description = some s }

abbrev pub set_to : Option Settings → Event → Event
set_to none e = e
set_to (some s) e = record e { settings = merge_settings s e.settings }

unfoldable pub apply_updates : EventUpdates → Event → Event
unfolding merge_settings
apply_updates u e =
    set_to u.settings (described_as (truthy u.description) (renamed_to (truthy u.name) e))

-- What a request to create an event says, with the codes that were drawn for it and the
-- identifier that the database gives it.
pub record NewEvent : Type 0 where
  pub id : ℕ
  pub name : String
  pub description : Option String
  pub starts_at : ℕ
  pub event_id : Option String
  pub drawn_event_id : String
  pub drawn_access_code : String

abbrev pub text_else : Option String → String → String
text_else none d = d
text_else (some s) d = s

abbrev pub is_dj_user : Role → Bool
is_dj_user dj = true
is_dj_user attendee = false

abbrev pub is_live : EventState → Bool
is_live EventState.live = true
is_live _ = false

abbrev pub is_active : EventState → Bool
is_active EventState.live = true
is_active EventState.draft = true
is_active _ = false

-- Descending by `state`, as texts, then by `startsAt`.
abbrev pub state_rank : EventState → ℕ
state_rank EventState.cancelled = 0
state_rank EventState.draft = 1
state_rank EventState.ended = 2
state_rank EventState.live = 3

abbrev pub later_start : Event → Event → Bool
later_start a b = ltb b.starts_at a.starts_at

unfoldable pub active_first : Event → Event → Bool
active_first a b =
    if ltb (state_rank b.state) (state_rank a.state)
    then true
    else if ltb (state_rank a.state) (state_rank b.state)
    then false
    else later_start a b

module _ (m : Mongo) (env : Platform) where
  -- The setters of the schema: `name` is trimmed, the two codes are trimmed and in upper case.
  unfoldable pub stored_event : Event → Event
  stored_event e = record e {
    name = env.trim e.name;
    code = env.to_upper (env.trim e.code);
    access_code = env.to_upper (env.trim e.access_code);
  }

  -- `_assertCanCreateEvent`
  abbrev pub check_creator : User → Result ℕ
  check_creator u =
      if not (is_dj_user u.role)
      then err (forbidden "Only DJs can create events")
      else if not u.email_registered
      then err (
          validation
            "Please confirm your email before creating an event. Check your inbox for the welcome email.")
      else ok u.id

  abbrev pub creator : Option ℕ → Db m → Result User
  creator none db = err (forbidden "Only DJs can create events")
  creator (some u) db = or_missing (m.find_one User (λ x. x.id == u) db.users) "User not found"

  unfoldable pub assert_can_create_event : Actor → Exec (Db m) ℕ
  assert_can_create_event actor = do
    found ← gets (creator (actor_id actor))
    u ← lift found
    lift (check_creator u)

  unfoldable pub new_event : NewEvent → ℕ → Event
  unfolding stored_event
  new_event request owner = stored_event (record {
    id = request.id;
    name = request.name;
    description = request.description;
    state = EventState.draft;
    starts_at = request.starts_at;
    ended_at = none;
    cancelled_at = none;
    cancelled_reason = none;
    code = text_else (truthy request.event_id) request.drawn_event_id;
    access_code = request.drawn_access_code;
    owner_id = owner;
    current_song_id = none;
    settings = initial_settings;
  })

  unfoldable pub create_event : NewEvent → Actor → Exec (Db m) Event
  unfolding default_permissions_for_role
  create_event request actor = do
    owner ← assert_can_create_event actor
    let e = new_event request owner
    update (λ db. record db { events = m.create Event e db.events })
    let member : Member = record {
      event_id = e.id;
      user_id = owner;
      role = dj;
      permissions = default_permissions_for_role dj;
      added_by = owner;
    }
    update (λ db. record db { members = m.create Member member db.members })
    pure e

  -- `getEvent` finds an event as the permissions service does.
  unfoldable pub show_event : Db m → EventRef → Result Event
  show_event db ref = get_event m env db ref

  unfoldable pub get_event_by_access_code : Db m → String → Result Event
  get_event_by_access_code db code =
      or_missing (m.find_one Event (λ e. str_eq e.access_code (env.to_upper code)) db.events)
        "Event not found"

  unfoldable pub list_active_events : Db m → ℕ → ℕ → List Event
  list_active_events db limit skip =
      take limit (drop skip (m.find_sorted Event later_start (λ e. is_live e.state) db.events))

  unfoldable pub get_active_event_for_owner : Db m → ℕ → Result Event
  get_active_event_for_owner db u =
      or_missing
        (m.find_first Event active_first (λ e. e.owner_id == u && is_active e.state) db.events)
        "Event not found"

  unfoldable pub load_event : Db m → ℕ → Option Event
  load_event db e = m.find_one Event (λ x. x.id == e) db.events

  unfoldable pub save_event : Event → Db m → Db m
  save_event e db = record db {
    events = m.save Event (λ x. x.id == e.id) (stored_event e) db.events;
  }

  -- `event.ownerId.toString() !== userId.toString()`
  abbrev pub owned_event : ℕ → ℕ → Exec (Db m) Event
  owned_event e u = do
    found ← gets (λ db. or_missing (load_event db e) "Event not found")
    event ← lift found
    lift (guard (event.owner_id == u) (unauthorized "Unauthorized"))
    pure event

  abbrev pub save_and_return : Event → Exec (Db m) Event
  save_and_return e = do update (save_event e); pure (stored_event e)

  unfoldable pub update_event : ℕ → ℕ → EventUpdates → Exec (Db m) Event
  update_event e u updates = do
    event ← owned_event e u
    save_and_return (apply_updates updates event)

  unfoldable pub start_event : ℕ → ℕ → Exec (Db m) Event
  start_event e u = do
    event ← owned_event e u
    save_and_return (record event { state = EventState.live })

  unfoldable pub end_event : ℕ → ℕ → ℕ → Exec (Db m) Event
  end_event now e u = do
    event ← owned_event e u
    save_and_return (record event { state = EventState.ended; ended_at = some now })

  unfoldable pub cancel_event : ℕ → ℕ → ℕ → Option String → Exec (Db m) Event
  cancel_event now e u reason = do
    event ← owned_event e u
    save_and_return (record event {
      state = EventState.cancelled;
      cancelled_at = some now;
      cancelled_reason = reason;
    })

  -- `code` is the six characters that were drawn.
  unfoldable pub regenerate_access_code : ℕ → ℕ → String → Exec (Db m) Event
  regenerate_access_code e u code = do
    event ← owned_event e u
    save_and_return (record event { access_code = code })

  abbrev pub is_owner_of_found : Option Event → Participant → Bool
  is_owner_of_found none p = false
  is_owner_of_found (some e) p = is_id p.user_id e.owner_id

  unfoldable pub present_participant_query : Db m → ℕ → Participant → Bool
  present_participant_query db e p =
      (p.event_id == e && not (is_some p.left_at)) && not (is_owner_of_found (load_event db e) p)

  unfoldable pub list_event_participants : Db m → ℕ → List Participant
  list_event_participants db e = m.find Participant (present_participant_query db e) db.participants

  unfoldable pub get_event_participant_count : Db m → ℕ → ℕ
  get_event_participant_count db e =
      m.count_documents Participant (present_participant_query db e) db.participants

  unfoldable pub add_event_member : ℕ → ℕ → Role → ℕ → Exec (Db m) Member
  unfolding default_permissions_for_role
  add_event_member e u role actor = do
    existing ← gets (λ db. m.find_one Member (λ x. x.event_id == e && x.user_id == u) db.members)
    lift (refuse (is_some existing) (validation "User is already an event member"))
    let member : Member = record {
      event_id = e;
      user_id = u;
      role = role;
      permissions = default_permissions_for_role role;
      added_by = actor;
    }
    update (λ db. record db { members = m.create Member member db.members })
    pure member
