-- ===== src/Participants/Joining.antt =====
-- src/services/participants.service.js: joining and rejoining an event, the public name and picture
-- that the social preferences choose, and the changes to a profile.
pub mod Masks
use hernan_pedraza_pi_back.Prelude.{
  ℕ, ◌+◌, String, Bool, true, false, not, ◌&&◌, ◌||◌, Option, none, some, ◌==◌, is_id, is_some,
  or_else, str_eq, if◌then◌else◌,
}
use hernan_pedraza_pi_back.Errors.{
  Result, ok, err, validation, forbidden, not_found, refuse, or_missing,
}
use hernan_pedraza_pi_back.Exec.{Exec, pure, raise, lift, gets, update, ◌>>=◌, ◌>>◌}
use hernan_pedraza_pi_back.Mongo.{Mongo}
use hernan_pedraza_pi_back.Platform.{Platform}
use hernan_pedraza_pi_back.Models.{
  Event, User, Participant, SocialPrefs, Actor, plain, signed, anonymous, Db,
}
use hernan_pedraza_pi_back.Participants.Access.{
  ParticipantView, format_participant, find_participant, save_participant, saved, assert_session,
  count_active_participants,
}
use hernan_pedraza_pi_back.Participants.Text.{format_anonymous_name, is_code_shaped}

-- The preferences of a request: a field that is no boolean is missing.
pub record SocialInput : Type 0 where
  pub show_display_name : Option Bool
  pub show_profile_picture : Option Bool
  pub allow_friend_requests : Option Bool

abbrev pub bool_or : Option Bool → Bool → Bool
bool_or none d = d
bool_or (some b) d = b

-- What the preferences become: the request's values over the given ones.
unfoldable pub merge_with : SocialInput → SocialPrefs → SocialPrefs
merge_with input p = record {
  show_display_name = bool_or input.show_display_name p.show_display_name;
  show_profile_picture = bool_or input.show_profile_picture p.show_profile_picture;
  allow_friend_requests = bool_or input.allow_friend_requests p.allow_friend_requests;
}

abbrev pub open_prefs : SocialPrefs
open_prefs = record {
  show_display_name = true;
  show_profile_picture = true;
  allow_friend_requests = true;
}

unfoldable pub merge_social_prefs : Option SocialInput → Option SocialPrefs
unfolding merge_with
merge_social_prefs none = none
merge_social_prefs (some input) = some (merge_with input open_prefs)

-- A text that is missing or empty is falsy.
abbrev pub truthy : Option String → Option String
truthy none = none
truthy (some s) = if str_eq s "" then none else some s

-- `participant.anonymousNumber`, which is falsy at 0 too.
abbrev pub number_of : Option ℕ → Option ℕ
number_of none = none
number_of (some n) = if n == 0 then none else some n

-- What a client sends to join an event.
pub record JoinRequest : Type 0 where
  pub event_id : ℕ
  pub nickname : String
  pub profile_picture : Option String
  pub password : Option String
  pub user_id : Option ℕ
  pub social_prefs : Option SocialInput

module _ (m : Mongo) (env : Platform) where
  -- The schema trims a nickname when it is set.
  abbrev pub set_nickname : String → Participant → Participant
  set_nickname s p = record p { nickname = env.trim s }

  abbrev pub set_name_of : Option String → Participant → Participant
  set_name_of none p = p
  set_name_of (some s) p = set_nickname s p

  unfoldable pub ensure_nickname_is_not_access_code : String → Db m → Result (Unit {0})
  ensure_nickname_is_not_access_code nickname db =
      let trimmed = env.trim nickname in
      refuse
        (is_code_shaped trimmed
          && is_some
              (m.find_one Event (λ e. str_eq e.access_code (env.to_upper trimmed)) db.events))
        (validation "Nickname cannot be a valid access code")

  -- `_applySocialPrefs`, its first assignments.
  unfoldable pub remember : SocialPrefs → Option String → Option String → Participant → Participant
  remember prefs picture nickname p = record p {
    social_prefs = prefs;
    real_nickname = or_else (truthy nickname) p.real_nickname;
    real_profile_picture = picture;
  }

  -- Its last ones.
  unfoldable pub present_picture : SocialPrefs → Participant → Participant
  present_picture prefs p = record p {
    profile_picture =
        if prefs.show_profile_picture
        then or_else p.real_profile_picture p.profile_picture
        else none;
  }

  unfoldable pub mask_name : ℕ → Participant → Participant
  mask_name n p =
      set_name_of (format_anonymous_name (some n)) (record p { anonymous_number = some n })

  -- The whole method, awaited; `next` is what `_nextAnonymousNumber` would answer.
  unfoldable pub apply_social_prefs :
      ℕ → SocialPrefs → Option String → Option String → Participant → Participant
  unfolding remember present_picture mask_name
  apply_social_prefs next prefs picture nickname p =
      let q = remember prefs picture nickname p in
      present_picture prefs (
        if prefs.show_display_name
        then set_name_of (truthy q.real_nickname) q
        else elim (number_of q.anonymous_number) [
          | none ↦ mask_name next q
          | some n ↦ mask_name n q
        ])

  -- The same method called without `await`: what it has done when it waits for the first time,
  -- which is before it has a number. The document is saved in that state.
  unfoldable pub start_social_prefs :
      SocialPrefs → Option String → Option String → Participant → Participant
  unfolding remember present_picture mask_name
  start_social_prefs prefs picture nickname p =
      let q = remember prefs picture nickname p in
      if prefs.show_display_name
      then present_picture prefs (set_name_of (truthy q.real_nickname) q)
      else elim (number_of q.anonymous_number) [
        | none ↦ q
        | some n ↦ present_picture prefs (mask_name n q)
      ]

  unfoldable pub next_anonymous_number : Db m → ℕ → ℕ
  next_anonymous_number db e = count_active_participants m env db e + 1

  abbrev pub start_prefs : Option SocialPrefs → Option String → String → Participant → Participant
  start_prefs none picture nickname p = p
  start_prefs (some prefs) picture nickname p = start_social_prefs prefs picture (some nickname) p

  -- The password test of a protected nickname.
  unfoldable pub check_password : Option String → String → Result (Unit {0})
  check_password none hash =
      err (validation "This nickname is protected. Enter its password to join.")
  check_password (some password) hash =
      if str_eq password ""
      then err (validation "This nickname is protected. Enter its password to join.")
      else if env.bcrypt_compare password hash
      then ok tt
      else err (validation "Incorrect password for this nickname.")

  -- The assignments that both ways of coming back share.
  unfoldable pub resumed : ℕ → JoinRequest → Participant → Participant
  resumed now r p = record p {
    left_at = none;
    kicked_at = none;
    user_id = r.user_id;
    profile_picture = or_else r.profile_picture p.profile_picture;
    joined_at = now;
    last_seen_at = now;
  }

  unfoldable pub forgiven : Participant → Participant
  forgiven p = record p { kicked_by = none; kick_reason = none }

  unfoldable pub come_back : ℕ → JoinRequest → Participant → Exec (Db m) ParticipantView
  unfolding save_participant
  come_back now r p = do
    let q =
        start_prefs (merge_social_prefs r.social_prefs) r.profile_picture (env.trim r.nickname) p
    save_participant m env q
    pure (format_participant now q)

  unfoldable pub rejoin : ℕ → JoinRequest → Participant → Exec (Db m) ParticipantView
  unfolding resumed forgiven
  rejoin now r p =
      if p.is_banned
      then raise (forbidden "Participant has been banned from this event")
      else elim p.password_hash [
        | some hash ↦ do lift (check_password r.password hash); come_back now r (resumed now r p)
        | none ↦
            if not (is_some p.left_at)
            then raise (validation "Nickname already taken in this event")
            else come_back now r (forgiven (resumed now r p))
      ]

  unfoldable pub new_participant : ℕ → ℕ → JoinRequest → Participant
  new_participant now i r = record {
    id = i;
    event_id = r.event_id;
    nickname = env.trim r.nickname;
    nickname_lower = env.to_lower (env.trim r.nickname);
    profile_picture = r.profile_picture;
    user_id = r.user_id;
    password_hash = none;
    password_set_at = none;
    joined_at = now;
    last_seen_at = now;
    is_banned = false;
    kicked_at = none;
    kicked_by = none;
    kick_reason = none;
    banned_at = none;
    banned_by = none;
    ban_reason = none;
    cooldown_until = none;
    cooldown_reason = none;
    is_premium = false;
    approval_count = 0;
    anonymous_number = none;
    real_nickname = none;
    real_profile_picture = none;
    social_prefs = open_prefs;
    left_at = none;
  }

  abbrev pub apply_prefs :
      ℕ → Option SocialPrefs → Option String → String → Participant → Participant
  apply_prefs next none picture nickname p = p
  apply_prefs next (some prefs) picture nickname p =
      apply_social_prefs next prefs picture (some nickname) p

  unfoldable pub first_join : ℕ → ℕ → JoinRequest → Exec (Db m) ParticipantView
  unfolding new_participant saved next_anonymous_number
  first_join now i r = do
    next ← gets (λ db. next_anonymous_number db r.event_id)
    let q =
        apply_prefs next (merge_social_prefs r.social_prefs) r.profile_picture (env.trim r.nickname)
          (new_participant now i r)
    update (λ db. record db { participants = m.create Participant (saved m env q) db.participants })
    pure (format_participant now q)

  unfoldable pub find_nickname : Db m → ℕ → String → Option Participant
  find_nickname db e nickname_lower =
      m.find_one Participant (λ p. p.event_id == e && str_eq p.nickname_lower nickname_lower)
        db.participants

  abbrev pub join_as : ℕ → ℕ → JoinRequest → Option Participant → Exec (Db m) ParticipantView
  join_as now i r none = first_join now i r
  join_as now i r (some p) = rejoin now r p

  -- `i` is the identifier that a new document gets.
  unfoldable pub join_event : ℕ → ℕ → JoinRequest → Exec (Db m) ParticipantView
  join_event now i r = do
    checked ← gets (ensure_nickname_is_not_access_code (env.trim r.nickname))
    lift checked
    existing ← gets (λ db. find_nickname db r.event_id (env.to_lower (env.trim r.nickname)))
    join_as now i r existing
