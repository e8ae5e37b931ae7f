-- ===== src/AttendeeSession.antt =====
-- src/services/attendee-session.service.js: joining an event without an account. A user is made for
-- the attendee, unless a protected nickname brings its own back.
pub mod Claims
use hernan_pedraza_pi_back.Prelude.{
  ℕ, String, Bool, true, false, not, Option, none, some, is_some, ◌==◌, if◌then◌else◌,
}
use Prim.Native.String
use hernan_pedraza_pi_back.Errors.{Result, ok, err, validation, forbidden, refuse}
use hernan_pedraza_pi_back.Exec.{Exec, pure, lift, gets, update, ◌>>=◌, ◌>>◌}
use hernan_pedraza_pi_back.Mongo.{Mongo}
use hernan_pedraza_pi_back.Platform.{Platform}
use hernan_pedraza_pi_back.Models.{Role, User, Participant, Db}
use hernan_pedraza_pi_back.Participants.Access.{ParticipantView}
use hernan_pedraza_pi_back.Participants.Joining.{
  JoinRequest, ensure_nickname_is_not_access_code, find_nickname, check_password, join_event,
}

-- The token stands for the user that it is built for.
pub record Admission : Type 0 where
  pub user : User
  pub participant : ParticipantView

-- The user that `_resolveUser` creates, with the random part of its address and the hash of a random
-- password.
unfoldable pub attendee_user : ℕ → String → String → String → User
attendee_user i uuid hash display_name = record {
  id = i;
  email = some (String.◌++◌ "attendee_" (String.◌++◌ uuid "@Syncrequest.local"));
  display_name = display_name;
  profile_picture = none;
  is_active = true;
  role = Role.attendee;
  email_registered = false;
  has_seen_tutorial = false;
  password_hash = hash;
  last_login_at = none;
  email_registered_at = none;
  email_verification_attempts = 0;
  email_verification_last_sent_at = none;
  email_verification_token_id = none;
  auth_token_version = 0;
}

module _ (m : Mongo) (env : Platform) where
  unfoldable pub check_claim : Option String → Participant → Option String → Result (Unit {0})
  unfolding check_password
  check_claim password p (some hash) = check_password m env password hash
  check_claim password p none =
      refuse (not (is_some p.left_at)) (validation "Nickname already taken in this event")

  unfoldable pub assert_can_claim_participant :
      Option String → Option Participant → Result (Unit {0})
  unfolding check_claim
  assert_can_claim_participant password none = ok tt
  assert_can_claim_participant password (some p) =
      if p.is_banned
      then err (forbidden "Participant has been banned from this event")
      else check_claim password p p.password_hash

  abbrev pub user_with : Db m → Option ℕ → Option User
  user_with db none = none
  user_with db (some u) = m.find_one User (λ x. x.id == u) db.users

  abbrev pub owner_of_nickname : Db m → Option Participant → Option User
  owner_of_nickname db none = none
  owner_of_nickname db (some p) = if is_some p.password_hash then user_with db p.user_id else none

  abbrev pub create_user : User → Option User → Exec (Db m) User
  create_user fresh none = do
    update (λ db. record db { users = m.create User fresh db.users })
    pure fresh
  create_user fresh (some u) = pure u

  unfoldable pub resolve_user : User → Option Participant → Exec (Db m) User
  resolve_user fresh existing = do
    found ← gets (λ db. owner_of_nickname db existing)
    create_user fresh found

  -- `i` and `j` are the identifiers of a new participant and of a new user, `bytes` are the random
  -- bytes of its password.
  unfoldable pub join_event_in_session :
      ℕ → ℕ → ℕ → String → String → JoinRequest → Exec (Db m) Admission
  unfolding attendee_user
  join_event_in_session now i j uuid bytes r = do
    let display_name = env.trim r.nickname
    checked ← gets (ensure_nickname_is_not_access_code m env display_name)
    _ ← lift checked
    existing ← gets (λ db. find_nickname m env db r.event_id (env.to_lower display_name))
    lift (assert_can_claim_participant r.password existing)
    user ← resolve_user (attendee_user j uuid (env.bcrypt_hash bytes) display_name) existing
    participant ←
        join_event m env now i (record r { nickname = display_name; user_id = some user.id })
    pure (record { user = user; participant = participant })

  -- withTransaction: what a method wrote before it threw is taken back.
  abbrev pub rolled_back : {A : Type 0} → Result A → Db m → Db m → Result A × Db m
  rolled_back (ok a) before after = (ok a, after)
  rolled_back (err e) before after = (err e, before)

  abbrev pub in_transaction : {A : Type 0} → Exec (Db m) A → Exec (Db m) A
  in_transaction k db = rolled_back (k db).0 db (k db).1

  -- A server without transactions runs the steps one by one.
  unfoldable pub join_as_attendee :
      Bool → ℕ → ℕ → ℕ → String → String → JoinRequest → Exec (Db m) Admission
  join_as_attendee transactions now i j uuid bytes r =
      if transactions
      then in_transaction (join_event_in_session now i j uuid bytes r)
      else join_event_in_session now i j uuid bytes r

  unfoldable pub mark_tutorial_as_seen : ℕ → Db m → Db m
  mark_tutorial_as_seen u db = record db {
    users =
        m.update_one User (λ x. x.id == u) (λ x. record x { has_seen_tutorial = true }) db.users;
  }
