-- ===== src/Friends/Requests.antt =====
-- The methods of src/services/friends.service.js on friend requests and friendships. A method that
-- returns a request returns it formatted for the user who looks at it.
use hernan_pedraza_pi_back.Prelude.{
  ℕ, String, Bool, true, false, not, ◌&&◌, ◌||◌, Option, none, some, List, [], ◌∷◌, map, ◌==◌,
  str_eq, ltb, find?, any, is_some, if◌then◌else◌,
}
use hernan_pedraza_pi_back.Errors.{
  Result, ok, err, validation, not_found, forbidden, guard, refuse, or_missing,
}
use hernan_pedraza_pi_back.Exec.{Exec, pure, raise, lift, gets, update, ◌>>=◌, ◌>>◌}
use hernan_pedraza_pi_back.Mongo.{Mongo}
use hernan_pedraza_pi_back.Models.{
  User, Role, Participant, RequestStatus, FriendRequest, Friendship, Db,
}
use hernan_pedraza_pi_back.Participants.Joining.{truthy}

-- s.endsWith(t)
ends_with : String → String → Bool
ends_with String.[] t = str_eq "" t
ends_with (String.◌∷◌ c s) t = str_eq (String.◌∷◌ c s) t || ends_with s t

abbrev pub email_ends_with : Option String → String → Bool
unfolding ends_with
email_ends_with none t = false
email_ends_with (some e) t = ends_with e t

unfoldable pub is_anonymous_user : User → Bool
unfolding ends_with
is_anonymous_user u = email_ends_with u.email "@Syncrequest.local"

-- The part of a user that a friend sees.
pub record OtherUser : Type 0 where
  pub id : ℕ
  pub display_name : String
  pub profile_picture : Option String
  pub role : Role
  pub email_registered : Bool

pub record RequestView : Type 0 where
  pub id : ℕ
  pub incoming : Bool
  pub status : RequestStatus
  pub message : Option String
  pub created_at : ℕ
  pub responded_at : Option ℕ
  pub from_id : ℕ
  pub to_id : ℕ
  pub other : Option OtherUser

pub record FriendView : Type 0 where
  pub friend_id : ℕ
  pub since : ℕ
  pub display_name : String
  pub profile_picture : Option String
  pub role : Role
  pub email_registered : Bool

abbrev pub name_or_unknown : String → String
name_or_unknown s = if str_eq s "" then "Unknown user" else s

unfoldable pub format_other : Option User → Option OtherUser
format_other none = none
format_other (some u) = some (record {
  id = u.id;
  display_name = name_or_unknown u.display_name;
  profile_picture = truthy u.profile_picture;
  role = u.role;
  email_registered = u.email_registered;
})

-- `direction` is "incoming" or "outgoing"; `users` are the documents that were fetched.
unfoldable pub format_request : FriendRequest → ℕ → List User → RequestView
unfolding format_other
format_request r viewer users =
    let incoming = r.to_id == viewer in
    let other_id = if incoming then r.from_id else r.to_id in
    record {
      id = r.id;
      incoming = incoming;
      status = r.status;
      message = truthy r.message;
      created_at = r.created_at;
      responded_at = r.responded_at;
      from_id = r.from_id;
      to_id = r.to_id;
      other = format_other (find? (λ u. u.id == other_id) users);
    }

unfoldable pub format_friendship : Friendship → Option User → Option FriendView
format_friendship row none = none
format_friendship row (some u) = some (record {
  friend_id = row.friend_id;
  since = row.since;
  display_name = name_or_unknown u.display_name;
  profile_picture = truthy u.profile_picture;
  role = u.role;
  email_registered = u.email_registered;
})

abbrev pub is_pending : RequestStatus → Bool
is_pending RequestStatus.pending = true
is_pending _ = false

abbrev pub is_row : ℕ → ℕ → Friendship → Bool
is_row a b f = f.user_id == a && f.friend_id == b

abbrev pub is_pair : ℕ → ℕ → Friendship → Bool
is_pair a b f = is_row a b f || is_row b a f

abbrev pub is_pending_between : ℕ → ℕ → FriendRequest → Bool
is_pending_between a b r = (r.from_id == a && r.to_id == b) && is_pending r.status

-- The other person of a request, for the user who looks at it.
abbrev pub other_of : ℕ → FriendRequest → ℕ
other_of viewer r = if r.from_id == viewer then r.to_id else r.from_id

-- `{ $in: ids }`
abbrev pub one_of : List ℕ → ℕ → Bool
one_of ids i = any (λ j. j == i) ids

abbrev pub present {ℓ} : {A : Type ℓ} → List (Option A) → List A
present [] = []
present (none ∷ xs) = present xs
present (some x ∷ xs) = x ∷ present xs

-- Model.find(...).sort({ createdAt: -1 }) and sort({ since: -1 })
abbrev pub newer_request : FriendRequest → FriendRequest → Bool
newer_request a b = ltb b.created_at a.created_at

abbrev pub newer_friend : Friendship → Friendship → Bool
newer_friend a b = ltb b.since a.since

abbrev pub allows_requests : Option Participant → Bool
allows_requests none = true
allows_requests (some p) = p.social_prefs.allow_friend_requests

abbrev pub active_user : Option User → Option User
active_user none = none
active_user (some u) = if u.is_active then some u else none

abbrev pub new_request : ℕ → ℕ → ℕ → ℕ → Option String → FriendRequest
new_request now i from to message = record {
  id = i;
  from_id = from;
  to_id = to;
  status = RequestStatus.pending;
  message = message;
  created_at = now;
  responded_at = none;
}

-- `updated_later` orders attendees by the database's `updatedAt`, the latest first.
module _ (m : Mongo) (updated_later : Participant → Participant → Bool) where
  unfoldable pub can_receive_friend_requests : Db m → ℕ → Bool
  can_receive_friend_requests db u = allows_requests (
      m.find_first Participant updated_later
        (λ p. elim p.user_id [ none ↦ false | some v ↦ v == u ]) db.participants)

  unfoldable pub find_user : Db m → ℕ → Option User
  find_user db u = m.find_one User (λ x. x.id == u) db.users

  unfoldable pub is_friend : Db m → ℕ → ℕ → Bool
  is_friend db a b = is_some (m.find_one Friendship (is_row a b) db.friendships)

  unfoldable pub find_pending : Db m → ℕ → ℕ → Option FriendRequest
  find_pending db a b = m.find_one FriendRequest (is_pending_between a b) db.friend_requests

  unfoldable pub find_request : Db m → ℕ → Option FriendRequest
  find_request db i = m.find_one FriendRequest (λ r. r.id == i) db.friend_requests

  unfoldable pub enrich_requests : Db m → List FriendRequest → ℕ → List RequestView
  enrich_requests db rows viewer =
      let users = m.find User (λ u. one_of (map (other_of viewer) rows) u.id) db.users in
      map (λ r. format_request r viewer users) rows

  unfoldable pub save_request : FriendRequest → Db m → Db m
  save_request r db = record db {
    friend_requests = m.save FriendRequest (λ x. x.id == r.id) r db.friend_requests;
  }

  unfoldable pub add_friend : ℕ → ℕ → ℕ → ℕ → Db m → Db m
  add_friend now i a b db = record db {
    friendships =
        m.upsert Friendship (is_row a b)
          (record { user_id = a; friend_id = b; from_request_id = i; since = now }) db.friendships;
  }

  -- `_acceptRequest`
  unfoldable pub accept_request : ℕ → FriendRequest → ℕ → Exec (Db m) RequestView
  accept_request now r viewer = do
    let s = record r { status = RequestStatus.accepted; responded_at = some now }
    update (save_request s)
    update (add_friend now r.id r.from_id r.to_id)
    update (add_friend now r.id r.to_id r.from_id)
    pure (format_request s viewer [])

  unfoldable pub create_request : ℕ → ℕ → ℕ → ℕ → Option String → Exec (Db m) RequestView
  create_request now i from to message = do
    existing ← gets (λ db. find_pending db from to)
    lift (refuse (is_some existing) (validation "A pending friend request already exists"))
    let r = new_request now i from to message
    update (λ db. record db { friend_requests = m.create FriendRequest r db.friend_requests })
    users ← gets (λ db. m.find User (λ u. one_of (other_of from r ∷ []) u.id) db.users)
    pure (format_request r from users)

  -- A pending request of the other direction is accepted in place of a new one.
  unfoldable pub answer_or_create :
      ℕ → ℕ → ℕ → ℕ → Option String → Option FriendRequest → Exec (Db m) RequestView
  answer_or_create now i from to message none = create_request now i from to message
  answer_or_create now i from to message (some r) = accept_request now r from

  -- The checks of `sendFriendRequest` between two given users.
  unfoldable pub check_friendable : ℕ → ℕ → Db m → Result (Unit {0})
  check_friendable from to db = elim (or_missing (active_user (find_user db to)) "User not found") [
    | Result.err e ↦ Result.err e
    | Result.ok u ↦
        if is_anonymous_user u
        then err (validation "This attendee has no account and cannot receive friend requests")
        else if not (can_receive_friend_requests db to)
        then err (forbidden "This user is not accepting friend requests right now")
        else if is_friend db from to
        then err (validation "You are already friends with this user")
        else ok tt
  ]

  -- `i` is the identifier that a new request gets.
  unfoldable pub send_friend_request :
      ℕ → ℕ → Option ℕ → Option ℕ → Option String → Exec (Db m) RequestView
  send_friend_request now i none to message =
      raise (validation "Friend request requires both users")
  send_friend_request now i (some from) none message =
      raise (validation "Friend request requires both users")
  send_friend_request now i (some from) (some to) message = do
    lift (refuse (from == to) (validation "You cannot send a friend request to yourself"))
    friendable ← gets (check_friendable from to)
    lift friendable
    reverse ← gets (λ db. find_pending db to from)
    answer_or_create now i from to message reverse

  unfoldable pub cancel_friend_request : ℕ → ℕ → ℕ → Exec (Db m) RequestView
  cancel_friend_request now i from = do
    found ← gets (λ db. or_missing (find_request db i) "Friend request not found")
    r ← lift found
    lift (guard (r.from_id == from) (forbidden "Only the requester can cancel"))
    lift (guard (is_pending r.status) (validation "This request can no longer be cancelled"))
    let s = record r { status = RequestStatus.cancelled; responded_at = some now }
    update (save_request s)
    pure (format_request s from [])

  unfoldable pub deny_request : ℕ → FriendRequest → ℕ → Exec (Db m) RequestView
  deny_request now r viewer = do
    let s = record r { status = RequestStatus.denied; responded_at = some now }
    update (save_request s)
    pure (format_request s viewer [])

  unfoldable pub respond_friend_request : ℕ → ℕ → ℕ → Bool → Exec (Db m) RequestView
  respond_friend_request now i user accept = do
    found ← gets (λ db. or_missing (find_request db i) "Friend request not found")
    r ← lift found
    lift (guard (r.to_id == user) (forbidden "Only the recipient can respond"))
    lift (guard (is_pending r.status) (validation "This request has already been responded to"))
    if accept then accept_request now r user else deny_request now r user

  unfoldable pub unfriend : ℕ → ℕ → Exec (Db m) (Unit {0})
  unfriend a b = do
    deleted ← gets (λ db. m.count_documents Friendship (is_pair a b) db.friendships)
    update (λ db. record db { friendships = m.delete_many Friendship (is_pair a b) db.friendships })
    lift (refuse (deleted == 0) (not_found "Friendship not found"))

  unfoldable pub list_friends : Db m → ℕ → List FriendView
  list_friends db u =
      let rows = m.find_sorted Friendship newer_friend (λ f. f.user_id == u) db.friendships in
      let users = m.find User (λ x. one_of (map (λ f. f.friend_id) rows) x.id) db.users in
      present (map (λ f. format_friendship f (find? (λ x. x.id == f.friend_id) users)) rows)

  unfoldable pub list_incoming_requests : Db m → ℕ → List RequestView
  list_incoming_requests db u =
      enrich_requests db
        (m.find_sorted FriendRequest newer_request (λ r. r.to_id == u && is_pending r.status)
          db.friend_requests)
        u

  unfoldable pub list_outgoing_requests : Db m → ℕ → List RequestView
  list_outgoing_requests db u =
      enrich_requests db
        (m.find_sorted FriendRequest newer_request (λ r. r.from_id == u && is_pending r.status)
          db.friend_requests)
        u
