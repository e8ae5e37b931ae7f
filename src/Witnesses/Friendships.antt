-- ===== src/Witnesses/Friendships.antt =====
-- Users 7 and 8 are friends, and user 7 has a request to user 20 open.
use hernan_pedraza_pi_back.Prelude.{
  ℕ, ◌≡◌, refl, Bool, true, false, none, some, [], ◌∷◌, Memᴰ, arith,
}
use hernan_pedraza_pi_back.Mongo.{list_mongo}
use hernan_pedraza_pi_back.Models.{Participant, RequestStatus, FriendRequest, Db}
use hernan_pedraza_pi_back.Friends.Requests.{is_friend, find_request, respond_friend_request}
use hernan_pedraza_pi_back.Friends.Symmetry.{respond, FriendCall-is_friend}
use hernan_pedraza_pi_back.Friends.Lifecycle.{
  IdsTell, OnePending, FriendCall-closed, FriendCall-OnePending,
}
use hernan_pedraza_pi_back.Witnesses.Samples.{db}

abbrev later : Participant → Participant → Bool
later a b = false

abbrev open_request : FriendRequest
open_request = record {
  id = 60;
  from_id = 7;
  to_id = 20;
  status = RequestStatus.pending;
  message = none;
  created_at = 10;
  responded_at = none;
}

abbrev denied_request : FriendRequest
denied_request = record open_request {
  id = 61;
  to_id = 8;
  status = RequestStatus.denied;
  responded_at = some 20;
}

abbrev circle : Db list_mongo
circle = record db {
  friendships =
      record { user_id = 7; friend_id = 8; since = 1; from_request_id = 59 }
      ∷ record { user_id = 8; friend_id = 7; since = 1; from_request_id = 59 }
      ∷ [];
  friend_requests = open_request ∷ denied_request ∷ [];
}

-- User 20 accepts.
abbrev accepted : Db list_mongo
accepted = (respond_friend_request list_mongo later 30 60 20 true circle).1

mutual_before :
    (a b : ℕ) → is_friend list_mongo later circle a b ≡ is_friend list_mongo later circle b a
unfolding is_friend
mutual_before a b = grind arith

FriendCall-is_friend_example :
    is_friend list_mongo later accepted 20 7 ≡ is_friend list_mongo later accepted 7 20
FriendCall-is_friend_example =
    FriendCall-is_friend {m = list_mongo} {updated_later = later} {d = circle}
      (respond 30 60 20 true) mutual_before 20 7

apart : IdsTell (open_request ∷ denied_request ∷ [])
apart r (Memᴰ.head e) = rw e refl
apart r (Memᴰ.tail (Memᴰ.head e)) = rw e refl
apart r (Memᴰ.tail (Memᴰ.tail t)) = elim t [ ]

denied_found : find_request list_mongo later circle 61 ≡ some denied_request
unfolding find_request
denied_found = refl

FriendCall-closed_example : find_request list_mongo later accepted 61 ≡ some denied_request
FriendCall-closed_example =
    FriendCall-closed {m = list_mongo} {updated_later = later} {d = circle} 61 denied_request
      (respond 30 60 20 true) apart denied_found refl

one_before : OnePending (open_request ∷ denied_request ∷ [])
one_before a b = ground arith

FriendCall-OnePending_example : OnePending accepted.friend_requests
FriendCall-OnePending_example =
    FriendCall-OnePending {m = list_mongo} {updated_later = later} {d = circle}
      (respond 30 60 20 true) one_before
