-- ===== src/Friends/Changes.antt =====
-- What a call of the friend requests' methods did to the stored requests and friendships.
use hernan_pedraza_pi_back.Prelude.{
  ℕ, ◌≡◌, refl, Bool, true, false, Option, none, some, List, [], ◌∷◌, ◌++◌, ◌==◌, String, any,
  filter, find?, modify, Memᴰ, find?-mem, inl, inr, Bool-cases, Option-cases, arith, if◌then◌else◌,
}
use hernan_pedraza_pi_back.Errors.{Result, Result-cases}
use hernan_pedraza_pi_back.Mongo.{
  Mongo, not_test, find_one_lem, docs-save, docs-create, docs-upsert, docs-delete_many,
}
use hernan_pedraza_pi_back.Models.{Participant, RequestStatus, FriendRequest, Friendship, Db}
use hernan_pedraza_pi_back.Friends.Requests.{
  is_pending, new_request, is_row, is_pair, is_pending_between, find_pending, find_request,
  save_request, add_friend, accept_request, create_request, answer_or_create, check_friendable,
  send_friend_request, cancel_friend_request, deny_request, respond_friend_request, unfriend,
}

abbrev pub row : ℕ → ℕ → ℕ → ℕ → Friendship
row now i a b = record { user_id = a; friend_id = b; from_request_id = i; since = now }

-- A row that is added unless the two users have one.
abbrev pub linked : ℕ → ℕ → ℕ → ℕ → List Friendship → List Friendship
linked now i a b fs = if any (is_row a b) fs then fs else fs ++ row now i a b ∷ []

abbrev pub answered : ℕ → RequestStatus → FriendRequest → FriendRequest
answered now st r = record r { status = st; responded_at = some now }

abbrev pub replaced : FriendRequest → List FriendRequest → List FriendRequest
replaced s rs = modify (λ x. x.id == s.id) (λ _. s) rs

pub data Change (rs : List FriendRequest) (fs : List Friendship) (rs' : List FriendRequest)
    (fs' : List Friendship) : Type 0 where
  kept : rs' ≡ rs → fs' ≡ fs → Change rs fs rs' fs'
  -- a pending request is denied or cancelled
  closed :
      (now : ℕ) (st : RequestStatus) (r : FriendRequest)
      → Memᴰ r rs
      → is_pending r.status ≡ true
      → is_pending st ≡ false
      → rs' ≡ replaced (answered now st r) rs
      → fs' ≡ fs
      → Change rs fs rs' fs'
  -- a pending request is accepted
  befriended :
      (now : ℕ) (r : FriendRequest)
      → Memᴰ r rs
      → is_pending r.status ≡ true
      → rs' ≡ replaced (answered now RequestStatus.accepted r) rs
      → fs' ≡ linked now r.id r.to_id r.from_id (linked now r.id r.from_id r.to_id fs)
      → Change rs fs rs' fs'
  -- a request is added where none was pending between the two users
  asked :
      (r : FriendRequest)
      → r.from_id == r.to_id ≡ false
      → find? (is_pending_between r.from_id r.to_id) rs ≡ none
      → find? (is_pending_between r.to_id r.from_id) rs ≡ none
      → rs' ≡ rs ++ r ∷ []
      → fs' ≡ fs
      → Change rs fs rs' fs'
  parted : (a b : ℕ) → rs' ≡ rs → fs' ≡ filter (not_test (is_pair a b)) fs → Change rs fs rs' fs'

module _ (m : Mongo) (updated_later : Participant → Participant → Bool) where
  abbrev pub Did : {A : Type 0} → Db m → Result A × Db m → Type 0
  Did db out =
      Change (m.docs FriendRequest db.friend_requests) (m.docs Friendship db.friendships)
        (m.docs FriendRequest out.1.friend_requests) (m.docs Friendship out.1.friendships)

  accept_request-Did :
      (now : ℕ) (r : FriendRequest) (viewer : ℕ) (db : Db m)
      → Memᴰ r (m.docs FriendRequest db.friend_requests)
      → is_pending r.status ≡ true
      → Did db (accept_request m updated_later now r viewer db)
  unfolding accept_request save_request add_friend
  accept_request-Did now r viewer db there waits =
      befriended now r there waits (rw docs-save) (rw (docs-upsert, docs-upsert))

  find_request-mem :
      (db : Db m) (i : ℕ) {r : FriendRequest}
      → find_request m updated_later db i ≡ some r
      → Memᴰ r (m.docs FriendRequest db.friend_requests)
  unfolding find_request
  find_request-mem db i {r} h = (find?-mem (λ x. x.id == i) _ r (rw find_one_lem at h)).0

  pub cancel_friend_request-Did :
      (now i from : ℕ) (db : Db m) → Did db (cancel_friend_request m updated_later now i from db)
  unfolding cancel_friend_request save_request
  cancel_friend_request-Did now i from db =
      elim (Option-cases (find_request m updated_later db i)) [
        | inl missing ↦ rw missing (kept refl refl)
        | inr (r, found) ↦ elim (Bool-cases (r.from_id == from)) [
          | inr other ↦ rw (found, other) (kept refl refl)
          | inl own ↦ elim (Bool-cases (is_pending r.status)) [
            | inr done ↦ rw (found, own, done) (kept refl refl)
            | inl waits ↦
                rw (found, own, waits)
                  (closed now RequestStatus.cancelled r (find_request-mem db i found) waits refl
                    (rw docs-save) refl)
          ]
        ]
      ]

  pub respond_friend_request-Did :
      (now i user : ℕ) (accept : Bool) (db : Db m)
      → Did db (respond_friend_request m updated_later now i user accept db)
  unfolding respond_friend_request deny_request save_request
  respond_friend_request-Did now i user accept db =
      elim (Option-cases (find_request m updated_later db i)) [
        | inl missing ↦ rw missing (kept refl refl)
        | inr (r, found) ↦ elim (Bool-cases (r.to_id == user)) [
          | inr other ↦ rw (found, other) (kept refl refl)
          | inl own ↦ elim (Bool-cases (is_pending r.status)) [
            | inr done ↦ rw (found, own, done) (kept refl refl)
            | inl waits ↦ elim (Bool-cases accept) [
              | inl agreed ↦
                  rw (found, own, waits, agreed)
                    (accept_request-Did now r user db (find_request-mem db i found) waits)
              | inr declined ↦
                  rw (found, own, waits, declined)
                    (closed now RequestStatus.denied r (find_request-mem db i found) waits refl
                      (rw docs-save) refl)
            ]
          ]
        ]
      ]

  pub unfriend-Did : (a b : ℕ) (db : Db m) → Did db (unfriend m updated_later a b db)
  unfolding unfriend
  unfriend-Did a b db = parted a b refl (rw docs-delete_many)

  create_request-Did :
      (now i from to : ℕ) (message : Option String) (db : Db m)
      → from == to ≡ false
      → find_pending m updated_later db to from ≡ none
      → Did db (create_request m updated_later now i from to message db)
  unfolding create_request find_pending
  create_request-Did now i from to message db apart free =
      elim (Option-cases (find_pending m updated_later db from to)) [
        | inr (r, found) ↦ rw found (kept refl refl)
        | inl missing ↦ rw missing (
            asked (new_request now i from to message) apart (rw find_one_lem at missing)
              (rw find_one_lem at free) (rw docs-create) refl)
      ]

  find_pending-mem :
      (db : Db m) (a b : ℕ) {r : FriendRequest}
      → find_pending m updated_later db a b ≡ some r
      → Memᴰ r (m.docs FriendRequest db.friend_requests) × (is_pending r.status ≡ true)
  unfolding find_pending
  find_pending-mem db a b {r} h =
      let (there, hit) = find?-mem (is_pending_between a b) _ r (rw find_one_lem at h) in
      (there, ground (arith, hit))

  pub send_friend_request-Did :
      (now i : ℕ) (from to : Option ℕ) (message : Option String) (db : Db m)
      → Did db (send_friend_request m updated_later now i from to message db)
  unfolding send_friend_request answer_or_create
  send_friend_request-Did now i none to message db = kept refl refl
  send_friend_request-Did now i (some from) none message db = kept refl refl
  send_friend_request-Did now i (some from) (some to) message db = elim (Bool-cases (from == to)) [
    | inl self ↦ rw self (kept refl refl)
    | inr apart ↦ elim (Result-cases (check_friendable m updated_later from to db)) [
      | inr (e, refused) ↦ rw (apart, refused) (kept refl refl)
      | inl (_, friendable) ↦ elim (Option-cases (find_pending m updated_later db to from)) [
        | inl free ↦
            rw (apart, friendable, free) (create_request-Did now i from to message db apart free)
        | inr (r, reverse) ↦
            let (there, waits) = find_pending-mem db to from reverse in
            rw (apart, friendable, reverse) (accept_request-Did now r from db there waits)
      ]
    ]
  ]
