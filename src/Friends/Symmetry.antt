-- ===== src/Friends/Symmetry.antt =====
-- Friendships, which are stored as two rows, under the calls of the methods.
use hernan_pedraza_pi_back.Prelude.{
  ℕ, ◌≡◌, refl, Bool, true, not, ◌&&◌, ◌||◌, Option, List, [], ◌∷◌, ◌++◌, ◌==◌, String, any, filter,
  find?, inl, inr, Bool-cases, is_some, arith,
}
use hernan_pedraza_pi_back.Mongo.{Mongo, not_test, find_one_lem}
use hernan_pedraza_pi_back.Models.{Participant, FriendRequest, Friendship, Db}
use hernan_pedraza_pi_back.Friends.Requests.{
  is_row, is_pair, is_friend, send_friend_request, cancel_friend_request, respond_friend_request,
  unfriend,
}
use hernan_pedraza_pi_back.Friends.Changes.{
  row, linked, Change, kept, closed, befriended, asked, parted, send_friend_request-Did,
  cancel_friend_request-Did, respond_friend_request-Did, unfriend-Did,
}

-- A call of one of the methods, with what it left in the database, whether it returned or threw.
pub data FriendCall (m : Mongo) (updated_later : Participant → Participant → Bool) (db : Db m)
    : Db m → Type 0 where
  send :
      (now i : ℕ) (from to : Option ℕ) (message : Option String)
      → FriendCall m updated_later db
          (send_friend_request m updated_later now i from to message db).1
  cancel :
      (now i from : ℕ)
      → FriendCall m updated_later db (cancel_friend_request m updated_later now i from db).1
  respond :
      (now i user : ℕ) (accept : Bool)
      → FriendCall m updated_later db
          (respond_friend_request m updated_later now i user accept db).1
  part : (a b : ℕ) → FriendCall m updated_later db (unfriend m updated_later a b db).1

pub FriendCall-Change :
    {m : Mongo} {updated_later : Participant → Participant → Bool} {d e : Db m}
    → FriendCall m updated_later d e
    → Change
        (m.docs FriendRequest d.friend_requests)
        (m.docs Friendship d.friendships)
        (m.docs FriendRequest e.friend_requests)
        (m.docs Friendship e.friendships)
FriendCall-Change {m} {updated_later} {d} (send now i from to message) =
    send_friend_request-Did m updated_later now i from to message d
FriendCall-Change {m} {updated_later} {d} (cancel now i from) =
    cancel_friend_request-Did m updated_later now i from d
FriendCall-Change {m} {updated_later} {d} (respond now i user accept) =
    respond_friend_request-Did m updated_later now i user accept d
FriendCall-Change {m} {updated_later} {d} (part a b) = unfriend-Did m updated_later a b d

abbrev has_row : ℕ → ℕ → List Friendship → Bool
has_row a b fs = any (is_row a b) fs

any-append_row :
    (a b now i x y : ℕ) (fs : List Friendship)
    → any (is_row a b) (fs ++ row now i x y ∷ []) ≡ any (is_row a b) fs || (x == a && y == b)
any-append_row a b now i x y [] = ground arith
any-append_row a b now i x y (f ∷ fs) =
    let rest = any-append_row a b now i x y fs in ground (arith, rest)

any-linked :
    (a b now i x y : ℕ) (fs : List Friendship)
    → any (is_row a b) (linked now i x y fs) ≡ any (is_row a b) fs || (x == a && y == b)
any-linked a b now i x y fs = elim (Bool-cases (any (is_row x y) fs)) [
  | inr absent ↦ rw absent (any-append_row a b now i x y fs)
  | inl present ↦ elim (Bool-cases (x == a && y == b)) [
    | inr other ↦ rw (present, other) (ground arith)
    | inl same ↦
        let ex : x ≡ a = (ground (arith, same)) in
        let ey : y ≡ b = (ground (arith, same)) in
        let here : any (is_row a b) fs ≡ true = (rw (ex, ey) at present) in rw (present, here)
  ]
]

any-parted :
    (a b x y : ℕ) (fs : List Friendship)
    → any (is_row a b) (filter (not_test (is_pair x y)) fs)
      ≡ any (is_row a b) fs && not ((a == x && b == y) || (a == y && b == x))
any-parted a b x y [] = refl
any-parted a b x y (f ∷ fs) =
    let rest = any-parted a b x y fs in
    elim (Bool-cases (is_pair x y f)) [
      | inl gone ↦ rw gone (ground (arith, rest, gone))
      | inr stays ↦ rw stays (ground (arith, rest, stays))
    ]

abbrev pub Symmetric : List Friendship → Type 0
Symmetric fs = (a b : ℕ) → any (is_row a b) fs ≡ any (is_row b a) fs

Change-Symmetric :
    {rs rs' : List FriendRequest} {fs fs' : List Friendship}
    → Change rs fs rs' fs'
    → Symmetric fs
    → Symmetric fs'
Change-Symmetric (kept _ same) h a b = rw same (h a b)
Change-Symmetric (closed _ _ _ _ _ _ _ same) h a b = rw same (h a b)
Change-Symmetric (asked _ _ _ _ _ same) h a b = rw same (h a b)
Change-Symmetric {fs = fs} (befriended now r _ _ _ rows) h a b =
    let once = linked now r.id r.from_id r.to_id fs in
    rw
      (
        rows,
        any-linked a b now r.id r.to_id r.from_id once,
        any-linked b a now r.id r.to_id r.from_id once,
        any-linked a b now r.id r.from_id r.to_id fs,
        any-linked b a now r.id r.from_id r.to_id fs,
        h a b,
      )
      (ground arith)
Change-Symmetric {fs = fs} (parted x y _ rows) h a b =
    rw (rows, any-parted a b x y fs, any-parted b a x y fs, h a b) (ground arith)

any-is_some : (p : Friendship → Bool) (fs : List Friendship) → is_some (find? p fs) ≡ any p fs
any-is_some p [] = refl
any-is_some p (f ∷ fs) = elim (Bool-cases (p f)) [
  | inl hit ↦ rw hit
  | inr miss ↦ rw miss (any-is_some p fs)
]

-- Friendship stays mutual: if everybody was a friend of their friends before a call of
-- sendFriendRequest, cancelFriendRequest, respondFriendRequest or unfriend, the same holds after
-- it, whether the call returned or threw.
pub FriendCall-is_friend :
    {m : Mongo} {updated_later : Participant → Participant → Bool} {d e : Db m}
    → FriendCall m updated_later d e
    → ((a b : ℕ) → is_friend m updated_later d a b ≡ is_friend m updated_later d b a)
    → (a b : ℕ) → is_friend m updated_later e a b ≡ is_friend m updated_later e b a
unfolding is_friend
FriendCall-is_friend {m} {updated_later} {d} {e} call both a b =
    rw (find_one_lem, find_one_lem, any-is_some, any-is_some)
      (Change-Symmetric (FriendCall-Change call)
        (λ x y. rw (find_one_lem, find_one_lem, any-is_some, any-is_some) at (both x y)) a b)
