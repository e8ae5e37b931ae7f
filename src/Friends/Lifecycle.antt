-- ===== src/Friends/Lifecycle.antt =====
-- The life of a friend request under the calls of the methods.
use hernan_pedraza_pi_back.Prelude.{
  ℕ, ◌+◌, ◌≤◌, ◌≡◌, refl, ap, Bool, true, false, ◌&&◌, none, some, List, [], ◌∷◌, ◌++◌, ◌==◌, find?,
  count, Memᴰ, find?-mem, find?-modify, count-append, count_of_find?-none, inl, inr, Bool-cases,
  arith,
}
use hernan_pedraza_pi_back.Mongo.{Mongo, find_one_lem}
use hernan_pedraza_pi_back.Models.{Participant, FriendRequest, Friendship, RequestStatus, Db}
use hernan_pedraza_pi_back.Friends.Requests.{is_pending, is_pending_between, find_request}
use hernan_pedraza_pi_back.Friends.Changes.{
  Change, kept, closed, befriended, asked, parted, answered, replaced,
}
use hernan_pedraza_pi_back.Friends.Symmetry.{FriendCall, FriendCall-Change}

-- Looking a stored request up by its identifier finds that request.
abbrev pub IdsTell : List FriendRequest → Type 0
IdsTell rs = (r : FriendRequest) → Memᴰ r rs → find? (λ x. x.id == r.id) rs ≡ some r

find?-kept :
    (p : FriendRequest → Bool) (rs ys : List FriendRequest) {r : FriendRequest}
    → find? p rs ≡ some r
    → find? p (rs ++ ys) ≡ some r
find?-kept p [] ys h = cc
find?-kept p (x ∷ xs) ys h = elim (Bool-cases (p x)) [
  | inl hit ↦ rw hit (rw hit at h)
  | inr miss ↦ rw miss (find?-kept p xs ys (rw miss at h))
]

-- The request that is replaced was pending, so it is none that was closed before.
find?-replaced :
    (i now : ℕ) (st : RequestStatus) (rs : List FriendRequest) (r0 r : FriendRequest)
    → IdsTell rs
    → Memᴰ r0 rs
    → is_pending r0.status ≡ true
    → find? (λ x. x.id == i) rs ≡ some r
    → is_pending r.status ≡ false
    → find? (λ x. x.id == i) (replaced (answered now st r0) rs) ≡ some r
find?-replaced i now st rs r0 r tell there waits found over =
    let (_, hit) = find?-mem (λ x. x.id == i) rs r found in
    let moved =
      find?-modify (λ x. x.id == i) (λ x. x.id == r0.id) (λ _. answered now st r0) rs
        (λ x _ same. ground (arith, same)) found in
    elim (Bool-cases (r.id == r0.id)) [
      | inr other ↦ rw other at moved
      | inl same ↦
          let at_i : r0.id ≡ i = (ground (arith, same, hit)) in
          let both : r0 ≡ r = (cc (rw at_i at (tell r0 there), found)) in
          absurd (cc (ap (λ (z : FriendRequest). is_pending z.status) both, waits, over))
    ]

Change-closed :
    {rs rs' : List FriendRequest} {fs fs' : List Friendship} (i : ℕ) (r : FriendRequest)
    → Change rs fs rs' fs'
    → IdsTell rs
    → find? (λ x. x.id == i) rs ≡ some r
    → is_pending r.status ≡ false
    → find? (λ x. x.id == i) rs' ≡ some r
Change-closed i r (kept same _) tell found over = rw same found
Change-closed i r (parted _ _ same _) tell found over = rw same found
Change-closed {rs = rs} i r (asked r0 _ _ _ more _) tell found over =
    rw more (find?-kept (λ x. x.id == i) rs (r0 ∷ []) found)
Change-closed {rs = rs} i r (closed now st r0 there waits _ after _) tell found over =
    rw after (find?-replaced i now st rs r0 r tell there waits found over)
Change-closed {rs = rs} i r (befriended now r0 there waits after _) tell found over =
    rw after (find?-replaced i now RequestStatus.accepted rs r0 r tell there waits found over)

-- A friend request that was accepted, denied or cancelled never changes again: whatever method is
-- called, the same document is found under its identifier afterwards. Identifiers tell the stored
-- requests apart.
pub FriendCall-closed :
    {m : Mongo} {updated_later : Participant → Participant → Bool} {d e : Db m} (i : ℕ)
    (r : FriendRequest)
    → FriendCall m updated_later d e
    → IdsTell (m.docs FriendRequest d.friend_requests)
    → find_request m updated_later d i ≡ some r
    → is_pending r.status ≡ false
    → find_request m updated_later e i ≡ some r
unfolding find_request
FriendCall-closed i r call tell found over =
    rw find_one_lem
      (Change-closed i r (FriendCall-Change call) tell (rw find_one_lem at found) over)

-- At most one request is pending between two users, whoever sent it, and none to oneself.
abbrev pub OnePending : List FriendRequest → Type 0
OnePending rs =
    (a b : ℕ) → count (is_pending_between a b) rs + count (is_pending_between b a) rs ≤ 1

count-replaced :
    (p : FriendRequest → Bool) (s : FriendRequest) (rs : List FriendRequest)
    → p s ≡ false
    → count p (replaced s rs) ≤ count p rs
count-replaced p s [] gone = omega arith
count-replaced p s (x ∷ xs) gone =
    let rest = count-replaced p s xs gone in
    elim (Bool-cases (x.id == s.id)) [
      | inl same ↦ rw same (ground (arith, rest, gone, Bool-cases (p x)))
      | inr other ↦ rw other (ground (arith, rest, Bool-cases (p x)))
    ]

not_pending_between :
    (a b : ℕ) (s : FriendRequest) → is_pending s.status ≡ false → is_pending_between a b s ≡ false
not_pending_between a b s over = ground (arith, over)

replaced-OnePending :
    (s : FriendRequest) (rs : List FriendRequest)
    → is_pending s.status ≡ false
    → OnePending rs
    → OnePending (replaced s rs)
replaced-OnePending s rs over one a b = omega (
  arith,
  one a b,
  count-replaced (is_pending_between a b) s rs (not_pending_between a b s over),
  count-replaced (is_pending_between b a) s rs (not_pending_between b a s over),
)

asked-OnePending :
    (r : FriendRequest) (rs : List FriendRequest)
    → r.from_id == r.to_id ≡ false
    → find? (is_pending_between r.from_id r.to_id) rs ≡ none
    → find? (is_pending_between r.to_id r.from_id) rs ≡ none
    → OnePending rs
    → OnePending (rs ++ r ∷ [])
asked-OnePending r rs apart free back one a b =
    let there = count_of_find?-none (is_pending_between r.from_id r.to_id) rs free in
    let return = count_of_find?-none (is_pending_between r.to_id r.from_id) rs back in
    let ab = count-append (is_pending_between a b) rs (r ∷ []) in
    let ba = count-append (is_pending_between b a) rs (r ∷ []) in
    let before = one a b in
    elim (Bool-cases (r.from_id == a && r.to_id == b)) [
      | inl hit ↦
          let ea : r.from_id ≡ a = (ground (arith, hit)) in
          let eb : r.to_id ≡ b = (ground (arith, hit)) in
          rw (ab, ba) (ground (arith, rw (ea, eb) at there, rw (ea, eb) at return, apart, ea, eb))
      | inr miss ↦ elim (Bool-cases (r.from_id == b && r.to_id == a)) [
        | inl hit ↦
            let ea : r.from_id ≡ b = (ground (arith, hit)) in
            let eb : r.to_id ≡ a = (ground (arith, hit)) in
            rw (ab, ba) (ground (arith, rw (ea, eb) at there, rw (ea, eb) at return, miss, hit))
        | inr other ↦ rw (ab, ba) (ground (arith, before, miss, other))
      ]
    ]

Change-OnePending :
    {rs rs' : List FriendRequest} {fs fs' : List Friendship}
    → Change rs fs rs' fs'
    → OnePending rs
    → OnePending rs'
Change-OnePending (kept same _) one a b = rw same (one a b)
Change-OnePending (parted _ _ same _) one a b = rw same (one a b)
Change-OnePending {rs = rs} (closed now st r _ _ over after _) one a b =
    rw after (replaced-OnePending (answered now st r) rs over one a b)
Change-OnePending {rs = rs} (befriended now r _ _ after _) one a b =
    rw after (replaced-OnePending (answered now RequestStatus.accepted r) rs refl one a b)
Change-OnePending {rs = rs} (asked r apart free back more _) one a b =
    rw more (asked-OnePending r rs apart free back one a b)

-- At most one friend request is ever pending between two users, whoever sent it, and none to
-- oneself: every call of the methods keeps that.
pub FriendCall-OnePending :
    {m : Mongo} {updated_later : Participant → Participant → Bool} {d e : Db m}
    → FriendCall m updated_later d e
    → OnePending (m.docs FriendRequest d.friend_requests)
    → OnePending (m.docs FriendRequest e.friend_requests)
FriendCall-OnePending call one = Change-OnePending (FriendCall-Change call) one
