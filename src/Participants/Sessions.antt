-- ===== src/Participants/Sessions.antt =====
-- What joining gives: the user who joined may act as the participant from then on.
use hernan_pedraza_pi_back.Prelude.{
  ℕ, ◌≡◌, refl, String, Bool, false, Option, none, some, ◌==◌, ==_iff, ==_refl, arith, Bool-cases,
  Option-cases, inl, inr, is_some, find?-mem, find?-append, ap,
}
use hernan_pedraza_pi_back.Errors.{ApiError, Result, ok, err, Returns, Result-cases}
use hernan_pedraza_pi_back.Mongo.{Mongo, find_one_lem, docs-create}
use hernan_pedraza_pi_back.Platform.{Platform}
use hernan_pedraza_pi_back.Models.{Participant, SocialPrefs, Actor, Db}
use hernan_pedraza_pi_back.Permissions.{actor_id}
use hernan_pedraza_pi_back.Participants.Access.{
  ParticipantView, format_participant, find_participant, save_participant, saved,
  assert_participant_session,
}
use hernan_pedraza_pi_back.Participants.Admission.{assert_participant_session_iff}
use hernan_pedraza_pi_back.Participants.Moderation.Sanctions.{find_participant-save}
use hernan_pedraza_pi_back.Participants.Joining.{
  JoinRequest, join_event, join_as, rejoin, come_back, first_join, new_participant, resumed,
  forgiven, check_password, find_nickname, start_prefs, apply_prefs, start_social_prefs,
  apply_social_prefs, merge_social_prefs, ensure_nickname_is_not_access_code, next_anonymous_number,
}

-- The part of a participant that decides on its sessions.
pub record Seat : Type 0 where
  pub id : ℕ
  pub event_id : ℕ
  pub user_id : Option ℕ
  pub is_banned : Bool
  pub left_at : Option ℕ

abbrev seat : Participant → Seat
seat p = record {
  id = p.id;
  event_id = p.event_id;
  user_id = p.user_id;
  is_banned = p.is_banned;
  left_at = p.left_at;
}

module _ (m : Mongo) (env : Platform) where
  seat-start_prefs :
      (prefs : Option SocialPrefs) (picture : Option String) (nickname : String) (p : Participant)
      → seat (start_prefs m env prefs picture nickname p) ≡ seat p
  unfolding start_social_prefs
  seat-start_prefs none picture nickname p = refl
  seat-start_prefs (some prefs) picture nickname p = ground arith

  seat-apply_prefs :
      (next : ℕ) (prefs : Option SocialPrefs) (picture : Option String) (nickname : String)
      (p : Participant)
      → seat (apply_prefs m env next prefs picture nickname p) ≡ seat p
  unfolding apply_social_prefs
  seat-apply_prefs next none picture nickname p = refl
  seat-apply_prefs next (some prefs) picture nickname p = ground arith

  -- A stored document with a free seat of the user passes the check of sessions.
  seated :
      (db : Db m) (later e u : ℕ) (actor : Actor) (q : Participant)
      → find_participant m env db q.id ≡ some q
      → seat q
        ≡ record { id = q.id; event_id = e; user_id = some u; is_banned = false; left_at = none }
      → actor_id actor ≡ some u
      → Returns (assert_participant_session m env later q.id (some e) actor false db).0
  seated db later e u actor q found free who =
      (assert_participant_session_iff m env later q.id (some e) actor false db).1 (
        q,
        found,
        ap (λ s. s.event_id) free,
        (ap (λ s. s.is_banned) free, ap (λ s. s.left_at) free),
        (u, who, ap (λ s. s.user_id) free),
        λ on. cc,
      )

  abbrev Joined : Db m → ℕ → JoinRequest → Actor → Result ParticipantView × Db m → Type 0
  Joined db later r actor outcome =
      (v : ParticipantView) × (outcome.0 ≡ ok v)
      × Returns
          (assert_participant_session m env later v.id (some r.event_id) actor false outcome.1).0

  abbrev with_created : Participant → Db m → Db m
  with_created q db = record db {
    participants = m.create Participant (saved m env q) db.participants;
  }

  find_participant-create :
      (db : Db m) (q : Participant)
      → find_participant m env db q.id ≡ none
      → find_participant m env (with_created q db) q.id ≡ some (saved m env q)
  unfolding find_participant saved
  find_participant-create db q fresh =
      rw (find_one_lem, docs-create)
        (find?-append (λ x. x.id == q.id) (m.docs Participant db.participants) (saved m env q)
          (rw find_one_lem at fresh) (==_refl q.id))

  abbrev FreeSeat : ℕ → ℕ → Participant → Type 0
  FreeSeat e u q =
      seat q
      ≡ record { id = q.id; event_id = e; user_id = some u; is_banned = false; left_at = none }

  created_seated :
      (db : Db m) (later e u : ℕ) (actor : Actor) (q : Participant)
      → find_participant m env db q.id ≡ none
      → FreeSeat e u q
      → actor_id actor ≡ some u
      → Returns
          (assert_participant_session m env later q.id (some e) actor false (with_created q db)).0
  unfolding saved
  created_seated db later e u actor q fresh free who =
      seated (with_created q db) later e u actor (saved m env q)
        (find_participant-create db q fresh) free who

  saved_seated :
      (db : Db m) (later e u : ℕ) (actor : Actor) (p q : Participant)
      → find_participant m env db q.id ≡ some p
      → FreeSeat e u q
      → actor_id actor ≡ some u
      → Returns
          (assert_participant_session m env later q.id
            (some e)
            actor
            false
            (save_participant m env q db).1).0
  unfolding saved
  saved_seated db later e u actor p q found free who =
      seated (save_participant m env q db).1 later e u actor (saved m env q)
        (find_participant-save m env db q.id p q found refl) free who

  first_join-Joined :
      (db : Db m) (now later i u : ℕ) (r : JoinRequest) (actor : Actor)
      → r.user_id ≡ some u
      → actor_id actor ≡ some u
      → find_participant m env db i ≡ none
      → Joined db later r actor (first_join m env now i r db)
  unfolding first_join format_participant new_participant
  first_join-Joined db now later i u r actor mine who fresh =
      let p : Participant = new_participant m env now i r in
      let next : ℕ = next_anonymous_number m env db r.event_id in
      let q : Participant =
        apply_prefs m env next (merge_social_prefs r.social_prefs) r.profile_picture
          (env.trim r.nickname) p in
      let same : seat q ≡ seat p =
        seat-apply_prefs next (merge_social_prefs r.social_prefs) r.profile_picture
          (env.trim r.nickname) p in
      let here : q.id ≡ i = ap (λ s. s.id) same in
      (
        format_participant now q,
        refl,
        created_seated db later r.event_id u actor q (rw here fresh)
            (ground (
              arith,
              ap (λ s. s.event_id) same,
              ap (λ s. s.user_id) same,
              ap (λ s. s.is_banned) same,
              ap (λ s. s.left_at) same,
            ))
            who,
      )

  come_back-Joined :
      (db : Db m) (now later u : ℕ) (r : JoinRequest) (actor : Actor) (p old : Participant)
      → actor_id actor ≡ some u
      → find_participant m env db p.id ≡ some old
      → FreeSeat r.event_id u p
      → Joined db later r actor (come_back m env now r p db)
  unfolding come_back format_participant
  come_back-Joined db now later u r actor p old who found free =
      let q : Participant =
        start_prefs m env (merge_social_prefs r.social_prefs) r.profile_picture
          (env.trim r.nickname) p in
      let same : seat q ≡ seat p =
        seat-start_prefs (merge_social_prefs r.social_prefs) r.profile_picture (env.trim r.nickname)
          p in
      let here : q.id ≡ p.id = ap (λ s. s.id) same in
      (
        format_participant now q,
        refl,
        saved_seated db later r.event_id u actor old q (rw here found) (ground (arith, same, free))
            who,
      )

  rejoin-Joined :
      (db : Db m) (now later u : ℕ) (r : JoinRequest) (actor : Actor) (p : Participant)
      → r.user_id ≡ some u
      → actor_id actor ≡ some u
      → find_participant m env db p.id ≡ some p
      → p.event_id ≡ r.event_id
      → Returns (rejoin m env now r p db).0
      → Joined db later r actor (rejoin m env now r p db)
  unfolding rejoin
  rejoin-Joined db now later u r actor p mine who found here h = elim (Bool-cases p.is_banned) [
    | inl banned ↦ absurd (rw (banned, Returns) at h)
    | inr clear ↦ elim (Option-cases p.password_hash) [
      | inr (hash, guarded) ↦ elim (Result-cases (check_password m env r.password hash)) [
        | inr (e, wrong) ↦ absurd (rw (clear, guarded, wrong, Returns) at h)
        | inl (_, right) ↦
            rw (clear, guarded, right)
              (come_back-Joined db now later u r actor (resumed m env now r p) p who found
                (ground (arith, clear, here, mine)))
      ]
      | inl unguarded ↦ elim (Bool-cases (is_some p.left_at)) [
        | inr present ↦ absurd (rw (clear, unguarded, present, Returns) at h)
        | inl gone ↦
            rw (clear, unguarded, gone)
              (come_back-Joined db now later u r actor (forgiven m env (resumed m env now r p)) p
                who found (ground (arith, clear, here, mine)))
      ]
    ]
  ]

  found_event :
      (db : Db m) (e : ℕ) (lower : String) (p : Participant)
      → find_nickname m env db e lower ≡ some p
      → p.event_id ≡ e
  unfolding find_nickname
  found_event db e lower p found =
      let (_, passes) =
        find?-mem _ (m.docs Participant db.participants) p (rw find_one_lem at found) in
      (==_iff p.event_id e).0 (ground (arith, passes))

  join_event_known :
      (db : Db m) (now i : ℕ) (r : JoinRequest) (o : Option Participant) {x : Unit {0}}
      → ensure_nickname_is_not_access_code m env (env.trim r.nickname) db ≡ ok x
      → find_nickname m env db r.event_id (env.to_lower (env.trim r.nickname)) ≡ o
      → join_event m env now i r db ≡ join_as m env now i r o db
  unfolding join_event
  join_event_known db now i r o plain' found = rw (plain', found)

  join_event_refused :
      (db : Db m) (now i : ℕ) (r : JoinRequest) {e : ApiError}
      → ensure_nickname_is_not_access_code m env (env.trim r.nickname) db ≡ err e
      → (join_event m env now i r db).0 ≡ err e
  unfolding join_event
  join_event_refused db now i r coded = rw coded

  join_as-Joined :
      (db : Db m) (now later i u : ℕ) (r : JoinRequest) (actor : Actor) (o : Option Participant)
      → r.user_id ≡ some u
      → actor_id actor ≡ some u
      → find_participant m env db i ≡ none
      → ((p : Participant)
          → o ≡ some p
          → (find_participant m env db p.id ≡ some p) × (p.event_id ≡ r.event_id))
      → Returns (join_as m env now i r o db).0
      → Joined db later r actor (join_as m env now i r o db)
  join_as-Joined db now later i u r actor none mine who fresh known h =
      first_join-Joined db now later i u r actor mine who fresh
  join_as-Joined db now later i u r actor (some p) mine who fresh known h =
      let (found, here) = known p refl in
      rejoin-Joined db now later u r actor p mine who found here h

  same_view :
      (db : Db m) (later : ℕ) (r : JoinRequest) (actor : Actor) (v : ParticipantView)
      (outcome : Result ParticipantView × Db m)
      → outcome.0 ≡ ok v
      → Joined db later r actor outcome
      → Returns
          (assert_participant_session m env later v.id (some r.event_id) actor false outcome.1).0
  same_view db later r actor v outcome done (w, same, held) =
      let equal : w ≡ v = (cc) in rw (← equal) held

-- Whoever joins an event as a signed-in user, for the first time or again, holds a session on the
-- database that joinEvent leaves: on that database, the check of attendee sessions without the test
-- of cooldowns accepts that user for the participant and the event returned, at any time of the
-- clock. It is assumed that the new document's identifier is not in use and that a participant
-- found by its name is the one found by its identifier.
pub join_event-session :
    (m : Mongo) (env : Platform) (db : Db m) (now later i u : ℕ) (r : JoinRequest) (actor : Actor)
    (v : ParticipantView)
    → r.user_id ≡ some u
    → actor_id actor ≡ some u
    → find_participant m env db i ≡ none
    → ((p : Participant)
        → find_nickname m env db r.event_id (env.to_lower (env.trim r.nickname)) ≡ some p
        → find_participant m env db p.id ≡ some p)
    → (join_event m env now i r db).0 ≡ ok v
    → Returns
        (assert_participant_session m env later v.id
          (some r.event_id)
          actor
          false
          (join_event m env now i r db).1).0
join_event-session m env db now later i u r actor v mine who fresh known done =
    let lower = env.to_lower (env.trim r.nickname) in
    let o = find_nickname m env db r.event_id lower in
    elim (Result-cases (ensure_nickname_is_not_access_code m env (env.trim r.nickname) db)) [
      | inr (e, coded) ↦ cc (join_event_refused m env db now i r coded)
      | inl (x, plain') ↦
          let step = join_event_known m env db now i r o plain' refl in
          same_view m env db later r actor v (join_event m env now i r db) done (
            rw step (
              join_as-Joined m env db now later i u r actor o mine who fresh
                (λ p found. (known p found, found_event m env db r.event_id lower p found))
                (rw (← step, done, Returns) tt)))
    ]
