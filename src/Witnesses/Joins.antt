-- ===== src/Witnesses/Joins.antt =====
-- Joining the small event, and hiding a name in it.
use hernan_pedraza_pi_back.Prelude.{◌≡◌, ◌≢◌, refl, String, false, none, some, eq_iff}
use hernan_pedraza_pi_back.Errors.{Returns}
use hernan_pedraza_pi_back.Mongo.{list_mongo}
use hernan_pedraza_pi_back.Platform.{plain_platform}
use hernan_pedraza_pi_back.Models.{Actor, signed}
use hernan_pedraza_pi_back.Participants.Access.{ParticipantView, assert_participant_session}
use hernan_pedraza_pi_back.Participants.Joining.{JoinRequest, join_event, apply_social_prefs}
use hernan_pedraza_pi_back.Participants.Joining.Masks.{unmask}
use hernan_pedraza_pi_back.Participants.Sessions.{join_event-session}
use hernan_pedraza_pi_back.Witnesses.Samples.{db, ann, visible, hidden, join_runs}

abbrev bob : JoinRequest
bob = record {
  event_id = 1;
  nickname = "bob";
  profile_picture = none;
  password = none;
  user_id = some 21;
  social_prefs = none;
}

abbrev bob_user : Actor
bob_user = signed (record { user_id = some 21; doc_id = none; plain_id = none; role = none })

abbrev bob_joined : ParticipantView
bob_joined = record {
  id = 6;
  user_id = some 21;
  event_id = 1;
  nickname = "bob";
  profile_picture = none;
  joined_at = 200;
  last_seen_at = 200;
  is_banned = false;
  cooldown_until = none;
  cooldown_reason = none;
  is_premium = false;
  password_protected = false;
  left_at = none;
  anonymous_number = none;
  social_prefs = visible;
}

join_event-session_example :
    Returns
      (assert_participant_session list_mongo plain_platform 300 6
        (some 1)
        bob_user
        false
        (join_event list_mongo plain_platform 200 6 bob db).1).0
unfolding join_runs
join_event-session_example =
    join_event-session list_mongo plain_platform db 200 300 6 21 bob bob_user bob_joined refl refl
      refl (λ p found. cc) refl

named : ◌≢◌ {A = String} "ann" ""
named e = cc ((eq_iff "ann" "").1 e)

unmask_example :
    let q =
      apply_social_prefs list_mongo plain_platform 4 hidden (some "ann.png") (some "ann") ann in
    let r =
      apply_social_prefs list_mongo plain_platform 7 visible q.real_profile_picture q.real_nickname
        q in
    (q.profile_picture ≡ none) × (r.nickname ≡ "ann") × (r.profile_picture ≡ some "ann.png")
unmask_example =
    unmask list_mongo plain_platform 4 7 hidden visible "ann" "ann.png" ann refl refl refl refl refl
      named refl
