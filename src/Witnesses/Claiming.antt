-- ===== src/Witnesses/Claiming.antt =====
-- Ann has protected her nickname and comes back without an account.
use hernan_pedraza_pi_back.Prelude.{◌≡◌, refl, false, none, some, [], ◌∷◌}
use hernan_pedraza_pi_back.Errors.{Returns}
use hernan_pedraza_pi_back.Mongo.{list_mongo}
use hernan_pedraza_pi_back.Platform.{plain_platform}
use hernan_pedraza_pi_back.Models.{Participant, Db}
use hernan_pedraza_pi_back.Participants.Joining.{
  JoinRequest, find_nickname, rejoin, resumed, check_password, come_back,
}
use hernan_pedraza_pi_back.AttendeeSession.{
  attendee_user, assert_can_claim_participant, check_claim, resolve_user, join_event_in_session,
}
use hernan_pedraza_pi_back.AttendeeSession.Claims.{Knows, join_event_in_session-Knows}
use hernan_pedraza_pi_back.Witnesses.Samples.{ann, db, join_runs}

abbrev locked_ann : Participant
locked_ann = record ann { password_hash = some "secret" }

abbrev guarded : Db list_mongo
guarded = record db { participants = locked_ann ∷ [] }

abbrev request : JoinRequest
request = record {
  event_id = 1;
  nickname = "ann";
  profile_picture = none;
  password = some "secret";
  user_id = none;
  social_prefs = none;
}

named : find_nickname list_mongo plain_platform guarded 1 "ann" ≡ some locked_ann
unfolding join_runs
named = refl

back : Returns (join_event_in_session list_mongo plain_platform 700 80 81 "u" "b" request guarded).0
unfolding join_runs join_event_in_session assert_can_claim_participant check_claim check_password
    resolve_user attendee_user rejoin resumed come_back
back = tt

join_event_in_session-Knows_example :
    (locked_ann.is_banned ≡ false) × Knows plain_platform (some "secret") "secret"
join_event_in_session-Knows_example =
    join_event_in_session-Knows list_mongo plain_platform guarded 700 80 81 "u" "b" request
      locked_ann "secret" named refl back
