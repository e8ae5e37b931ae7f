-- ===== src/Witnesses/People.antt =====
-- Attendees of the small event: kicked, banned, admitted and joining.
use hernan_pedraza_pi_back.Prelude.{◌≡◌, ◌↔◌, refl, true, false, none, some}
use hernan_pedraza_pi_back.Errors.{ok, err, forbidden, Returns}
use hernan_pedraza_pi_back.Mongo.{list_mongo}
use hernan_pedraza_pi_back.Platform.{plain_platform}
use hernan_pedraza_pi_back.Models.{Participant}
use hernan_pedraza_pi_back.Participants.Access.{
  ParticipantView, find_participant, ensure_participant_can_interact,
}
use hernan_pedraza_pi_back.Participants.Admission.{
  InEvent, IsActive, OwnedByAny, IsFree, ensure_participant_can_interact_iff,
}
use hernan_pedraza_pi_back.Participants.Moderation.{kick_participant, ban_participant}
use hernan_pedraza_pi_back.Participants.Moderation.Sanctions.{kick_participant-blocks}
use hernan_pedraza_pi_back.Witnesses.Samples.{db, owner, ann_user, visible, attendee_runs}

abbrev sent_away : ParticipantView
sent_away = record {
  id = 5;
  user_id = some 20;
  event_id = 1;
  nickname = "ann";
  profile_picture = none;
  joined_at = 100;
  last_seen_at = 100;
  is_banned = false;
  cooldown_until = none;
  cooldown_reason = none;
  is_premium = true;
  password_protected = false;
  left_at = some 200;
  anonymous_number = none;
  social_prefs = visible;
}

ann_is_kicked : (kick_participant list_mongo plain_platform 200 5 "spam" owner db).0 ≡ ok sent_away
unfolding attendee_runs
ann_is_kicked = refl

ann_is_banned :
    (ban_participant list_mongo plain_platform 200 5 "spam" owner db).0
    ≡ ok (record sent_away { is_banned = true })
unfolding attendee_runs
ann_is_banned = refl

kick_participant-blocks_example :
    ensure_participant_can_interact list_mongo plain_platform 300 5
      (some 1)
      true
      none
      (kick_participant list_mongo plain_platform 200 5 "spam" owner db).1
    ≡ (
      err (forbidden "Participant was kicked from this event"),
      (kick_participant list_mongo plain_platform 200 5 "spam" owner db).1,
    )
kick_participant-blocks_example =
    kick_participant-blocks list_mongo plain_platform db 200 5 "spam" owner sent_away ann_is_kicked
      300 true none

ensure_participant_can_interact_iff_example :
    Returns
      (ensure_participant_can_interact list_mongo plain_platform 300 5
        (some 1)
        true
        (some ann_user)
        db).0
    ↔ ((p : Participant) × (find_participant list_mongo plain_platform db 5 ≡ some p)
        × InEvent (some 1) p
        × IsActive p
        × OwnedByAny (some ann_user) p
        × IsFree true 300 p)
ensure_participant_can_interact_iff_example =
    ensure_participant_can_interact_iff list_mongo plain_platform 300 5 (some 1) true
      (some ann_user) db

ann_may_act :
    Returns
      (ensure_participant_can_interact list_mongo plain_platform 300 5
        (some 1)
        true
        (some ann_user)
        db).0
unfolding attendee_runs
ann_may_act = tt
