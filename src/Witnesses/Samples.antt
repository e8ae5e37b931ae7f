-- ===== src/Witnesses/Samples.antt =====
-- A small event: its owner is user 9, user 20 attends as participant 5, song 3 waits for approval.
use hernan_pedraza_pi_back.Prelude.{true, false, none, some, [], ◌∷◌}
use hernan_pedraza_pi_back.Mongo.{list_mongo}
use hernan_pedraza_pi_back.SongStates.{pending, approved, playing}
use hernan_pedraza_pi_back.Models.{
  Settings, Event, live, dj, Member, SocialPrefs, Participant, Song, up, Vote, Actor, signed, Db,
}
use hernan_pedraza_pi_back.Permissions.{
  assert_any_permission, assert_actor_role, normalize_role, get_event, find_event, is_event_dj,
  event_context, actor_id, member_context, assert_participant_admin,
}
use hernan_pedraza_pi_back.Participants.Access.{
  find_participant, save_participant, assert_participant_admin_permission, normalized_role,
  assert_active, assert_session, assert_participant_owner, ensure_participant_can_interact,
  check_event, check_owner, check_cooldown, clear_expired_cooldown, cooldown_over, on_cooldown,
  format_participant, count_active_participants, active_participant_query,
}
use hernan_pedraza_pi_back.Participants.Moderation.{kick_participant, ban_participant}
use hernan_pedraza_pi_back.Participants.Text.{is_code_shaped, format_anonymous_name}
use hernan_pedraza_pi_back.Participants.Joining.{
  join_event, ensure_nickname_is_not_access_code, find_nickname, first_join, merge_social_prefs,
  apply_social_prefs,
}
use hernan_pedraza_pi_back.Votes.Recount.{
  recount, vote_weight, apply_ladder_effects, apply_auto_reject, is_voted_out,
  get_auto_reject_threshold, get_event_settings, votes_of, recalculated, recalculate_db,
}
use hernan_pedraza_pi_back.Votes.Casting.{
  format_song_vote_state, find_song, find_vote, save_song, recalculate_and_save, ballot, store_vote,
  check_voting, record_vote, cast_ballot,
}

-- What a run of the checks computes with.
unfoldable pub permission_runs : Unit {0}
unfolding assert_any_permission assert_actor_role normalize_role get_event find_event is_event_dj
    event_context actor_id member_context assert_participant_admin
permission_runs = tt

unfoldable pub attendee_runs : Unit {0}
unfolding permission_runs find_participant save_participant assert_participant_admin_permission
    normalized_role assert_active assert_session assert_participant_owner
    ensure_participant_can_interact check_event check_owner check_cooldown clear_expired_cooldown
    cooldown_over on_cooldown format_participant count_active_participants active_participant_query
    kick_participant ban_participant
attendee_runs = tt

-- What a run of a join and of a vote computes with besides.
unfoldable pub join_runs : Unit {0}
unfolding attendee_runs join_event ensure_nickname_is_not_access_code is_code_shaped find_nickname
    first_join merge_social_prefs apply_social_prefs format_anonymous_name
join_runs = tt

unfoldable pub vote_runs : Unit {0}
unfolding attendee_runs cast_ballot find_song get_event_settings check_voting find_vote record_vote
    ballot store_vote recalculate_and_save recalculated recalculate_db recount vote_weight
    get_auto_reject_threshold votes_of apply_ladder_effects apply_auto_reject is_voted_out save_song
    format_song_vote_state
vote_runs = tt

abbrev pub open_settings : Settings
open_settings = record {
  allow_requests = some true;
  require_approval = some false;
  max_requests_per_participant = some 3;
  voting_enabled = some true;
  allow_downvotes = some true;
  premium_votes_enabled = some true;
  approve_ladder_threshold = some 2;
}

abbrev pub party : Event
party = record {
  id = 1;
  name = "Party";
  description = none;
  state = live;
  starts_at = 50;
  ended_at = none;
  cancelled_at = none;
  cancelled_reason = none;
  code = "PARTY1";
  access_code = "ABC123";
  owner_id = 9;
  current_song_id = none;
  settings = open_settings;
}

abbrev pub visible : SocialPrefs
visible = record {
  show_display_name = true;
  show_profile_picture = true;
  allow_friend_requests = true;
}

abbrev pub hidden : SocialPrefs
hidden = record {
  show_display_name = false;
  show_profile_picture = false;
  allow_friend_requests = true;
}

abbrev pub ann : Participant
ann = record {
  id = 5;
  event_id = 1;
  nickname = "ann";
  nickname_lower = "ann";
  profile_picture = none;
  user_id = some 20;
  password_hash = none;
  password_set_at = none;
  joined_at = 100;
  last_seen_at = 100;
  is_banned = false;
  kicked_at = none;
  kicked_by = none;
  kick_reason = none;
  banned_at = none;
  banned_by = none;
  ban_reason = none;
  cooldown_until = none;
  cooldown_reason = none;
  is_premium = true;
  approval_count = 0;
  anonymous_number = none;
  real_nickname = some "ann";
  real_profile_picture = some "ann.png";
  social_prefs = visible;
  left_at = none;
}

abbrev pub tune : Song
tune = record {
  id = 3;
  event_id = 1;
  title = "Tune";
  artist = "Band";
  recognition_match = none;
  requested_by = some 5;
  status = pending;
  vote_score = 0;
  downvote_count = 0;
  vote_count = 0;
  is_premium_suggestion = false;
  sort_key = "a";
  total_duration = some 180;
  created_at = 120;
  pinned = false;
  started_playing_at = none;
  skipped_at = none;
  skipped_by = none;
  skipped_reason = none;
  removed_at = none;
  removal_reason = none;
  auto_rejected_at = none;
}

abbrev pub helper : Member
helper = record {
  event_id = 1;
  user_id = 30;
  role = dj;
  permissions = "QUEUE_READ" ∷ [];
  added_by = 9;
}

abbrev pub upvote : Vote
upvote = record {
  id = 40;
  song_id = 3;
  participant_id = 5;
  value = up;
  is_premium_vote = true;
  created_at = 150;
}

abbrev pub db : Db list_mongo
db = record {
  users = [];
  events = party ∷ [];
  members = helper ∷ [];
  participants = ann ∷ [];
  songs = tune ∷ [];
  votes = upvote ∷ [];
  friend_requests = [];
  friendships = [];
  invites = [];
  audio_tracks = [];
}

abbrev pub owner : Actor
owner = signed (record { user_id = some 9; doc_id = none; plain_id = none; role = some "DJ" })

abbrev pub ann_user : Actor
ann_user =
    signed (record { user_id = some 20; doc_id = none; plain_id = none; role = some "ATTENDEE" })

-- Song 4 is approved and bound to a track, song 6 plays.
abbrev pub ready : Song
ready = record tune {
  id = 4;
  status = approved;
  recognition_match = some (record {
    track_id = some 70;
    title = some "Tune";
    artist = none;
    duration = none;
    score = 12;
  });
}

abbrev pub current : Song
current = record tune { id = 6; status = playing }

abbrev pub show : Db list_mongo
show = record db { songs = tune ∷ ready ∷ current ∷ [] }
