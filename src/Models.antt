-- ===== src/Models.antt =====
-- src/models/*.js: the documents, with the fields that the services read or write. Identifiers and
-- points in time (milliseconds) are numbers, a field that may be null or missing is an option.
use hernan_pedraza_pi_back.Prelude.{ℕ, String, Bool, Option, List}
use hernan_pedraza_pi_back.SongStates.{SongStatus}
use hernan_pedraza_pi_back.Mongo.{Mongo}

-- `EventSettingsSchema`. A missing flag is `none`; the code reads it as not false.
pub record Settings : Type 0 where
  pub allow_requests : Option Bool
  pub require_approval : Option Bool
  pub max_requests_per_participant : Option ℕ
  pub voting_enabled : Option Bool
  pub allow_downvotes : Option Bool
  pub premium_votes_enabled : Option Bool
  pub approve_ladder_threshold : Option ℕ

pub data EventState : Type 0 where
  draft live ended cancelled : EventState

pub record Event : Type 0 where
  pub id : ℕ
  pub name : String
  pub description : Option String
  pub state : EventState
  pub starts_at : ℕ
  pub ended_at : Option ℕ
  pub cancelled_at : Option ℕ
  pub cancelled_reason : Option String
  -- the field `eventId`, the short code of the event
  pub code : String
  pub access_code : String
  pub owner_id : ℕ
  pub current_song_id : Option ℕ
  pub settings : Settings

pub data Role : Type 0 where
  dj attendee : Role

pub record Member : Type 0 where
  pub event_id : ℕ
  pub user_id : ℕ
  pub role : Role
  pub permissions : List String
  pub added_by : ℕ

pub record SocialPrefs : Type 0 where
  pub show_display_name : Bool
  pub show_profile_picture : Bool
  pub allow_friend_requests : Bool

pub record Participant : Type 0 where
  pub id : ℕ
  pub event_id : ℕ
  pub nickname : String
  pub nickname_lower : String
  pub profile_picture : Option String
  pub user_id : Option ℕ
  pub password_hash : Option String
  pub password_set_at : Option ℕ
  pub joined_at : ℕ
  pub last_seen_at : ℕ
  pub is_banned : Bool
  pub kicked_at : Option ℕ
  pub kicked_by : Option ℕ
  pub kick_reason : Option String
  pub banned_at : Option ℕ
  pub banned_by : Option ℕ
  pub ban_reason : Option String
  pub cooldown_until : Option ℕ
  pub cooldown_reason : Option String
  pub is_premium : Bool
  pub approval_count : ℕ
  pub anonymous_number : Option ℕ
  pub real_nickname : Option String
  pub real_profile_picture : Option String
  pub social_prefs : SocialPrefs
  pub left_at : Option ℕ

-- A recognised track. `score` is in thousandths.
pub record RecognitionMatch : Type 0 where
  pub track_id : Option ℕ
  pub title : Option String
  pub artist : Option String
  pub duration : Option ℕ
  pub score : ℕ

pub record Song : Type 0 where
  pub id : ℕ
  pub event_id : ℕ
  pub title : String
  pub artist : String
  pub recognition_match : Option RecognitionMatch
  pub requested_by : Option ℕ
  pub status : SongStatus
  pub vote_score : ℕ
  pub downvote_count : ℕ
  pub vote_count : ℕ
  pub is_premium_suggestion : Bool
  pub sort_key : String
  pub total_duration : Option ℕ
  pub created_at : ℕ
  pub pinned : Bool
  pub started_playing_at : Option ℕ
  pub skipped_at : Option ℕ
  pub skipped_by : Option ℕ
  pub skipped_reason : Option String
  pub removed_at : Option ℕ
  pub removal_reason : Option String
  pub auto_rejected_at : Option ℕ

pub record AudioTrack : Type 0 where
  pub id : ℕ
  pub event_id : ℕ
  pub title : String
  pub artist : String
  pub duration : ℕ

-- `value` of a vote: 1 or -1, by the schema's enum.
pub data Ballot : Type 0 where
  up down : Ballot

pub record Vote : Type 0 where
  pub id : ℕ
  pub song_id : ℕ
  pub participant_id : ℕ
  pub value : Ballot
  pub is_premium_vote : Bool
  pub created_at : ℕ

-- The fields of a request's user that the services read: `userId`, `_id`, `id` and `role`.
pub record ActorDoc : Type 0 where
  pub user_id : Option ℕ
  pub doc_id : Option ℕ
  pub plain_id : Option ℕ
  pub role : Option String

-- Who acts: a user given as an identifier string, as an object, or not at all.
pub data Actor : Type 0 where
  plain : ℕ → Actor
  signed : ActorDoc → Actor
  anonymous : Actor

pub record User : Type 0 where
  pub id : ℕ
  pub email : Option String
  pub display_name : String
  pub profile_picture : Option String
  pub is_active : Bool
  pub role : Role
  pub email_registered : Bool
  pub has_seen_tutorial : Bool
  pub password_hash : String
  pub last_login_at : Option ℕ
  pub email_registered_at : Option ℕ
  pub email_verification_attempts : ℕ
  pub email_verification_last_sent_at : Option ℕ
  pub email_verification_token_id : Option String
  pub auth_token_version : ℕ

-- `status` of a friend request, and of an invitation to an event.
pub data RequestStatus : Type 0 where
  pending accepted denied cancelled : RequestStatus

pub record FriendRequest : Type 0 where
  pub id : ℕ
  pub from_id : ℕ
  pub to_id : ℕ
  pub status : RequestStatus
  pub message : Option String
  pub created_at : ℕ
  pub responded_at : Option ℕ

-- One of the two rows of a friendship: `friend_id` is a friend of `user_id`.
pub record Friendship : Type 0 where
  pub user_id : ℕ
  pub friend_id : ℕ
  pub from_request_id : ℕ
  pub since : ℕ

pub data InviteStatus : Type 0 where
  sent accepted dismissed expired : InviteStatus

pub record EventInvite : Type 0 where
  pub id : ℕ
  pub from_id : ℕ
  pub to_id : ℕ
  pub to_email : String
  pub event_id : Option ℕ
  pub event_name : Option String
  pub event_code : String
  pub message : Option String
  pub status : InviteStatus
  pub sent_at : ℕ
  pub responded_at : Option ℕ

-- The collections.
pub record Db (m : Mongo) : Type 0 where
  pub users : m.Coll User
  pub events : m.Coll Event
  pub members : m.Coll Member
  pub participants : m.Coll Participant
  pub songs : m.Coll Song
  pub votes : m.Coll Vote
  pub friend_requests : m.Coll FriendRequest
  pub friendships : m.Coll Friendship
  pub invites : m.Coll EventInvite
  pub audio_tracks : m.Coll AudioTrack
