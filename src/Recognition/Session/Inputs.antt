-- ===== src/Recognition/Session/Inputs.antt =====
-- src/services/audio-recognition/match-session.js: what the session does with the hashes of a chunk
-- and with an event of the queue. `match_in_ram` is the matcher that the constructor is given.
use hernan_pedraza_pi_back.Prelude.{
  ℕ, ◌+◌, ◌*◌, Bool, true, false, not, ◌&&◌, ◌||◌, Option, none, some, List, [], ◌∷◌, ◌++◌, String,
  ltb, leb, ◌==◌, str_eq, is_id, length, if◌then◌else◌,
}
use hernan_pedraza_pi_back.Mongo.{Mongo}
use hernan_pedraza_pi_back.Platform.{Platform}
use hernan_pedraza_pi_back.SongStates.{same_status}
use hernan_pedraza_pi_back.Models.{Db}
use hernan_pedraza_pi_back.Songs.Metadata.{Cipher}
use hernan_pedraza_pi_back.Recognition.Thresholds.{
  Match, Verdict, winner, value_or, is_confident_winner,
}
use hernan_pedraza_pi_back.Recognition.Linker.{
  SongSummary, QueueContext, Candidate, Target, find_up_next_queue_track, enrich_match,
  enrich_matches_with_queue_context, bind_recognition_match_to_pending_song,
}
use hernan_pedraza_pi_back.Recognition.Session.State.{
  Hash, SentHash, Reason, MatchEvent, Revocation, Session, Step, reaches, under, elapsed,
  sanitize_hashes, keep_last, max_accumulated_hashes, audio_revocation_recent_hash_cap, is_locked,
  is_holding, diff, stay, held_track, maybe_start_hold, lock, drop_candidate,
}

-- What the server broadcast.
pub record QueueEvent : Type 0 where
  pub kind : String
  pub track_id : Option ℕ
  pub song_id : Option ℕ

abbrev pub same_option : {A : Type 0} → (A → A → Bool) → Option A → Option A → Bool
same_option eq none none = true
same_option eq (some a) (some b) = eq a b
same_option eq none (some b) = false
same_option eq (some a) none = false

abbrev pub same_bool : Bool → Bool → Bool
same_bool true b = b
same_bool false b = not b

unfoldable pub same_summary : SongSummary → SongSummary → Bool
unfolding same_status
same_summary a b =
    ((a.song_id == b.song_id && a.event_id == b.event_id)
      && (str_eq a.title b.title && str_eq a.artist b.artist))
    && ((same_status a.status b.status && same_bool a.pinned b.pinned)
        && a.vote_score == b.vote_score)
    && ((same_option (λ x y. x == y) a.total_duration b.total_duration
          && same_option (λ x y. x == y) a.started_playing_at b.started_playing_at)
        && same_option (λ x y. x == y) a.requested_by b.requested_by)

unfoldable pub queue_context_changed : QueueContext → QueueContext → Bool
unfolding same_summary
queue_context_changed a b = not (
    (((same_bool a.has_pending b.has_pending && same_bool a.has_approved b.has_approved)
        && same_bool a.has_playing b.has_playing)
      && (same_option same_bool a.is_playable_now b.is_playable_now
          && same_option str_eq a.suggested_action b.suggested_action))
    && ((same_option same_summary a.next_approved b.next_approved
          && same_option same_summary a.playing b.playing)
        && same_option same_summary a.pending b.pending))

-- Two steps after each other.
abbrev pub and_then : Step → (Session → Step) → Step
and_then r f = record { session = (f r.session).session; diffs = r.diffs ++ (f r.session).diffs }

abbrev pub touch : ℕ → Session → Session
touch now s = if is_locked s.phase then record s { last_chunk_at = now } else s

abbrev pub winner_of : Verdict Candidate → Option Candidate
winner_of (winner c) = some c
winner_of _ = none

-- The lock of a hold that has lasted long enough.
abbrev pub ripe : ℕ → ℕ → Session → Bool
ripe now t s =
    (is_holding s.phase && is_id (held_track s.held) t)
    && (reaches s.persistent_chunks s.limits.min_persistent_chunks
        && elapsed now s.hold_started_at s.limits.hold_window_ms)

unfoldable pub lock_if_ripe : ℕ → ℕ → Session → Step
unfolding lock
lock_if_ripe now t s = if ripe now t s then lock now s else stay s

unfoldable pub follow_winner : ℕ → List Candidate → Session → Option Candidate → Step
unfolding drop_candidate maybe_start_hold lock_if_ripe
follow_winner now enriched s none = drop_candidate now Reason.no_candidate s
follow_winner now enriched s (some top) =
    if under (length s.accumulated) s.limits.min_match_query_hashes
    then maybe_start_hold now true top enriched s
    else and_then (maybe_start_hold now false top enriched s) (lock_if_ripe now top.found.track_id)

abbrev pub with_chunk : ℕ → List Hash → Session → Session
with_chunk now hs s = record s {
  last_chunk_at = now;
  accumulated = keep_last max_accumulated_hashes (s.accumulated ++ hs);
  recent = keep_last audio_revocation_recent_hash_cap (s.recent ++ hs);
}

abbrev pub with_recent : ℕ → List Hash → Session → Session
with_recent now hs s = record s {
  last_chunk_at = now;
  recent = keep_last audio_revocation_recent_hash_cap (s.recent ++ hs);
}

abbrev pub suspect : ℕ → ℕ → Session → Step
suspect now t s = stay (record s {
  revocation = some (record { track_id = t; first_seen_at = now; confirmations = 1 });
})

-- The lock gives way to the other track.
unfoldable pub revoke : ℕ → Candidate → List Candidate → Session → Step
unfolding drop_candidate maybe_start_hold
revoke now top enriched s =
    and_then (drop_candidate now (Reason.audio_revoked_by_recent_match top.found.track_id) s)
      (λ d. maybe_start_hold now false top enriched (record d { accumulated = s.recent }))

unfoldable pub revoke_if_enough : ℕ → Candidate → List Candidate → Revocation → Session → Step
unfolding revoke
revoke_if_enough now top enriched r s =
    if ltb r.confirmations s.limits.required_confirmations
      || ltb now (r.first_seen_at + s.limits.min_elapsed_ms)
    then stay (record s { revocation = some r })
    else revoke now top enriched (record s { revocation = some r })

unfoldable pub confirm_revocation :
    ℕ → Candidate → List Candidate → Session → Option Revocation → Step
unfolding revoke_if_enough
confirm_revocation now top enriched s none = suspect now top.found.track_id s
confirm_revocation now top enriched s (some r) =
    if r.track_id == top.found.track_id
    then revoke_if_enough now top enriched (record r { confirmations = r.confirmations + 1 }) s
    else suspect now top.found.track_id s

-- The winner among the recent hashes, next to the locked track.
unfoldable pub judge_lock :
    ℕ → List Candidate → Session → Option Candidate → Option Candidate → Step
unfolding confirm_revocation
judge_lock now enriched s none held = stay (record s { revocation = none })
judge_lock now enriched s (some top) none = stay (record s { revocation = none })
judge_lock now enriched s (some top) (some c) =
    if top.found.track_id == c.found.track_id
    then stay (record s { revocation = none })
    else confirm_revocation now top enriched s s.revocation

abbrev pub duration_of : Candidate → SongSummary → ℕ
duration_of c playing = value_or playing.total_duration c.found.duration

abbrev pub has_run_out : ℕ → ℕ → Option ℕ → Bool
has_run_out now duration none = false
has_run_out now duration (some start) = ltb 0 duration && leb (start + duration * 1000) now

abbrev pub playing_has_finished : ℕ → Candidate → Option SongSummary → Bool
playing_has_finished now c none = false
playing_has_finished now c (some playing) =
    has_run_out now (duration_of c playing) playing.started_playing_at

unfoldable pub locked_candidate_has_finished : ℕ → Candidate → Bool
locked_candidate_has_finished now c =
    c.context.has_playing && playing_has_finished now c c.context.playing

abbrev pub is_leave_event : String → Bool
is_leave_event kind =
    (str_eq kind "song_skipped" || str_eq kind "song_rejected") || str_eq kind "song_played"

abbrev pub target_track : Option Target → Option ℕ
target_track none = none
target_track (some t) = t.track_id

-- The queue's next song has another track than the candidate, or there is no next track.
unfoldable pub follow_target : ℕ → Option Target → Session → Option Candidate → Option ℕ → Step
unfolding drop_candidate
follow_target now target s (some c) none =
    if not (is_locked s.phase) && not c.context.has_playing
    then drop_candidate now Reason.no_queue_target s
    else stay s
follow_target now (some target) s (some c) (some t) =
    if not (t == c.found.track_id) && (not c.context.has_playing || is_locked s.phase)
    then drop_candidate now (Reason.queue_target_changed target) s
    else stay s
follow_target now target s none _ = stay s
follow_target now none s (some c) (some t) = stay s

-- The song of the event began to play, or left the state of playing.
unfoldable pub follow_event : ℕ → QueueEvent → Session → Option Candidate → Option ℕ → Step
unfolding drop_candidate lock
follow_event now event s none track = stay s
follow_event now event s (some c) none = stay s
follow_event now event s (some c) (some t) =
    if str_eq event.kind "song_now_playing"
    then if t == c.found.track_id
      then lock now s
      else drop_candidate now (Reason.dj_sent_different_track t event.song_id) s
    else if (is_locked s.phase && c.context.has_playing)
        && (is_leave_event event.kind && t == c.found.track_id)
    then drop_candidate now (Reason.candidate_left_playing event.kind) s
    else stay s

unfoldable pub refresh_context : ℕ → QueueContext → Session → Candidate → Step
unfolding drop_candidate queue_context_changed
refresh_context now context s c =
    let next = record s { held = some (record c { context = context }) } in
    if is_locked s.phase && (not context.has_playing && not context.has_approved)
    then drop_candidate now Reason.candidate_left_queue next
    else if queue_context_changed c.context context
    then record {
      session = next;
      diffs = diff now next (MatchEvent.queue_updated c.found.track_id) ∷ [];
    }
    else stay next

unfoldable pub refresh_candidate :
    ℕ → (Candidate → QueueContext) → Session → Option Candidate → Step
unfolding refresh_context
refresh_candidate now context_of s none = stay s
refresh_candidate now context_of s (some c) = refresh_context now (context_of c) s c

unfoldable pub is_finished : ℕ → Session → Option Candidate → Bool
unfolding locked_candidate_has_finished
is_finished now s none = false
is_finished now s (some c) = is_locked s.phase && locked_candidate_has_finished now c

-- What the queue says now: its next song, and the context of a candidate.
unfoldable pub follow_queue :
    ℕ → Option Target → (Candidate → QueueContext) → QueueEvent → Session → Step
unfolding follow_target follow_event refresh_candidate drop_candidate
follow_queue now target context event s =
    if is_finished now s s.held
    then drop_candidate now (Reason.candidate_duration_elapsed event.kind) s
    else and_then
        (and_then (follow_target now target s s.held (target_track target))
          (λ a. follow_event now event a a.held event.track_id))
        (λ b. refresh_candidate now context b b.held)

module _ (m : Mongo) (env : Platform) (cipher : Cipher) (key_before : String → String → Bool)
    (match_in_ram : ℕ → List Hash → List Match) where
  unfoldable pub enriched_matches : Db m → ℕ → List Hash → List Candidate
  unfolding enrich_matches_with_queue_context
  enriched_matches db e hs =
      enrich_matches_with_queue_context m env cipher key_before db e (match_in_ram e hs)

  unfoldable pub top_of : Db m → Session → List Hash → Option Candidate
  unfolding is_confident_winner
  top_of db s hs =
      winner_of
        (is_confident_winner (λ c. c.found) s.limits.thresholds (enriched_matches db s.event_id hs))

  unfoldable pub evaluate_audio_revocation : Db m → ℕ → List Hash → Session → Step
  unfolding top_of
  evaluate_audio_revocation db now hs s =
      let s' = with_recent now hs s in
      judge_lock now (enriched_matches db s'.event_id s'.recent) s' (top_of db s' s'.recent) s'.held

  unfoldable pub add_hashes : Db m → ℕ → List Hash → Session → Step
  unfolding follow_winner evaluate_audio_revocation top_of
  add_hashes db now hs s =
      if is_locked s.phase
      then evaluate_audio_revocation db now hs s
      else let s' = with_chunk now hs s in
        follow_winner now (enriched_matches db s'.event_id s'.accumulated) s'
          (top_of db s' s'.accumulated)

  unfoldable pub add_clean : Db m → ℕ → Session → List Hash → Step
  unfolding add_hashes
  add_clean db now s [] = stay (touch now s)
  add_clean db now s (h ∷ hs) = add_hashes db now (h ∷ hs) s

  unfoldable pub add_chunk : Db m → ℕ → List (Option SentHash) → Session → Step
  unfolding sanitize_hashes add_clean
  add_chunk db now sent s = add_clean db now s (sanitize_hashes sent)

  unfoldable pub apply_queue_event : Db m → ℕ → QueueEvent → Session → Step
  unfolding follow_queue
  apply_queue_event db now event s =
      if str_eq event.kind ""
      then stay s
      else follow_queue now (find_up_next_queue_track m env cipher key_before db s.event_id)
          (λ c. (enrich_match m env cipher key_before db s.event_id c.found).context) event s

  unfoldable pub maybe_bind_locked_song : Session → Db m → Db m
  maybe_bind_locked_song s db = elim s.held [
    | none ↦ db
    | some c ↦
        if is_locked s.phase
        then bind_recognition_match_to_pending_song m env cipher key_before s.event_id
            c.found.track_id db
        else db
  ]
