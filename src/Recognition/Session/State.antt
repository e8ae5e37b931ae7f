-- ===== src/Recognition/Session/State.antt =====
-- src/services/audio-recognition/match-session.js: the session, the changes it reports, and its
-- internal transitions. A call reads the clock once. `lastDiff`, `hashesByTrackId` and
-- `queueSnapshot` are only ever written.
use hernan_pedraza_pi_back.Prelude.{
  ℕ, ◌+◌, ◌-◌, Bool, true, false, Option, none, some, List, [], ◌∷◌, String, ltb, leb, ◌==◌, find?,
  length, drop, if◌then◌else◌,
}
use hernan_pedraza_pi_back.Recognition.Thresholds.{ℤ, pos, Thresholds}
use hernan_pedraza_pi_back.Recognition.Linker.{Candidate, Target, empty_queue_context}

-- Two finite numbers, as in Recognition/Numbers.
pub record Hash : Type 0 where
  pub hash : ℤ
  pub time : ℤ

-- A field of a hash that a client sends: `number` is one that Number() makes a finite number, of
-- either sign and with or without a fraction; `text` is one that it makes NaN or an infinity.
pub data Field : Type 0 where
  undefined null text : Field
  number : ℤ → Field

-- A hash as a client sends it, in the long or in the short form.
pub record SentHash : Type 0 where
  pub hash : Field
  pub h : Field
  pub time : Field
  pub t : Field

pub data Phase : Type 0 where
  idle holding locked released : Phase

-- Why a candidate was given up.
pub data Reason : Type 0 where
  reset no_candidate no_queue_target candidate_left_queue : Reason
  top_match_changed audio_revoked_by_recent_match dj_intent_other_track : ℕ → Reason
  queue_target_changed : Target → Reason
  dj_sent_different_track : ℕ → Option ℕ → Reason
  candidate_left_playing candidate_duration_elapsed : String → Reason

-- The events with their payloads. `summarizeCandidate` copies the fields of the candidate.
pub data MatchEvent : Type 0 where
  candidate hold_started hold_updated locked : Candidate → MatchEvent
  released_track : Option ℕ → Reason → MatchEvent
  released : Candidate → Reason → MatchEvent
  queue_updated : ℕ → MatchEvent
  idle : Reason → MatchEvent

pub record Diff : Type 0 where
  pub event : MatchEvent
  pub phase : Phase
  pub timestamp : ℕ

-- Another track that the recent audio points to.
pub record Revocation : Type 0 where
  pub track_id : ℕ
  pub first_seen_at : ℕ
  pub confirmations : ℕ

-- A limit is `none` where neither the caller nor `resolveThresholds` gives one.
pub record Limits : Type 0 where
  pub hold_window_ms : Option ℕ
  pub min_persistent_chunks : Option ℕ
  pub min_match_query_hashes : Option ℕ
  pub required_confirmations : ℕ
  pub min_elapsed_ms : ℕ
  pub thresholds : Thresholds

pub record Session : Type 0 where
  pub event_id : ℕ
  pub limits : Limits
  pub phase : Phase
  pub accumulated : List Hash
  pub held : Option Candidate
  pub hold_started_at : ℕ
  pub persistent_chunks : ℕ
  pub last_chunk_at : ℕ
  pub dj_track : Option ℕ
  pub recent : List Hash
  pub revocation : Option Revocation

pub record Step : Type 0 where
  pub session : Session
  pub diffs : List Diff

-- x >= limit and x < limit, where a comparison with `undefined` is false.
abbrev pub reaches : ℕ → Option ℕ → Bool
reaches x none = false
reaches x (some n) = leb n x

abbrev pub under : ℕ → Option ℕ → Bool
under x none = false
under x (some n) = ltb x n

-- now - start >= window and now - start < window
abbrev pub elapsed : ℕ → ℕ → Option ℕ → Bool
elapsed now start none = false
elapsed now start (some w) = leb (start + w) now

abbrev pub not_elapsed : ℕ → ℕ → Option ℕ → Bool
not_elapsed now start none = false
not_elapsed now start (some w) = ltb now (start + w)

abbrev pub or_field : Field → Field → Field
or_field undefined b = b
or_field null b = b
or_field a b = a

-- Number(value), where it is finite; Number(null) is 0.
abbrev pub finite : Field → Option ℤ
finite undefined = none
finite null = some (pos 0)
finite text = none
finite (number n) = some n

abbrev pub push_hash : Option ℤ → Option ℤ → List Hash → List Hash
push_hash (some h) (some t) hs = record { hash = h; time = t } ∷ hs
push_hash _ _ hs = hs

-- `none` stands for an item that is falsy.
unfoldable pub sanitize_hashes : List (Option SentHash) → List Hash
sanitize_hashes [] = []
sanitize_hashes (none ∷ xs) = sanitize_hashes xs
sanitize_hashes (some x ∷ xs) =
    push_hash (finite (or_field x.hash x.h)) (finite (or_field x.time x.t)) (sanitize_hashes xs)

-- if (xs.length > n) xs = xs.slice(-n)
abbrev pub keep_last : ℕ → List Hash → List Hash
keep_last n xs = if ltb n (length xs) then drop (length xs - n) xs else xs

abbrev pub max_accumulated_hashes : ℕ
max_accumulated_hashes = 5000

abbrev pub audio_revocation_recent_hash_cap : ℕ
audio_revocation_recent_hash_cap = 4000

abbrev pub is_locked : Phase → Bool
is_locked locked = true
is_locked _ = false

abbrev pub is_holding : Phase → Bool
is_holding holding = true
is_holding _ = false

abbrev pub is_idle : Phase → Bool
is_idle idle = true
is_idle _ = false

abbrev pub diff : ℕ → Session → MatchEvent → Diff
diff now s e = record { event = e; phase = s.phase; timestamp = now }

abbrev pub stay : Session → Step
stay s = record { session = s; diffs = [] }

-- A step with changes that came before it.
abbrev pub after : List Diff → Step → Step
after [] r = r
after (d ∷ ds) r = record { session = (after ds r).session; diffs = d ∷ (after ds r).diffs }

-- The constructor.
unfoldable pub new_session : ℕ → Limits → Session
new_session event limits = record {
  event_id = event;
  limits = limits;
  phase = Phase.idle;
  accumulated = [];
  held = none;
  hold_started_at = 0;
  persistent_chunks = 0;
  last_chunk_at = 0;
  dj_track = none;
  recent = [];
  revocation = none;
}

abbrev pub held_track : Option Candidate → Option ℕ
held_track none = none
held_track (some c) = some c.found.track_id

abbrev pub report_reset : ℕ → Phase → Session → Option ℕ → List Diff
report_reset now idle s track = []
report_reset now released s track = []
report_reset now _ s track = diff now s (MatchEvent.released_track track Reason.reset) ∷ []

unfoldable pub reset_session : ℕ → Session → Step
unfolding new_session
reset_session now s = record {
  session = new_session s.event_id s.limits;
  diffs = report_reset now s.phase (new_session s.event_id s.limits) (held_track s.held);
}

-- The candidate with what enrichment found again; the time of its lock stays.
abbrev pub refreshed : Candidate → Candidate → Candidate
refreshed c e = record e { locked_at = c.locked_at }

abbrev pub enriched_of : Candidate → Option Candidate → Candidate
enriched_of top none = record top { context = empty_queue_context }
enriched_of top (some e) = e

-- The same track again.
abbrev pub confirm_hold : ℕ → Bool → Candidate → Phase → Session → Step
confirm_hold now warming c holding s = record {
  session = s;
  diffs = diff now s (MatchEvent.hold_updated c) ∷ [];
}
confirm_hold now false c idle s =
    let next = record s { phase = Phase.holding; hold_started_at = now } in
    record { session = next; diffs = diff now next (MatchEvent.hold_started c) ∷ [] }
confirm_hold now true c idle s = stay s
confirm_hold now warming c locked s = stay s
confirm_hold now warming c released s = stay s

-- The first observation of a track.
abbrev pub begin_hold : ℕ → Bool → Candidate → Session → Step
begin_hold now true c s =
    let next = record s {
      held = some c;
      persistent_chunks = 1;
      phase = Phase.idle;
      hold_started_at = 0;
    } in
    record { session = next; diffs = diff now next (MatchEvent.candidate c) ∷ [] }
begin_hold now false c s =
    let next = record s {
      held = some c;
      persistent_chunks = 1;
      phase = Phase.holding;
      hold_started_at = now;
    } in
    record { session = next; diffs = diff now next (MatchEvent.hold_started c) ∷ [] }

abbrev pub hold_candidate : ℕ → Bool → Candidate → Session → Option Candidate → Step
hold_candidate now warming e s none = begin_hold now warming e s
hold_candidate now warming e s (some c) =
    if c.found.track_id == e.found.track_id
    then confirm_hold now warming (refreshed c e) s.phase
        (record s { held = some (refreshed c e); persistent_chunks = s.persistent_chunks + 1 })
    else after
        (diff now s (
            MatchEvent.released_track (some c.found.track_id)
              (Reason.top_match_changed e.found.track_id))
          ∷ [])
        (begin_hold now warming e s)

unfoldable pub maybe_start_hold : ℕ → Bool → Candidate → List Candidate → Session → Step
maybe_start_hold now warming top enriched s =
    hold_candidate now warming
      (enriched_of top (find? (λ c. c.found.track_id == top.found.track_id) enriched)) s s.held

abbrev pub lock_candidate : ℕ → Session → Phase → Option Candidate → Step
lock_candidate now s _ none = stay s
lock_candidate now s locked (some c) = stay s
lock_candidate now s _ (some c) =
    let c' = record c { locked_at = some now } in
    let next = record s { phase = Phase.locked; held = some c' } in
    record { session = next; diffs = diff now next (MatchEvent.locked c') ∷ [] }

unfoldable pub lock : ℕ → Session → Step
lock now s = lock_candidate now s s.phase s.held

abbrev pub give_up : ℕ → Reason → Session → Option Candidate → Phase → Step
give_up now reason s none idle = stay s
give_up now reason s none _ =
    let next = record s { phase = Phase.idle } in
    record { session = next; diffs = diff now next (MatchEvent.idle reason) ∷ [] }
give_up now reason s (some c) _ =
    let next = record s {
      held = none;
      persistent_chunks = 0;
      hold_started_at = 0;
      phase = Phase.idle;
    } in
    record { session = next; diffs = diff now next (MatchEvent.released c reason) ∷ [] }

unfoldable pub drop_candidate : ℕ → Reason → Session → Step
drop_candidate now reason s =
    give_up now reason (record s { recent = []; revocation = none }) s.held s.phase

-- A timer's call. It needs the hold window and the chunks only where these limits are given.
unfoldable pub evaluate_hold : ℕ → Session → Phase → Option Candidate → Step
unfolding lock
evaluate_hold now s holding (some c) =
    if not_elapsed now s.hold_started_at s.limits.hold_window_ms
    then stay s
    else if under s.persistent_chunks s.limits.min_persistent_chunks
    then stay s
    else lock now s
evaluate_hold now s _ _ = stay s

unfoldable pub re_evaluate : ℕ → Session → Step
unfolding evaluate_hold
re_evaluate now s = evaluate_hold now s s.phase s.held

unfoldable pub follow_dj : ℕ → ℕ → Session → Option Candidate → Step
unfolding lock drop_candidate
follow_dj now t s none = stay s
follow_dj now t s (some c) =
    if t == c.found.track_id
    then lock now s
    else drop_candidate now (Reason.dj_intent_other_track t) s

unfoldable pub apply_dj_intent : ℕ → Option ℕ → Session → Step
unfolding follow_dj
apply_dj_intent now none s = stay s
apply_dj_intent now (some t) s = follow_dj now t (record s { dj_track = some t }) s.held
