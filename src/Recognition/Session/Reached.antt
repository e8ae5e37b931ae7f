-- ===== src/Recognition/Session/Reached.antt =====
-- The sessions that any inputs lead to, with any database, matcher and clock.
use hernan_pedraza_pi_back.Prelude.{
  ℕ, zero, suc, ◌+◌, ◌-◌, ◌≡◌, refl, inl, inr, Bool, true, false, not, ◌&&◌, ◌||◌, Option, none,
  some, List, [], ◌∷◌, ◌++◌, String, ltb, leb, ◌==◌, length, drop, str_eq, Bool-cases, if_elim,
  arith,
}
use hernan_pedraza_pi_back.Mongo.{Mongo}
use hernan_pedraza_pi_back.Platform.{Platform}
use hernan_pedraza_pi_back.Models.{Db}
use hernan_pedraza_pi_back.Songs.Metadata.{Cipher}
use hernan_pedraza_pi_back.Recognition.Thresholds.{Match}
use hernan_pedraza_pi_back.Recognition.Linker.{QueueContext, Candidate, Target}
use hernan_pedraza_pi_back.Recognition.Session.State.{
  Hash, SentHash, Phase, Reason, Revocation, Limits, Session, keep_last, sanitize_hashes, is_locked,
  new_session, drop_candidate, max_accumulated_hashes, audio_revocation_recent_hash_cap,
  reset_session, re_evaluate, apply_dj_intent, under,
}
use hernan_pedraza_pi_back.Recognition.Session.Inputs.{
  QueueEvent, target_track, follow_winner, lock_if_ripe, ripe, with_chunk, with_recent, revoke,
  revoke_if_enough, confirm_revocation, judge_lock, follow_target, follow_event, refresh_context,
  refresh_candidate, is_finished, follow_queue, evaluate_audio_revocation, add_hashes, add_clean,
  add_chunk, apply_queue_event, is_leave_event, queue_context_changed,
}
use hernan_pedraza_pi_back.Recognition.Session.Shape.{
  fits, bounded, WellFormed, Sound, lock-WellFormed, drop-WellFormed, hold-WellFormed,
  reset-WellFormed, evaluate-WellFormed, dj-WellFormed,
}

pub length-drop : (n : ℕ) (xs : List Hash) → length (drop n xs) ≡ length xs - n
length-drop zero xs = omega arith
length-drop (suc n) [] = omega arith
length-drop (suc n) (x ∷ xs) = let rest = length-drop n xs in omega (arith, rest)

length-keep_last : (n : ℕ) (xs : List Hash) → leb (length (keep_last n xs)) n ≡ true
length-keep_last n xs = elim (Bool-cases (ltb n (length xs))) [
  | inl long ↦
      let shorter = length-drop (length xs - n) xs in rw long (ground (arith, long, shorter))
  | inr short ↦ rw short (ground (arith, short))
]

bounded-windows :
    (xs ys : List Hash)
    → bounded (keep_last max_accumulated_hashes xs) (keep_last audio_revocation_recent_hash_cap ys)
      ≡ true
bounded-windows xs ys =
    let a = length-keep_last max_accumulated_hashes xs in
    let b = length-keep_last audio_revocation_recent_hash_cap ys in rw (a, b)

bounded-recent :
    (xs ys : List Hash)
    → bounded xs ys ≡ true
    → (zs : List Hash) → bounded xs (keep_last audio_revocation_recent_hash_cap zs) ≡ true
bounded-recent xs ys b zs =
    let new = length-keep_last audio_revocation_recent_hash_cap zs in ground (arith, b, new)

bounded-seed : (xs ys : List Hash) → bounded xs ys ≡ true → bounded ys [] ≡ true
bounded-seed xs ys b = ground (arith, b)

lock_if_ripe-WellFormed : (now t : ℕ) (s : Session) → WellFormed s → Sound (lock_if_ripe now t s)
unfolding lock_if_ripe
lock_if_ripe-WellFormed now t s w = if_elim Sound (ripe now t s) _ _ (lock-WellFormed now s w) w

-- Without a lock.
winner-WellFormed :
    (now : ℕ) (enriched : List Candidate) (s : Session) (top : Option Candidate)
    → WellFormed (record s { revocation = none })
    → Sound (follow_winner now enriched (record s { revocation = none }) top)
unfolding follow_winner
winner-WellFormed now enriched s none w =
    drop-WellFormed now Reason.no_candidate (record s { revocation = none }) w.bound
winner-WellFormed now enriched s (some top) w =
    if_elim Sound (under (length s.accumulated) s.limits.min_match_query_hashes) _ _
      (hold-WellFormed now true top enriched s w)
      (lock_if_ripe-WellFormed now top.found.track_id _
        (hold-WellFormed now false top enriched s w))

-- The state of a lock.
locked-WellFormed :
    (s : Session) (c : Candidate) (r : Option Revocation)
    → bounded s.accumulated s.recent ≡ true
    → WellFormed (record s { phase = Phase.locked; held = some c; revocation = r })
locked-WellFormed s c r b = record { shape = refl; bound = b }

-- A lock, perhaps in doubt.
abbrev lock_on : Candidate → Option Revocation → Session → Session
lock_on c r s = record s { phase = Phase.locked; held = some c; revocation = r }

revoke-WellFormed :
    (now : ℕ) (top : Candidate) (enriched : List Candidate) (s : Session) (c : Candidate)
    (r : Option Revocation)
    → bounded s.accumulated s.recent ≡ true
    → Sound (revoke now top enriched (lock_on c r s))
unfolding revoke drop_candidate
revoke-WellFormed now top enriched s c r b =
    hold-WellFormed now false top enriched
      (record s {
        phase = Phase.idle;
        held = none;
        hold_started_at = 0;
        persistent_chunks = 0;
        accumulated = s.recent;
        recent = [];
        revocation = none;
      })
      (record { shape = refl; bound = bounded-seed s.accumulated s.recent b })

suspicion-WellFormed :
    (now : ℕ) (top : Candidate) (enriched : List Candidate) (s : Session) (c : Candidate)
    (r : Option Revocation)
    → bounded s.accumulated s.recent ≡ true
    → Sound (confirm_revocation now top enriched (lock_on c r s) r)
unfolding confirm_revocation revoke_if_enough
suspicion-WellFormed now top enriched s c none b = locked-WellFormed s c _ b
suspicion-WellFormed now top enriched s c (some r) b =
    let again = record r { confirmations = r.confirmations + 1 } in
    if_elim Sound (r.track_id == top.found.track_id) _ _
      (if_elim Sound
        (ltb again.confirmations s.limits.required_confirmations
          || ltb now (r.first_seen_at + s.limits.min_elapsed_ms))
        _ _ (locked-WellFormed s c _ b) (revoke-WellFormed now top enriched s c (some again) b))
      (locked-WellFormed s c _ b)

judge_lock-WellFormed :
    (now : ℕ) (enriched : List Candidate) (s : Session) (top : Option Candidate) (c : Candidate)
    (r : Option Revocation)
    → bounded s.accumulated s.recent ≡ true
    → Sound (judge_lock now enriched (lock_on c r s) top (some c))
unfolding judge_lock
judge_lock-WellFormed now enriched s none c r b = locked-WellFormed s c none b
judge_lock-WellFormed now enriched s (some top) c r b =
    if_elim Sound (top.found.track_id == c.found.track_id) _ _ (locked-WellFormed s c none b)
      (suspicion-WellFormed now top enriched s c r b)

-- The queue.
target-WellFormed :
    (now : ℕ) (target : Option Target) (s : Session) (h : Option Candidate) (t : Option ℕ)
    → WellFormed s
    → Sound (follow_target now target s h t)
unfolding follow_target
target-WellFormed now target s (some c) none w =
    if_elim Sound (not (is_locked s.phase) && not c.context.has_playing) _ _
      (drop-WellFormed now Reason.no_queue_target s w.bound) w
target-WellFormed now (some target) s (some c) (some t) w =
    if_elim Sound (not (t == c.found.track_id) && (not c.context.has_playing || is_locked s.phase))
      _ _ (drop-WellFormed now (Reason.queue_target_changed target) s w.bound) w
target-WellFormed now none s (some c) (some t) w = w
target-WellFormed now none s none t w = w
target-WellFormed now (some target) s none t w = w

event-WellFormed :
    (now : ℕ) (event : QueueEvent) (s : Session) (h : Option Candidate) (t : Option ℕ)
    → WellFormed s
    → Sound (follow_event now event s h t)
unfolding follow_event
event-WellFormed now event s none t w = w
event-WellFormed now event s (some c) none w = w
event-WellFormed now event s (some c) (some t) w =
    if_elim Sound (str_eq event.kind "song_now_playing") _ _
      (if_elim Sound (t == c.found.track_id) _ _ (lock-WellFormed now s w)
        (drop-WellFormed now (Reason.dj_sent_different_track t event.song_id) s w.bound))
      (if_elim Sound
        ((is_locked s.phase && c.context.has_playing)
          && (is_leave_event event.kind && t == c.found.track_id))
        _ _ (drop-WellFormed now (Reason.candidate_left_playing event.kind) s w.bound) w)

fits-held :
    (p : Phase) (c d : Candidate) (r : Option Revocation)
    → fits p (some c) r ≡ true
    → fits p (some d) r ≡ true
fits-held Phase.idle c d none e = refl
fits-held Phase.idle c d (some x) e = e
fits-held Phase.holding c d none e = refl
fits-held Phase.holding c d (some x) e = e
fits-held Phase.locked c d r e = refl
fits-held Phase.released c d r e = e

refresh-WellFormed :
    (now : ℕ) (context_of : Candidate → QueueContext) (s : Session) (h : Option Candidate)
    → WellFormed (record s { held = h })
    → Sound (refresh_candidate now context_of (record s { held = h }) h)
unfolding refresh_candidate refresh_context
refresh-WellFormed now context_of s none w = w
refresh-WellFormed now context_of s (some c) w =
    let d = record c { context = context_of c } in
    let kept : WellFormed (record s { held = some d }) = record {
      shape = fits-held s.phase c d s.revocation w.shape;
      bound = w.bound;
    } in
    if_elim Sound
      (is_locked s.phase && (not (context_of c).has_playing && not (context_of c).has_approved)) _ _
      (drop-WellFormed now Reason.candidate_left_queue (record s { held = some d }) w.bound)
      (if_elim Sound (queue_context_changed c.context (context_of c)) _ _ kept kept)

queue-WellFormed :
    (now : ℕ) (target : Option Target) (context_of : Candidate → QueueContext) (event : QueueEvent)
    (s : Session)
    → WellFormed s
    → Sound (follow_queue now target context_of event s)
unfolding follow_queue
queue-WellFormed now target context_of event s w =
    let first = follow_target now target s s.held (target_track target) in
    let a = target-WellFormed now target s s.held (target_track target) w in
    let second = follow_event now event first.session first.session.held event.track_id in
    let b = event-WellFormed now event first.session first.session.held event.track_id a in
    if_elim Sound (is_finished now s s.held) _ _
      (drop-WellFormed now (Reason.candidate_duration_elapsed event.kind) s w.bound)
      (refresh-WellFormed now context_of second.session second.session.held b)

-- A session with these three fields.
abbrev put : Phase → Option Candidate → Option Revocation → Session → Session
put p h r s = record s { phase = p; held = h; revocation = r }

module _ (m : Mongo) (env : Platform) (cipher : Cipher) (key_before : String → String → Bool)
    (match_in_ram : ℕ → List Hash → List Match) where
  chunk-put :
      (db : Db m) (now : ℕ) (hs : List Hash) (s : Session) (p : Phase) (h : Option Candidate)
      (r : Option Revocation)
      → WellFormed (put p h r s)
      → Sound (add_hashes m env cipher key_before match_in_ram db now hs (put p h r s))
  unfolding add_hashes evaluate_audio_revocation
  chunk-put db now hs s Phase.idle h none w =
      winner-WellFormed now _ (record (with_chunk now hs s) { phase = Phase.idle; held = h }) _
        (record { shape = refl; bound = bounded-windows (s.accumulated ++ hs) (s.recent ++ hs) })
  chunk-put db now hs s Phase.idle h (some x) w = ground (arith, w.shape)
  chunk-put db now hs s Phase.holding (some c) none w =
      winner-WellFormed now _
        (record (with_chunk now hs s) { phase = Phase.holding; held = some c }) _
        (record { shape = refl; bound = bounded-windows (s.accumulated ++ hs) (s.recent ++ hs) })
  chunk-put db now hs s Phase.holding (some c) (some x) w = ground (arith, w.shape)
  chunk-put db now hs s Phase.holding none r w = ground (arith, w.shape)
  chunk-put db now hs s Phase.locked (some c) r w =
      judge_lock-WellFormed now _ (with_recent now hs s) _ c r
        (bounded-recent s.accumulated s.recent w.bound (s.recent ++ hs))
  chunk-put db now hs s Phase.locked none r w = ground (arith, w.shape)
  chunk-put db now hs s Phase.released h r w = ground (arith, w.shape)

  clean-WellFormed :
      (db : Db m) (now : ℕ) (s : Session) (hs : List Hash)
      → WellFormed s
      → Sound (add_clean m env cipher key_before match_in_ram db now s hs)
  unfolding add_clean
  clean-WellFormed db now s [] w =
      if_elim WellFormed (is_locked s.phase) _ _ (record { shape = w.shape; bound = w.bound }) w
  clean-WellFormed db now s (h ∷ hs) w = chunk-put db now (h ∷ hs) s s.phase s.held s.revocation w

  -- The session of a socket, from its start by any inputs; the database changes in between.
  pub data Reached (event : ℕ) (limits : Limits) : Session → Type 0 where
    start : Reached event limits (new_session event limits)
    chunk :
        {s : Session} (db : Db m) (now : ℕ) (sent : List (Option SentHash))
        → Reached event limits s
        → Reached event limits
            (add_chunk m env cipher key_before match_in_ram db now sent s).session
    evaluate :
        {s : Session} (now : ℕ)
        → Reached event limits s
        → Reached event limits (re_evaluate now s).session
    queue :
        {s : Session} (db : Db m) (now : ℕ) (e : QueueEvent)
        → Reached event limits s
        → Reached event limits
            (apply_queue_event m env cipher key_before match_in_ram db now e s).session
    intend :
        {s : Session} (now : ℕ) (t : Option ℕ)
        → Reached event limits s
        → Reached event limits (apply_dj_intent now t s).session
    restart :
        {s : Session} (now : ℕ)
        → Reached event limits s
        → Reached event limits (reset_session now s).session

  -- However a session is reached by chunks, timers, events of the queue, intents of the DJ and resets: a hold
  -- and a lock have a candidate, only a lock has a rival track in view, the state `released` does not
  -- occur, and the windows hold at most 5000 and 4000 hashes.
  pub Reached-WellFormed :
      {event : ℕ} {limits : Limits} {s : Session} → Reached event limits s → WellFormed s
  unfolding new_session add_chunk apply_queue_event
  Reached-WellFormed start = record { shape = refl; bound = ground arith }
  Reached-WellFormed {s = s} (chunk db now sent r) =
      clean-WellFormed db now _ (sanitize_hashes sent) (Reached-WellFormed r)
  Reached-WellFormed (evaluate now r) = evaluate-WellFormed now _ (Reached-WellFormed r)
  Reached-WellFormed (queue db now e r) =
      let w = Reached-WellFormed r in
      if_elim Sound (str_eq e.kind "") _ _ w (queue-WellFormed now _ _ e _ w)
  Reached-WellFormed (intend now t r) = dj-WellFormed now t _ (Reached-WellFormed r)
  Reached-WellFormed (restart now r) = reset-WellFormed now _
