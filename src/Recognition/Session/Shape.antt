-- ===== src/Recognition/Session/Shape.antt =====
-- The shape of a session: its phase, candidate and rival track together, and the sizes of its
-- windows of hashes.
use hernan_pedraza_pi_back.Prelude.{
  ℕ, ◌+◌, ◌≡◌, refl, Bool, true, false, ◌&&◌, Option, none, some, List, [], leb, ◌==◌, find?,
  length, if_elim, arith,
}
use hernan_pedraza_pi_back.Recognition.Linker.{Candidate}
use hernan_pedraza_pi_back.Recognition.Session.State.{
  Hash, Phase, Reason, Revocation, Session, Step, max_accumulated_hashes,
  audio_revocation_recent_hash_cap, lock, lock_candidate, drop_candidate, give_up, refreshed,
  enriched_of, confirm_hold, begin_hold, hold_candidate, maybe_start_hold, new_session,
  reset_session, re_evaluate, evaluate_hold, not_elapsed, under, follow_dj, apply_dj_intent,
}

abbrev pub fits : Phase → Option Candidate → Option Revocation → Bool
fits Phase.idle _ none = true
fits Phase.holding (some c) none = true
fits Phase.locked (some c) _ = true
fits _ _ _ = false

abbrev pub bounded : List Hash → List Hash → Bool
bounded accumulated recent =
    leb (length accumulated) max_accumulated_hashes
    && leb (length recent) audio_revocation_recent_hash_cap

pub record WellFormed (s : Session) : Type 0 where
  pub shape : fits s.phase s.held s.revocation ≡ true
  pub bound : bounded s.accumulated s.recent ≡ true

abbrev pub Sound : Step → Type 0
Sound r = WellFormed r.session

-- A session with these three fields.
abbrev put : Phase → Option Candidate → Option Revocation → Session → Session
put p h r s = record s { phase = p; held = h; revocation = r }

lock-put :
    (now : ℕ) (s : Session) (p : Phase) (h : Option Candidate) (r : Option Revocation)
    → WellFormed (put p h r s)
    → WellFormed (lock_candidate now (put p h r s) p h).session
lock-put now s p none r w = w
lock-put now s Phase.locked (some c) r w = w
lock-put now s Phase.idle (some c) r w = record { shape = refl; bound = w.bound }
lock-put now s Phase.holding (some c) r w = record { shape = refl; bound = w.bound }
lock-put now s Phase.released (some c) r w = record { shape = refl; bound = w.bound }

pub lock-WellFormed : (now : ℕ) (s : Session) → WellFormed s → WellFormed (lock now s).session
unfolding lock
lock-WellFormed now s w = lock-put now s s.phase s.held s.revocation w

bounded-empty :
    (accumulated recent : List Hash)
    → bounded accumulated recent ≡ true
    → bounded accumulated [] ≡ true
bounded-empty accumulated recent b = ground (arith, b)

drop-put :
    (now : ℕ) (reason : Reason) (s : Session) (p : Phase) (h : Option Candidate)
    → bounded s.accumulated s.recent ≡ true
    → WellFormed (give_up now reason (put p h none (record s { recent = [] })) h p).session
drop-put now reason s Phase.idle none b = record {
  shape = refl;
  bound = bounded-empty s.accumulated s.recent b;
}
drop-put now reason s Phase.holding none b = record {
  shape = refl;
  bound = bounded-empty s.accumulated s.recent b;
}
drop-put now reason s Phase.locked none b = record {
  shape = refl;
  bound = bounded-empty s.accumulated s.recent b;
}
drop-put now reason s Phase.released none b = record {
  shape = refl;
  bound = bounded-empty s.accumulated s.recent b;
}
drop-put now reason s p (some c) b = record {
  shape = refl;
  bound = bounded-empty s.accumulated s.recent b;
}

pub drop-WellFormed :
    (now : ℕ) (reason : Reason) (s : Session)
    → bounded s.accumulated s.recent ≡ true
    → WellFormed (drop_candidate now reason s).session
unfolding drop_candidate
drop-WellFormed now reason s b = drop-put now reason s s.phase s.held b

confirm-put :
    (now : ℕ) (warming : Bool) (c : Candidate) (s : Session) (p : Phase) (h : Option Candidate)
    → WellFormed (put p h none s)
    → WellFormed (confirm_hold now warming c p (put p (some c) none s)).session
confirm-put now warming c s Phase.holding h w = record { shape = refl; bound = w.bound }
confirm-put now false c s Phase.idle h w = record { shape = refl; bound = w.bound }
confirm-put now true c s Phase.idle h w = record { shape = refl; bound = w.bound }
confirm-put now warming c s Phase.locked h w = record { shape = refl; bound = w.bound }
confirm-put now warming c s Phase.released h w = ground (arith, w.shape)

begin-put :
    (now : ℕ) (warming : Bool) (c : Candidate) (s : Session) (p : Phase) (h : Option Candidate)
    → WellFormed (put p h none s)
    → WellFormed (begin_hold now warming c (put p h none s)).session
begin-put now true c s p h w = record { shape = refl; bound = w.bound }
begin-put now false c s p h w = record { shape = refl; bound = w.bound }

hold-put :
    (now : ℕ) (warming : Bool) (e : Candidate) (s : Session) (p : Phase) (h : Option Candidate)
    → WellFormed (put p h none s)
    → WellFormed (hold_candidate now warming e (put p h none s) h).session
hold-put now warming e s p none w = begin-put now warming e s p none w
hold-put now warming e s p (some c) w =
    if_elim Sound (c.found.track_id == e.found.track_id) _ _
      (confirm-put now warming (refreshed c e)
        (record s { persistent_chunks = s.persistent_chunks + 1 }) p (some c)
        (record { shape = w.shape; bound = w.bound }))
      (begin-put now warming e s p (some c) w)

-- Outside a lock nothing is doubted.
pub hold-WellFormed :
    (now : ℕ) (warming : Bool) (top : Candidate) (enriched : List Candidate) (s : Session)
    → WellFormed (record s { revocation = none })
    → WellFormed
        (maybe_start_hold now warming top enriched (record s { revocation = none })).session
unfolding maybe_start_hold
hold-WellFormed now warming top enriched s w =
    hold-put now warming
      (enriched_of top (find? (λ c. c.found.track_id == top.found.track_id) enriched)) s s.phase
      s.held w

pub reset-WellFormed : (now : ℕ) (s : Session) → WellFormed (reset_session now s).session
unfolding reset_session new_session
reset-WellFormed now s = record { shape = refl; bound = ground arith }

evaluate-put :
    (now : ℕ) (s : Session) (p : Phase) (h : Option Candidate)
    → WellFormed s
    → WellFormed (evaluate_hold now s p h).session
unfolding evaluate_hold
evaluate-put now s Phase.idle h w = w
evaluate-put now s Phase.locked h w = w
evaluate-put now s Phase.released h w = w
evaluate-put now s Phase.holding none w = w
evaluate-put now s Phase.holding (some c) w =
    if_elim Sound (not_elapsed now s.hold_started_at s.limits.hold_window_ms) _ _ w (
      if_elim Sound (under s.persistent_chunks s.limits.min_persistent_chunks) _ _ w
        (lock-WellFormed now s w))

pub evaluate-WellFormed :
    (now : ℕ) (s : Session) → WellFormed s → WellFormed (re_evaluate now s).session
unfolding re_evaluate
evaluate-WellFormed now s w = evaluate-put now s s.phase s.held w

dj-put :
    (now t : ℕ) (s : Session) (h : Option Candidate)
    → WellFormed s
    → WellFormed (follow_dj now t s h).session
unfolding follow_dj
dj-put now t s none w = w
dj-put now t s (some c) w =
    if_elim Sound (t == c.found.track_id) _ _ (lock-WellFormed now s w)
      (drop-WellFormed now _ s w.bound)

pub dj-WellFormed :
    (now : ℕ) (t : Option ℕ) (s : Session)
    → WellFormed s
    → WellFormed (apply_dj_intent now t s).session
unfolding apply_dj_intent
dj-WellFormed now none s w = w
dj-WellFormed now (some t) s w =
    dj-put now t (record s { dj_track = some t }) s.held
      (record { shape = w.shape; bound = w.bound })
