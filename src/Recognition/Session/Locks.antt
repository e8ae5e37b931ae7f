-- ===== src/Recognition/Session/Locks.antt =====
-- The single steps of a session on the way to a lock on one track.
use hernan_pedraza_pi_back.Prelude.{
  ℕ, ◌+◌, ◌≡◌, refl, ap, ◌∙◌, inl, inr, Bool, true, false, Option, none, some, List, [], ◌∷◌, leb,
  ◌==◌, length, is_some, find?, Bool-cases, ==_refl, if_elim, arith,
}
use hernan_pedraza_pi_back.Recognition.Linker.{Candidate}
use hernan_pedraza_pi_back.Recognition.Session.State.{
  Hash, Phase, Revocation, Limits, Session, Step, stay, is_locked, new_session, held_track, under,
  refreshed, enriched_of, hold_candidate, maybe_start_hold, lock,
}
use hernan_pedraza_pi_back.Recognition.Session.Inputs.{
  ripe, lock_if_ripe, follow_winner, judge_lock,
}

pub enriched_of-track :
    (top : Candidate) (xs : List Candidate)
    → (enriched_of top (find? (λ c. c.found.track_id == top.found.track_id) xs)).found.track_id
      ≡ top.found.track_id
enriched_of-track top [] = refl
enriched_of-track top (x ∷ xs) = elim (Bool-cases (x.found.track_id == top.found.track_id)) [
  | inl same ↦ rw same (ground (arith, same))
  | inr other ↦ rw other (enriched_of-track top xs)
]

pub held_track-some : (t : ℕ) (c : Candidate) → held_track (some c) ≡ some t → c.found.track_id ≡ t
held_track-some t c e = ap (λ o. elim o [ none ↦ t | some x ↦ x ]) e

pub heard_some : (t : ℕ) (o : Option Candidate) → held_track o ≡ some t → is_some o ≡ true
heard_some t none e = ap is_some e
heard_some t (some c) e = refl

-- The lock is on this track.
abbrev pub LockedOn : ℕ → Session → Type 0
LockedOn t s = (is_locked s.phase ≡ true) × (held_track s.held ≡ some t)

module _ (event : ℕ) (limits : Limits) (t start : ℕ) where
  abbrev pub waiting_with :
      List Hash → List Hash → Candidate → ℕ → ℕ → Option ℕ → Option Revocation → Session
  waiting_with a b c k l dj r = record {
    event_id = event;
    limits = limits;
    phase = Phase.holding;
    accumulated = a;
    held = some c;
    hold_started_at = start;
    persistent_chunks = k;
    last_chunk_at = l;
    dj_track = dj;
    recent = b;
    revocation = r;
  }

  abbrev pub locked_with : Session → Candidate → Session
  locked_with s c = record s {
    event_id = event;
    limits = limits;
    phase = Phase.locked;
    held = some c;
  }

  -- A session that waits for its lock on the track after some chunks, or has it.
  pub data Steady : ℕ → Session → Type 0 where
    waiting :
        (a b : List Hash) (c : Candidate) (k l : ℕ) (dj : Option ℕ) (r : Option Revocation)
        → c.found.track_id ≡ t
        → Steady k (waiting_with a b c k l dj r)
    done : (s : Session) (c : Candidate) (k : ℕ) → c.found.track_id ≡ t → Steady k (locked_with s c)

  abbrev pub SteadyStep : ℕ → Step → Type 0
  SteadyStep k x = Steady k x.session

  -- The lock comes at most now.
  pub ripe-Steady :
      (now u : ℕ) {k : ℕ} {s : Session} → Steady k s → SteadyStep k (lock_if_ripe now u s)
  unfolding lock_if_ripe lock
  ripe-Steady now u (waiting a b c k l dj r e) =
      let s = waiting_with a b c k l dj r in
      if_elim (SteadyStep k) (ripe now u s) _ _ (done s (record c { locked_at = some now }) k e)
        (waiting a b c k l dj r e)
  ripe-Steady now u (done s c k e) = done s c k e

  -- The track was heard again.
  again-Steady :
      (now k l : ℕ) (warming : Bool) (a b : List Hash) (c d : Candidate) (dj : Option ℕ)
      (r : Option Revocation)
      → c.found.track_id ≡ t
      → d.found.track_id ≡ t
      → SteadyStep (k + 1) (hold_candidate now warming d (waiting_with a b c k l dj r) (some c))
  again-Steady now k l warming a b c d dj r e f =
      let same : (c.found.track_id == d.found.track_id) ≡ true = (rw (e, f) (==_refl t)) in
      rw same (waiting a b (refreshed c d) (k + 1) l dj r f)

  pub winner-Steady :
      (now k l : ℕ) (enriched : List Candidate) (a b : List Hash) (c : Candidate) (dj : Option ℕ)
      (r : Option Revocation)
      → c.found.track_id ≡ t
      → (top : Option Candidate) → held_track top ≡ some t
      → SteadyStep (k + 1) (follow_winner now enriched (waiting_with a b c k l dj r) top)
  unfolding follow_winner maybe_start_hold
  winner-Steady now k l enriched a b c dj r e none f = ground (arith, heard_some t none f)
  winner-Steady now k l enriched a b c dj r e (some top) f =
      let d = enriched_of top (find? (λ x. x.found.track_id == top.found.track_id) enriched) in
      let g : d.found.track_id ≡ t = enriched_of-track top enriched ∙ held_track-some t top f in
      if_elim (SteadyStep (k + 1)) (under (length a) limits.min_match_query_hashes) _ _
        (again-Steady now k l true a b c d dj r e g)
        (ripe-Steady now top.found.track_id (again-Steady now k l false a b c d dj r e g))

  -- The recent audio is the locked track's.
  pub judge_lock-same :
      (P : Step → Type 0) (now : ℕ) (enriched : List Candidate) (s : Session) (c : Candidate)
      → c.found.track_id ≡ t
      → (top : Option Candidate) → held_track top ≡ some t
      → P (stay (record (locked_with s c) { revocation = none }))
      → P (judge_lock now enriched (locked_with s c) top (some c))
  unfolding judge_lock
  judge_lock-same P now enriched s c e none f p = ground (arith, heard_some t none f)
  judge_lock-same P now enriched s c e (some top) f p =
      let same : (top.found.track_id == c.found.track_id) ≡ true =
        (rw (e, held_track-some t top f) (==_refl t)) in
      rw same p

  -- The first chunk starts to hold the track.
  pub first-Steady :
      (enriched : List Candidate) (a b : List Hash)
      → limits.min_match_query_hashes ≡ none
      → (top : Option Candidate) → held_track top ≡ some t
      → SteadyStep 1 (
          follow_winner start enriched
            (record (new_session event limits) {
              accumulated = a;
              recent = b;
              last_chunk_at = start;
            })
            top)
  unfolding follow_winner maybe_start_hold new_session
  first-Steady enriched a b lim_h none f = ground (arith, heard_some t none f)
  first-Steady enriched a b lim_h (some top) f =
      let d = enriched_of top (find? (λ x. x.found.track_id == top.found.track_id) enriched) in
      let g : d.found.track_id ≡ t = enriched_of-track top enriched ∙ held_track-some t top f in
      let warm : under (length a) limits.min_match_query_hashes ≡ false = (rw lim_h refl) in
      rw warm (ripe-Steady start top.found.track_id (waiting a b d 1 start none none g))

  pub locked_with-LockedOn :
      (s : Session) (c : Candidate) → c.found.track_id ≡ t → LockedOn t (locked_with s c)
  locked_with-LockedOn s c e = (refl, ap some e)

  -- The chunk that completes the hold.
  pub last-LockedOn :
      (n w now k l : ℕ) (enriched : List Candidate) (a b : List Hash) (c : Candidate)
      (dj : Option ℕ) (r : Option Revocation)
      → limits.min_match_query_hashes ≡ none
      → limits.min_persistent_chunks ≡ some n
      → limits.hold_window_ms ≡ some w
      → leb n (k + 1) ≡ true
      → leb (start + w) now ≡ true
      → c.found.track_id ≡ t
      → (top : Option Candidate) → held_track top ≡ some t
      → LockedOn t (follow_winner now enriched (waiting_with a b c k l dj r) top).session
  unfolding follow_winner maybe_start_hold lock_if_ripe lock
  last-LockedOn n w now k l enriched a b c dj r lim_h lim_n lim_w enough late e none f =
      ground (arith, heard_some t none f)
  last-LockedOn n w now k l enriched a b c dj r lim_h lim_n lim_w enough late e (some top) f =
      let d = enriched_of top (find? (λ x. x.found.track_id == top.found.track_id) enriched) in
      let ft : top.found.track_id ≡ t = held_track-some t top f in
      let g : d.found.track_id ≡ t = enriched_of-track top enriched ∙ ft in
      let same : (c.found.track_id == d.found.track_id) ≡ true = (rw (e, g) (==_refl t)) in
      let ready : ripe now top.found.track_id (waiting_with a b (refreshed c d) (k + 1) l dj r)
          ≡ true =
        (rw (g, ft, ==_refl t, lim_n, lim_w, enough, late)) in
      rw (lim_h, same, ready) (refl, ap some g)
