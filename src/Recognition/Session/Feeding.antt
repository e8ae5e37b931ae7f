-- ===== src/Recognition/Session/Feeding.antt =====
-- Chunks after each other, from the start of a session.
use hernan_pedraza_pi_back.Prelude.{
  if◌then◌else◌, ℕ, suc, ◌+◌, ◌≡◌, inl, inr, Bool, true, false, Option, none, some, List, [], ◌∷◌,
  ◌++◌, String, leb, all, length, Bool-cases, arith,
}
use hernan_pedraza_pi_back.Mongo.{Mongo}
use hernan_pedraza_pi_back.Platform.{Platform}
use hernan_pedraza_pi_back.Models.{Db}
use hernan_pedraza_pi_back.Songs.Metadata.{Cipher}
use hernan_pedraza_pi_back.Recognition.Thresholds.{Match}
use hernan_pedraza_pi_back.Recognition.Session.State.{
  Hash, SentHash, Limits, Session, Step, sanitize_hashes, new_session, held_track, keep_last,
  is_locked, max_accumulated_hashes, audio_revocation_recent_hash_cap,
}
use hernan_pedraza_pi_back.Recognition.Session.Inputs.{
  with_recent, evaluate_audio_revocation, top_of, add_hashes, add_clean, add_chunk,
}
use hernan_pedraza_pi_back.Recognition.Session.Locks.{
  Steady, waiting, done, SteadyStep, LockedOn, winner-Steady, judge_lock-same, first-Steady,
  locked_with-LockedOn, last-LockedOn,
}

-- A chunk, with the database at that time.
pub record Chunk (m : Mongo) : Type 0 where
  pub db : Db m
  pub now : ℕ
  pub sent : List (Option SentHash)

abbrev pub has_hashes : List Hash → Bool
has_hashes [] = false
has_hashes (h ∷ hs) = true

abbrev pub is_audible : {m : Mongo} → Chunk m → Bool
is_audible c = has_hashes (sanitize_hashes c.sent)

-- The hashes that the matcher is asked about when some come in.
abbrev pub window : Session → List Hash → List Hash
window s hs =
    if is_locked s.phase
    then keep_last audio_revocation_recent_hash_cap (s.recent ++ hs)
    else keep_last max_accumulated_hashes (s.accumulated ++ hs)

module _ (m : Mongo) (env : Platform) (cipher : Cipher) (key_before : String → String → Bool)
    (match_in_ram : ℕ → List Hash → List Match) (event : ℕ) (limits : Limits) (t : ℕ) where
  -- The session after the chunks.
  abbrev pub feed : List (Chunk m) → Session → Session
  feed [] s = s
  feed (c ∷ cs) s =
      feed cs (add_chunk m env cipher key_before match_in_ram c.db c.now c.sent s).session

  -- The track that the matcher hears in some hashes.
  abbrev pub heard_in : Db m → List Hash → Option ℕ
  heard_in db hs =
      held_track (top_of m env cipher key_before match_in_ram db (new_session event limits) hs)

  abbrev pub hears : Chunk m → Session → Option ℕ
  hears c s = heard_in c.db (window s (sanitize_hashes c.sent))

  -- The matcher hears the track whenever one of the chunks asks it, from a session on.
  abbrev pub HearsEach : List (Chunk m) → Session → Type 0
  HearsEach [] s = Unit
  HearsEach (c ∷ cs) s =
      (hears c s ≡ some t)
      × HearsEach cs (add_chunk m env cipher key_before match_in_ram c.db c.now c.sent s).session

  add-Steady :
      (start : ℕ) (db : Db m) (now : ℕ) (h : Hash) (hs : List Hash) {k : ℕ} {s : Session}
      → Steady event limits t start k s
      → heard_in db (window s (h ∷ hs)) ≡ some t
      → SteadyStep event limits t start
          (k + 1)
          (add_hashes m env cipher key_before match_in_ram db now (h ∷ hs) s)
  unfolding add_hashes evaluate_audio_revocation top_of new_session
  add-Steady start db now h hs (waiting a b c k l dj r e) heard =
      winner-Steady event limits t start now k now _ _ _ c dj r e _ heard
  add-Steady start db now h hs (done s c k e) heard =
      judge_lock-same event limits t start (SteadyStep event limits t start (k + 1)) now _
        (with_recent now (h ∷ hs) (record s { event_id = event; limits = limits })) c e _ heard
        (done
          (with_recent now (h ∷ hs)
            (record s { event_id = event; limits = limits; revocation = none }))
          c (k + 1) e)

  begin-Steady :
      (db : Db m) (now : ℕ) (h : Hash) (hs : List Hash)
      → limits.min_match_query_hashes ≡ none
      → heard_in db (window (new_session event limits) (h ∷ hs)) ≡ some t
      → SteadyStep event limits t now 1 (
          add_hashes m env cipher key_before match_in_ram db now
            (h ∷ hs)
            (new_session event limits))
  unfolding add_hashes top_of new_session
  begin-Steady db now h hs lim_h heard = first-Steady event limits t now _ _ _ lim_h _ heard

  end-LockedOn :
      (n w start : ℕ) (db : Db m) (now : ℕ) (h : Hash) (hs : List Hash) {k : ℕ} {s : Session}
      → limits.min_match_query_hashes ≡ none
      → limits.min_persistent_chunks ≡ some n
      → limits.hold_window_ms ≡ some w
      → leb n (k + 1) ≡ true
      → leb (start + w) now ≡ true
      → Steady event limits t start k s
      → heard_in db (window s (h ∷ hs)) ≡ some t
      → LockedOn t (add_hashes m env cipher key_before match_in_ram db now (h ∷ hs) s).session
  unfolding add_hashes evaluate_audio_revocation top_of new_session
  end-LockedOn n w start db now h hs lim_h lim_n lim_w enough late (waiting a b c k l dj r e)
        heard =
      last-LockedOn event limits t start n w now k now _ _ _ c dj r lim_h lim_n lim_w enough late e
        _ heard
  end-LockedOn n w start db now h hs lim_h lim_n lim_w enough late (done s c k e) heard =
      judge_lock-same event limits t start (λ x. LockedOn t x.session) now _
        (with_recent now (h ∷ hs) (record s { event_id = event; limits = limits })) c e _ heard
        (locked_with-LockedOn event limits t start
          (record (with_recent now (h ∷ hs) s) { revocation = none }) c e)

  add_clean_elim :
      (P : Step → Type 0) (db : Db m) (now : ℕ) (s : Session) (xs : List Hash)
      → has_hashes xs ≡ true
      → heard_in db (window s xs) ≡ some t
      → ((h : Hash) (hs : List Hash)
          → heard_in db (window s (h ∷ hs)) ≡ some t
          → P (add_hashes m env cipher key_before match_in_ram db now (h ∷ hs) s))
      → P (add_clean m env cipher key_before match_in_ram db now s xs)
  unfolding add_clean
  add_clean_elim P db now s [] f heard p = ground (arith, f)
  add_clean_elim P db now s (h ∷ hs) f heard p = p h hs heard

  feed-Steady :
      (start k : ℕ) (cs : List (Chunk m)) (s : Session)
      → all is_audible cs ≡ true
      → HearsEach cs s
      → Steady event limits t start k s
      → Steady event limits t start (k + length cs) (feed cs s)
  unfolding add_chunk
  feed-Steady start k [] s f heard x = let e : k ≡ k + 0 = omega arith in rw (← e) x
  feed-Steady start k (c ∷ cs) s f (here, later) x =
      let e : k + suc (length cs) ≡ (k + 1) + length cs = omega arith in
      let fs = Bool-cases (is_audible c) in
      elim fs [
        | inl fc ↦
            let step =
              add_clean_elim (SteadyStep event limits t start (k + 1)) c.db c.now s
                (sanitize_hashes c.sent) fc here
                (λ h hs heard. add-Steady start c.db c.now h hs x heard) in
            rw e (feed-Steady start (k + 1) cs _ (rw fc at f) later step)
        | inr fc ↦ ground (arith, f, fc)
      ]

  -- A session whose caller asks for `n` chunks and a window of `w` milliseconds, and which gets
  -- chunks with hashes, is locked on track `t` when at least `n` chunks have come, the last one came
  -- `w` milliseconds after the first, or later, and in the hashes that each chunk lets the matcher
  -- look at, from the first chunk to the last, it was `t` that won. No minimum of hashes may be set.
  pub steady_track-locks :
      (n w : ℕ)
      → limits.min_match_query_hashes ≡ none
      → limits.min_persistent_chunks ≡ some n
      → limits.hold_window_ms ≡ some w
      → (first : Chunk m) (middle : List (Chunk m)) (last : Chunk m)
      → all is_audible (first ∷ middle) ≡ true
      → is_audible last ≡ true
      → HearsEach (first ∷ middle) (new_session event limits)
      → hears last (feed (first ∷ middle) (new_session event limits)) ≡ some t
      → leb n (2 + length middle) ≡ true
      → leb (first.now + w) last.now ≡ true
      → LockedOn t
          (add_chunk m env cipher key_before match_in_ram last.db last.now last.sent
            (feed (first ∷ middle) (new_session event limits))).session
  unfolding add_chunk
  steady_track-locks n w lim_h lim_n lim_w first middle last ff fl (here, later) heard enough late =
      elim (Bool-cases (is_audible first)) [
        | inr quiet ↦ ground (arith, ff, quiet)
        | inl loud ↦
            let begun =
              add_clean_elim (SteadyStep event limits t first.now 1) first.db first.now
                (new_session event limits) (sanitize_hashes first.sent) loud here
                (λ h hs e. begin-Steady first.db first.now h hs lim_h e) in
            let held = feed-Steady first.now 1 middle _ (rw loud at ff) later begun in
            let count : leb n ((1 + length middle) + 1) ≡ true = (ground (arith, enough)) in
            add_clean_elim (λ x. LockedOn t x.session) last.db last.now _
              (sanitize_hashes last.sent) fl heard
              (λ h hs e.
                end-LockedOn n w first.now last.db last.now h hs lim_h lim_n lim_w count late held
                  e)
      ]
