-- ===== src/Recognition/Registry.antt =====
-- src/services/audio-recognition/match-session-registry.js: the sessions of the sockets, by event.
-- An entry stands for its set's member: the key of the bucket, and whether it has an emitter.
use hernan_pedraza_pi_back.Prelude.{
  ℕ, ◌≡◌, refl, ap, inl, inr, Bool, true, false, not, ◌&&◌, ◌||◌, Option, none, some, List, [], ◌∷◌,
  ◌++◌, String, ◌==◌, is_id, is_some, filter, all, map, Bool-cases, arith, if◌then◌else◌,
}
use hernan_pedraza_pi_back.Mongo.{Mongo}
use hernan_pedraza_pi_back.Platform.{Platform}
use hernan_pedraza_pi_back.Models.{Db}
use hernan_pedraza_pi_back.Songs.Metadata.{Cipher}
use hernan_pedraza_pi_back.Recognition.Thresholds.{Match}
use hernan_pedraza_pi_back.Recognition.Linker.{Candidate}
use hernan_pedraza_pi_back.Recognition.Session.State.{
  Hash, Phase, Diff, Session, Step, is_locked, held_track, lock, lock_candidate, drop_candidate,
  apply_dj_intent, follow_dj,
}
use hernan_pedraza_pi_back.Recognition.Session.Inputs.{QueueEvent, apply_queue_event}

pub record Entry : Type 0 where
  pub key : ℕ
  pub socket : ℕ
  pub listens : Bool
  pub session : Session

-- `register` adds an entry; the function that it returns deletes it.
unfoldable pub register : ℕ → ℕ → Bool → Session → List Entry → List Entry
register e socket listens s xs =
    xs ++ record { key = e; socket = socket; listens = listens; session = s } ∷ []

unfoldable pub unregister : ℕ → ℕ → List Entry → List Entry
unregister e socket xs = filter (λ x. not (x.key == e && x.socket == socket)) xs

unfoldable pub list_sessions : ℕ → List Entry → List Session
list_sessions e xs = map (λ x. x.session) (filter (λ x. x.key == e) xs)

unfoldable pub clear_sessions : ℕ → List Entry → List Entry
clear_sessions e xs = filter (λ x. not (x.key == e)) xs

-- A broadcast leaves the entries, and for each session of the event its socket, whether the
-- socket was told, and the changes.
pub record Told : Type 0 where
  pub socket : ℕ
  pub emitted : Bool
  pub diffs : List Diff

pub record Broadcast : Type 0 where
  pub entries : List Entry
  pub told : List Told

abbrev pub is_filled_diffs : List Diff → Bool
is_filled_diffs [] = false
is_filled_diffs (d ∷ ds) = true

abbrev pub told_of : Entry → Step → Told
told_of x r = record {
  socket = x.socket;
  emitted = x.listens && is_filled_diffs r.diffs;
  diffs = r.diffs;
}

-- for (const entry of entries(eventId)): a change of the sessions of one event.
abbrev pub to_event : ℕ → (Session → Step) → List Entry → Broadcast
to_event e f [] = record { entries = []; told = [] }
to_event e f (x ∷ xs) =
    let rest = to_event e f xs in
    if x.key == e
    then record {
      entries = record x { session = (f x.session).session } ∷ rest.entries;
      told = told_of x (f x.session) ∷ rest.told;
    }
    else record { entries = x ∷ rest.entries; told = rest.told }

unfoldable pub apply_dj_intent_to_event : ℕ → ℕ → Option ℕ → List Entry → Broadcast
apply_dj_intent_to_event now e t xs = to_event e (apply_dj_intent now t) xs

-- No candidate, or a lock on this track.
abbrev pub heeds : ℕ → Session → Bool
heeds t s = not (is_some s.held) || (is_id (held_track s.held) t && is_locked s.phase)

lock-heeds :
    (now t : ℕ) (s : Session) (p : Phase) (c : Candidate)
    → (t == c.found.track_id) ≡ true
    → heeds t (lock_candidate now (record s { phase = p; held = some c }) p (some c)).session ≡ true
lock-heeds now t s Phase.idle c e = ground (arith, e)
lock-heeds now t s Phase.holding c e = ground (arith, e)
lock-heeds now t s Phase.locked c e = ground (arith, e)
lock-heeds now t s Phase.released c e = ground (arith, e)

follow-heeds :
    (now t : ℕ) (s : Session) (h : Option Candidate)
    → heeds t (follow_dj now t (record s { held = h }) h).session ≡ true
unfolding follow_dj lock drop_candidate
follow-heeds now t s none = refl
follow-heeds now t s (some c) = elim (Bool-cases (t == c.found.track_id)) [
  | inl same ↦ rw same (lock-heeds now t s s.phase c same)
  | inr other ↦ rw other refl
]

-- Once the DJ sends a track, every session of the event has no candidate or is locked on that track,
-- whatever its state was; the sessions of other events are as they were.
pub apply_dj_intent_to_event-heeds :
    (now e t : ℕ) (xs : List Entry)
    → (all
          (λ x. not (x.key == e) || heeds t x.session)
          (apply_dj_intent_to_event now e (some t) xs).entries
        ≡ true)
      × (filter (λ x. not (x.key == e)) (apply_dj_intent_to_event now e (some t) xs).entries
          ≡ filter (λ x. not (x.key == e)) xs)
unfolding apply_dj_intent_to_event apply_dj_intent
apply_dj_intent_to_event-heeds now e t [] = (refl, refl)
apply_dj_intent_to_event-heeds now e t (x ∷ xs) =
    let (heeded, others) = apply_dj_intent_to_event-heeds now e t xs in
    elim (Bool-cases (x.key == e)) [
      | inl same ↦
          let here = follow-heeds now t (record x.session { dj_track = some t }) x.session.held in
          (rw (same, same, here) heeded, rw (same, same) others)
      | inr other ↦ (rw (other, other) heeded, rw (other, other) (ap (λ ys. x ∷ ys) others))
    ]

module _ (m : Mongo) (env : Platform) (cipher : Cipher) (key_before : String → String → Bool)
    (match_in_ram : ℕ → List Hash → List Match) where
  unfoldable pub apply_queue_event_to_event : Db m → ℕ → ℕ → QueueEvent → List Entry → Broadcast
  apply_queue_event_to_event db now e event xs =
      to_event e (apply_queue_event m env cipher key_before match_in_ram db now event) xs
