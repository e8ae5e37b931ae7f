-- ===== src/Votes/Recount/Ladder.antt =====
-- What the votes do to the status of a song.
use hernan_pedraza_pi_back.Prelude.{
  ℕ, ◌*◌, ◌≤◌, ◌≡◌, ◌↔◌, ◌⊎◌, refl, Bool, true, false, ◌||◌, arith, leb, length, inl, inr,
  if◌then◌else◌,
}
use hernan_pedraza_pi_back.Mongo.{Mongo}
use hernan_pedraza_pi_back.Platform.{Platform}
use hernan_pedraza_pi_back.SongStates.{
  SongStatus, pending, approved, playing, played, rejected, skipped,
}
use hernan_pedraza_pi_back.SongStates.Order.{
  Transition, approve, reject_pending, reject_approved, reject_playing,
}
use hernan_pedraza_pi_back.Models.{Settings, Song, Db}
use hernan_pedraza_pi_back.Participants.Access.{count_active_participants}
use hernan_pedraza_pi_back.Votes.Recount.{
  ladder_threshold, is_pending, is_running, apply_ladder_effects, apply_auto_reject,
  get_auto_reject_threshold, votes_of, recalculated,
}
use hernan_pedraza_pi_back.Votes.Recount.Tally.{ups, downs, recount_lem}

-- The status that the votes call for, given the tests on the two sums.
unfoldable pub verdict : Bool → Bool → SongStatus → SongStatus
verdict out in' pending = if out then rejected else if in' then approved else pending
verdict out in' approved = if out then rejected else approved
verdict out in' playing = if out then rejected else playing
verdict out in' s = s

verdict-Transition :
    (out in' : Bool) (s : SongStatus) → (verdict out in' s ≡ s) ⊎ Transition s (verdict out in' s)
unfolding verdict
verdict-Transition true in' pending = inr reject_pending
verdict-Transition false true pending = inr approve
verdict-Transition false false pending = inl refl
verdict-Transition true in' approved = inr reject_approved
verdict-Transition false in' approved = inl refl
verdict-Transition true in' playing = inr reject_playing
verdict-Transition false in' playing = inl refl
verdict-Transition out in' played = inl refl
verdict-Transition out in' rejected = inl refl
verdict-Transition out in' skipped = inl refl

verdict_rejected_iff :
    (t d l u : ℕ) (s : SongStatus)
    → (is_pending s || is_running s) ≡ true
    → (verdict (leb t d) (leb l u) s ≡ rejected) ↔ (t ≤ d)
unfolding verdict
verdict_rejected_iff t d l u s h = (λ e. ground arith, λ e. ground arith)

verdict_approved_iff :
    (t d l u : ℕ) (s : SongStatus)
    → s ≡ pending
    → (verdict (leb t d) (leb l u) s ≡ approved) ↔ ((l ≤ u) × ¬ (t ≤ d))
unfolding verdict
verdict_approved_iff t d l u s h = (λ e. ground arith, λ e. ground arith)

ladder_status :
    (now threshold : ℕ) (settings : Settings) (song : Song)
    → (apply_auto_reject now threshold (apply_ladder_effects now threshold settings song)).status
      ≡ verdict
          (leb threshold song.downvote_count)
          (leb (ladder_threshold settings) song.vote_score)
          song.status
unfolding apply_auto_reject apply_ladder_effects verdict
ladder_status now threshold settings song = ground arith

module _ (m : Mongo) (env : Platform) (db : Db m) where
  threshold_iff :
      (e d : ℕ)
      → (get_auto_reject_threshold m env db e ≤ d)
        ↔ ((1 ≤ d) × (count_active_participants m env db e ≤ 2 * d))
  unfolding get_auto_reject_threshold
  threshold_iff e d = (λ h. (omega arith, omega arith), λ h. omega arith)

  recalculated-verdict :
      (now : ℕ) (settings : Settings) (song : Song)
      → (recalculated m env now settings song db).status
        ≡ verdict
            (leb
              (get_auto_reject_threshold m env db song.event_id)
              (downs settings (votes_of m env db song.id)))
            (leb (ladder_threshold settings) (ups settings (votes_of m env db song.id)))
            song.status
  unfolding recalculated
  recalculated-verdict now settings song = rw recount_lem (
      ladder_status now (get_auto_reject_threshold m env db song.event_id) settings (record song {
        vote_score = ups settings (votes_of m env db song.id);
        downvote_count = downs settings (votes_of m env db song.id);
        vote_count = length (votes_of m env db song.id);
      }))

-- The verdict in words. Out: at least one downvote, and at least half as many as active attendees.
-- In: at least as many upvotes as the event's ladder asks.
abbrev pub IsVotedOut : (m : Mongo) → Platform → Db m → Settings → Song → Type 0
IsVotedOut m env db settings song =
    let d = downs settings (votes_of m env db song.id) in
    (1 ≤ d) × (count_active_participants m env db song.event_id ≤ 2 * d)

abbrev pub IsVotedIn : (m : Mongo) → Platform → Db m → Settings → Song → Type 0
IsVotedIn m env db settings song =
    ladder_threshold settings ≤ ups settings (votes_of m env db song.id)

-- A recount rejects a song that is pending, approved or playing exactly when it is voted out.
pub recalculated-rejected_iff :
    (m : Mongo) (env : Platform) (db : Db m) (now : ℕ) (settings : Settings) (song : Song)
    → (is_pending song.status || is_running song.status) ≡ true
    → ((recalculated m env now settings song db).status ≡ rejected)
      ↔ IsVotedOut m env db settings song
recalculated-rejected_iff m env db now settings song active =
    let t = threshold_iff m env db song.event_id (downs settings (votes_of m env db song.id)) in
    rw recalculated-verdict (
      let v = verdict_rejected_iff _ _ _ _ song.status active in
      (λ h. t.0 (v.0 h), λ h. v.1 (t.1 h)))

-- A recount approves a pending song exactly when it is voted in and not voted out.
pub recalculated-approved_iff :
    (m : Mongo) (env : Platform) (db : Db m) (now : ℕ) (settings : Settings) (song : Song)
    → song.status ≡ pending
    → ((recalculated m env now settings song db).status ≡ approved)
      ↔ (IsVotedIn m env db settings song × ¬ IsVotedOut m env db settings song)
recalculated-approved_iff m env db now settings song waiting =
    let t = threshold_iff m env db song.event_id (downs settings (votes_of m env db song.id)) in
    rw recalculated-verdict (
      let v = verdict_approved_iff _ _ _ _ song.status waiting in
      (λ h. ((v.0 h).0, λ out. (v.0 h).1 (t.1 out)), λ h. v.1 (h.0, λ out. h.1 (t.0 out))))

-- A recount moves a song along a transition of the state machine, or leaves its status alone.
pub recalculated-Transition :
    (m : Mongo) (env : Platform) (db : Db m) (now : ℕ) (settings : Settings) (song : Song)
    → ((recalculated m env now settings song db).status ≡ song.status)
      ⊎ Transition song.status (recalculated m env now settings song db).status
recalculated-Transition m env db now settings song =
    rw recalculated-verdict (verdict-Transition _ _ song.status)
