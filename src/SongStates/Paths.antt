-- ===== src/SongStates/Paths.antt =====
-- Sequences of accepted transitions: they are short, they never come back, and they end exactly
-- in the states that the code calls terminal.
use hernan_pedraza_pi_back.Prelude.{
  ℕ, ◌+◌, ◌≤◌, ◌<◌, ◌≡◌, ◌≢◌, ◌↔◌, refl, true, String, Option, none, some, arith, zero, suc,
}
use hernan_pedraza_pi_back.SongStates.{
  SongStatus, pending, approved, playing, played, rejected, skipped, song_state, can_transition_to,
  is_empty, terminal, is_terminal_state,
}
use hernan_pedraza_pi_back.SongStates.Order.{
  Transition, approve, reject_pending, play, reject_approved, finish, skip, reject_playing,
}

-- `Lifecycle k a b`: k transitions lead from a to b.
pub data Lifecycle : ℕ → SongStatus → SongStatus → Type 0 where
  here : {a : SongStatus} → Lifecycle zero a a
  step : {k : ℕ} {a b c : SongStatus} → Transition a b → Lifecycle k b c → Lifecycle (suc k) a c

-- How many transitions can still follow.
abbrev remaining : SongStatus → ℕ
remaining pending = 3
remaining approved = 2
remaining playing = 1
remaining _ = 0

remaining_falls : {a b : SongStatus} → Transition a b → remaining b < remaining a
remaining_falls approve = omega arith
remaining_falls reject_pending = omega arith
remaining_falls play = omega arith
remaining_falls reject_approved = omega arith
remaining_falls finish = omega arith
remaining_falls skip = omega arith
remaining_falls reject_playing = omega arith

Lifecycle-bound : {k : ℕ} {a b : SongStatus} → Lifecycle k a b → k + remaining b ≤ remaining a
Lifecycle-bound here = omega arith
Lifecycle-bound (step t l) = omega (arith, remaining_falls t, Lifecycle-bound l)

remaining_max : (a : SongStatus) → remaining a ≤ 3
remaining_max pending = omega arith
remaining_max approved = omega arith
remaining_max playing = omega arith
remaining_max played = omega arith
remaining_max rejected = omega arith
remaining_max skipped = omega arith

-- A song makes at most three transitions in its life, and once it has made one it is never again
-- in the state that it left.
pub Lifecycle-never_returns :
    (k : ℕ) (a b : SongStatus) → Lifecycle (suc k) a b → (suc k ≤ 3) × (a ≢ b)
Lifecycle-never_returns k a b l = (
  omega (arith, Lifecycle-bound l, remaining_max a),
  λ same. omega (arith, rw same at (Lifecycle-bound l)),
)

no-Transition : {s n : SongStatus} → is_empty (can_transition_to s) ≡ true → ¬ Transition s n
unfolding is_empty can_transition_to
no-Transition h approve = cc
no-Transition h reject_pending = cc
no-Transition h play = cc
no-Transition h reject_approved = cc
no-Transition h finish = cc
no-Transition h skip = cc
no-Transition h reject_playing = cc

is_empty_of_stuck :
    (s : SongStatus) → ((n : SongStatus) → ¬ Transition s n) → is_empty (can_transition_to s) ≡ true
unfolding is_empty can_transition_to
is_empty_of_stuck pending h = absurd (h approved approve)
is_empty_of_stuck approved h = absurd (h playing play)
is_empty_of_stuck playing h = absurd (h played finish)
is_empty_of_stuck played h = refl
is_empty_of_stuck rejected h = refl
is_empty_of_stuck skipped h = refl

-- `isTerminalState` answers true exactly for a string that names a state which no transition
-- leaves.
pub is_terminal_state_iff :
    (status : String)
    → (is_terminal_state status ≡ true)
      ↔ ((s : SongStatus) × (song_state status ≡ some s) × ((n : SongStatus) → ¬ Transition s n))
unfolding is_terminal_state terminal
is_terminal_state_iff status =
    (λ h. to (song_state status) refl h, λ (s, e, stuck). rw e (is_empty_of_stuck s stuck))
  where
    to :
        (o : Option SongStatus)
        → song_state status ≡ o
        → terminal o ≡ true
        → (s : SongStatus) × (song_state status ≡ some s) × ((n : SongStatus) → ¬ Transition s n)
    to none e h = cc
    to (some s) e h = (s, e, λ n t. no-Transition h t)
