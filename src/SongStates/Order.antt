-- ===== src/SongStates/Order.antt =====
-- What the transition table of songs allows, as a relation, and where its paths end.
use hernan_pedraza_pi_back.Prelude.{
  ◌≡◌, ◌↔◌, refl, true, String, Option, none, some, [], ◌∷◌, arith, eq_iff, inl, inr, Bool-cases,
}
use hernan_pedraza_pi_back.Errors.{ok}
use hernan_pedraza_pi_back.SongStates.{
  SongStatus, pending, approved, playing, played, rejected, skipped, status_name, song_state,
  can_transition_to, roles, same_status, includes, is_empty, validate_states, validate_transition,
  validate_new, validate_current,
}

-- The transitions that the comments and the table of the source draw, one constructor each.
pub data Transition : SongStatus → SongStatus → Type 0 where
  approve : Transition pending approved
  reject_pending : Transition pending rejected
  play : Transition approved playing
  reject_approved : Transition approved rejected
  finish : Transition playing played
  skip : Transition playing skipped
  reject_playing : Transition playing rejected

pub song_state-status_name : (s : SongStatus) → song_state (status_name s) ≡ some s
unfolding song_state status_name
song_state-status_name pending = refl
song_state-status_name approved = refl
song_state-status_name playing = refl
song_state-status_name played = refl
song_state-status_name rejected = refl
song_state-status_name skipped = refl

includes→Transition : (c n : SongStatus) → includes (can_transition_to c) n ≡ true → Transition c n
unfolding includes can_transition_to same_status
includes→Transition pending approved h = approve
includes→Transition pending rejected h = reject_pending
includes→Transition approved playing h = play
includes→Transition approved rejected h = reject_approved
includes→Transition playing played h = finish
includes→Transition playing skipped h = skip
includes→Transition playing rejected h = reject_playing
includes→Transition pending pending h = cc
includes→Transition pending playing h = cc
includes→Transition pending played h = cc
includes→Transition pending skipped h = cc
includes→Transition approved pending h = cc
includes→Transition approved approved h = cc
includes→Transition approved played h = cc
includes→Transition approved skipped h = cc
includes→Transition playing pending h = cc
includes→Transition playing approved h = cc
includes→Transition playing playing h = cc
includes→Transition played n h = cc
includes→Transition rejected n h = cc
includes→Transition skipped n h = cc

Transition→includes : {c n : SongStatus} → Transition c n → includes (can_transition_to c) n ≡ true
unfolding includes can_transition_to same_status
Transition→includes approve = refl
Transition→includes reject_pending = refl
Transition→includes play = refl
Transition→includes reject_approved = refl
Transition→includes finish = refl
Transition→includes skip = refl
Transition→includes reject_playing = refl

-- A state that something leaves is under the control of the role "DJ" alone.
roles_of_Transition : {c n : SongStatus} → Transition c n → roles c ≡ "DJ" ∷ []
unfolding roles
roles_of_Transition approve = refl
roles_of_Transition reject_pending = refl
roles_of_Transition play = refl
roles_of_Transition reject_approved = refl
roles_of_Transition finish = refl
roles_of_Transition skip = refl
roles_of_Transition reject_playing = refl

validate_states_sound :
    (c n : SongStatus) (cs ns role : String)
    → validate_states c n cs ns role ≡ ok tt
    → Transition c n × (role ≡ "DJ")
unfolding validate_states
validate_states_sound c n cs ns role h = elim (Bool-cases (includes (can_transition_to c) n)) [
  | inl allowed ↦
      let t = includes→Transition c n allowed in
      (t, unfold is_empty in ground (arith, allowed, roles_of_Transition t, eq_iff role "DJ"))
  | inr refused ↦ ground (arith, refused)
]

validate_states_complete :
    (c n : SongStatus) (cs ns role : String)
    → Transition c n
    → role ≡ "DJ"
    → validate_states c n cs ns role ≡ ok tt
unfolding validate_states is_empty
validate_states_complete c n cs ns role t e =
    ground (arith, Transition→includes t, roles_of_Transition t, eq_iff role "DJ")

-- A transition between two strings is accepted exactly when both name states of the table, the
-- table's graph has the edge, and the role is "DJ".
pub validate_transition_iff :
    (current new role : String)
    → (validate_transition current new role ≡ ok tt) ↔ (
        (c : SongStatus) × (n : SongStatus) × (song_state current ≡ some c)
        × (song_state new ≡ some n)
        × Transition c n
        × (role ≡ "DJ"))
unfolding validate_transition validate_current validate_new
validate_transition_iff current new role = (
  λ h. to (song_state current) (song_state new) refl refl h,
  λ (c, n, ec, en, t, e). rw (ec, en) (validate_states_complete c n current new role t e),
)
  where
    to :
        (a b : Option SongStatus)
        → song_state current ≡ a
        → song_state new ≡ b
        → validate_current a b current new role ≡ ok tt
        → (c : SongStatus) × (n : SongStatus) × (song_state current ≡ some c)
          × (song_state new ≡ some n)
          × Transition c n
          × (role ≡ "DJ")
    to none b ea eb h = cc
    to (some c) none ea eb h = cc
    to (some c) (some n) ea eb h =
        let (t, e) = validate_states_sound c n current new role h in (c, n, ea, eb, t, e)
