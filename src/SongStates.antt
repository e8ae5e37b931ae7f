-- ===== src/SongStates.antt =====
-- src/utils/song-state-machine.js: the states of a song and the transitions between them.
pub mod Order
pub mod Paths
use Prim.Native.String
use hernan_pedraza_pi_back.Prelude.{
  String, Bool, true, false, not, ◌&&◌, Option, none, some, List, [], ◌∷◌, str_eq, any,
  if◌then◌else◌,
}
use hernan_pedraza_pi_back.Errors.{ApiError, validation, Result, ok, err}

pub data SongStatus : Type 0 where
  pending approved playing played rejected skipped : SongStatus

-- The strings under which the table holds the states.
unfoldable pub status_name : SongStatus → String
status_name pending = "PENDING"
status_name approved = "APPROVED"
status_name playing = "PLAYING"
status_name played = "PLAYED"
status_name rejected = "REJECTED"
status_name skipped = "SKIPPED"

-- `SONG_STATES[name]`: none for a string that is not a key of the table.
unfoldable pub song_state : String → Option SongStatus
song_state s =
    if str_eq s "PENDING"
    then some pending
    else if str_eq s "APPROVED"
    then some approved
    else if str_eq s "PLAYING"
    then some playing
    else if str_eq s "PLAYED"
    then some played
    else if str_eq s "REJECTED"
    then some rejected
    else if str_eq s "SKIPPED"
    then some skipped
    else none

unfoldable pub can_transition_to : SongStatus → List SongStatus
can_transition_to pending = approved ∷ rejected ∷ []
can_transition_to approved = playing ∷ rejected ∷ []
can_transition_to playing = played ∷ skipped ∷ rejected ∷ []
can_transition_to played = []
can_transition_to rejected = []
can_transition_to skipped = []

unfoldable pub roles : SongStatus → List String
roles pending = "DJ" ∷ []
roles approved = "DJ" ∷ []
roles playing = "DJ" ∷ []
roles played = []
roles rejected = []
roles skipped = []

unfoldable pub same_status : SongStatus → SongStatus → Bool
same_status pending pending = true
same_status approved approved = true
same_status playing playing = true
same_status played played = true
same_status rejected rejected = true
same_status skipped skipped = true
same_status _ _ = false

unfoldable pub includes : List SongStatus → SongStatus → Bool
unfolding same_status
includes xs s = any (same_status s) xs

unfoldable pub is_empty {ℓ} : {A : Type ℓ} → List A → Bool
is_empty [] = true
is_empty (x ∷ xs) = false

unfoldable pub validate_states :
    SongStatus → SongStatus → String → String → String → Result (Unit {0})
unfolding can_transition_to includes is_empty roles
validate_states current new current_status new_status user_role =
    if not (includes (can_transition_to current) new)
    then (if is_empty (can_transition_to current)
        then err (
            validation (
              String.◌++◌ "Cannot transition from terminal state "
                (String.◌++◌ current_status (String.◌++◌ " to " new_status))))
        else err (
            validation (
              String.◌++◌ "Cannot transition from "
                (String.◌++◌ current_status (String.◌++◌ " to " new_status)))))
    else if not (is_empty (roles current)) && not (any (str_eq user_role) (roles current))
    then err (
        validation (
          String.◌++◌ "Role '" (
            String.◌++◌ user_role (
              String.◌++◌ "' cannot perform this action from state '"
                (String.◌++◌ current_status "'")))))
    else ok tt

-- The two lookups come first, each with its own error.
unfoldable pub validate_new :
    Option SongStatus → SongStatus → String → String → String → Result (Unit {0})
unfolding validate_states
validate_new none current current_status new_status user_role =
    err (validation (String.◌++◌ "Invalid new status: " new_status))
validate_new (some new) current current_status new_status user_role =
    validate_states current new current_status new_status user_role

unfoldable pub validate_current :
    Option SongStatus → Option SongStatus → String → String → String → Result (Unit {0})
unfolding validate_new
validate_current none new current_status new_status user_role =
    err (validation (String.◌++◌ "Invalid current status: " current_status))
validate_current (some current) new current_status new_status user_role =
    validate_new new current current_status new_status user_role

unfoldable pub validate_transition : String → String → String → Result (Unit {0})
unfolding validate_current song_state
validate_transition current_status new_status user_role =
    validate_current (song_state current_status) (song_state new_status) current_status new_status
      user_role

next_states : Option SongStatus → List SongStatus
unfolding can_transition_to
next_states none = []
next_states (some s) = can_transition_to s

unfoldable pub get_valid_next_states : String → List SongStatus
unfolding next_states song_state
get_valid_next_states current_status = next_states (song_state current_status)

terminal : Option SongStatus → Bool
unfolding can_transition_to is_empty
terminal none = false
terminal (some s) = is_empty (can_transition_to s)

unfoldable pub is_terminal_state : String → Bool
unfolding terminal song_state
is_terminal_state status = terminal (song_state status)
