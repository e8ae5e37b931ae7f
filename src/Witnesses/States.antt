-- ===== src/Witnesses/States.antt =====
-- The state machine of songs and the permission checks, at concrete inputs.
use hernan_pedraza_pi_back.Prelude.{String, ◌≡◌, ◌↔◌, refl, some, ℕ}
use hernan_pedraza_pi_back.Errors.{ok, Returns}
use hernan_pedraza_pi_back.Mongo.{list_mongo}
use hernan_pedraza_pi_back.Platform.{plain_platform}
use hernan_pedraza_pi_back.Models.{Event}
use hernan_pedraza_pi_back.SongStates.{SongStatus, song_state, validate_transition}
use hernan_pedraza_pi_back.SongStates.Order.{Transition, validate_transition_iff}
use hernan_pedraza_pi_back.Permissions.{
  object_id, assert_any_permission, participant_manage_permissions,
}
use hernan_pedraza_pi_back.Permissions.Rights.{Identified, MayAct, assert_any_permission_iff}
use hernan_pedraza_pi_back.Witnesses.Samples.{db, owner, permission_runs}

validate_transition_iff_example : (validate_transition "PENDING" "APPROVED" "DJ" ≡ ok tt) ↔ (
    (c : SongStatus) × (n : SongStatus) × (song_state "PENDING" ≡ some c)
    × (song_state "APPROVED" ≡ some n)
    × Transition c n
    × (◌≡◌ {A = String} "DJ" "DJ"))
validate_transition_iff_example = validate_transition_iff "PENDING" "APPROVED" "DJ"

-- The left side of the example holds, so its right side does.
approval_is_accepted : validate_transition "PENDING" "APPROVED" "DJ" ≡ ok tt
unfolding validate_transition
approval_is_accepted = refl

assert_any_permission_iff_example :
    Returns (
      assert_any_permission list_mongo plain_platform db
        (object_id 1)
        owner
        participant_manage_permissions
        "no")
    ↔ ((e : Event) × (u : ℕ) × (Identified list_mongo plain_platform db (object_id 1) owner e u)
        × (MayAct list_mongo plain_platform db participant_manage_permissions e u))
assert_any_permission_iff_example =
    assert_any_permission_iff list_mongo plain_platform db (object_id 1) owner
      participant_manage_permissions "no"

owner_may_manage : Returns (
    assert_any_permission list_mongo plain_platform db
      (object_id 1)
      owner
      participant_manage_permissions
      "no")
unfolding permission_runs
owner_may_manage = tt
