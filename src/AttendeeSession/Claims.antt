-- ===== src/AttendeeSession/Claims.antt =====
-- Who may come back under a nickname.
use hernan_pedraza_pi_back.Prelude.{
  ℕ, ◌≡◌, refl, inl, inr, String, true, false, Option, none, some, str_eq, Bool-cases,
}
use hernan_pedraza_pi_back.Errors.{Returns, Result-cases}
use hernan_pedraza_pi_back.Mongo.{Mongo}
use hernan_pedraza_pi_back.Platform.{Platform}
use hernan_pedraza_pi_back.Models.{Participant, Db}
use hernan_pedraza_pi_back.Participants.Joining.{
  JoinRequest, ensure_nickname_is_not_access_code, find_nickname, check_password,
}
use hernan_pedraza_pi_back.AttendeeSession.{
  assert_can_claim_participant, check_claim, join_event_in_session,
}

-- A password that was given and fits.
abbrev pub Knows : Platform → Option String → String → Type 0
Knows env password hash = (s : String) × (password ≡ some s) × (env.bcrypt_compare s hash ≡ true)

check_password-Knows :
    (m : Mongo) (env : Platform) (password : Option String) (hash : String)
    → Returns (check_password m env password hash)
    → Knows env password hash
unfolding check_password
check_password-Knows m env none hash h = absurd h
check_password-Knows m env (some s) hash h = elim (Bool-cases (str_eq s "")) [
  | inl empty ↦ absurd (rw (Returns, empty) at h)
  | inr given ↦ elim (Bool-cases (env.bcrypt_compare s hash)) [
    | inl fits ↦ (s, refl, fits)
    | inr wrong ↦ absurd (rw (Returns, given, wrong) at h)
  ]
]

assert_can_claim_participant-Knows :
    (m : Mongo) (env : Platform) (password : Option String) (p : Participant) (hash : String)
    → p.password_hash ≡ some hash
    → Returns (assert_can_claim_participant m env password (some p))
    → (p.is_banned ≡ false) × Knows env password hash
unfolding assert_can_claim_participant check_claim
assert_can_claim_participant-Knows m env password p hash e h = elim (Bool-cases p.is_banned) [
  | inl banned ↦ absurd (rw (Returns, banned) at h)
  | inr free ↦ (free, check_password-Knows m env password hash (rw (Returns, free, e) at h))
]

-- Whoever joins without an account under a nickname that is protected by a password has given that
-- password, and the attendee of that name is not banned from the event.
pub join_event_in_session-Knows :
    (m : Mongo) (env : Platform) (db : Db m) (now i j : ℕ) (uuid bytes : String) (r : JoinRequest)
    (p : Participant) (hash : String)
    → find_nickname m env db r.event_id (env.to_lower (env.trim r.nickname)) ≡ some p
    → p.password_hash ≡ some hash
    → Returns (join_event_in_session m env now i j uuid bytes r db).0
    → (p.is_banned ≡ false) × Knows env r.password hash
unfolding join_event_in_session
join_event_in_session-Knows m env db now i j uuid bytes r p hash found protected h =
    elim (Result-cases (ensure_nickname_is_not_access_code m env (env.trim r.nickname) db)) [
      | inr (_, refused) ↦ absurd (rw (Returns, refused) at h)
      | inl (_, allowed) ↦
          elim (Result-cases (assert_can_claim_participant m env r.password (some p))) [
            | inr (_, denied) ↦ absurd (rw (Returns, allowed, found, denied) at h)
            | inl (_, claimed) ↦
                let claim : Returns (assert_can_claim_participant m env r.password (some p)) =
                  (rw claimed tt) in
                assert_can_claim_participant-Knows m env r.password p hash protected claim
          ]
    ]
