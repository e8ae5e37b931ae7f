-- ===== src/Events/Microphone.antt =====
-- The link for a phone microphone in src/services/events.service.js: getPhoneMicrophoneLink and
-- connectPhoneMicrophone. Tokens are made and checked by the package jsonwebtoken behind
-- src/utils/jwt.utils.js, which enter as a record.
use hernan_pedraza_pi_back.Prelude.{
  ℕ, ◌≡◌, sym, ap, ◌∙◌, String, Bool, ◌&&◌, Option, none, some, ◌==◌, str_eq, inl, inr, Bool-cases,
  if◌then◌else◌,
}
use hernan_pedraza_pi_back.Errors.{Result, ok, err, unauthorized, guard, or_missing, Result-cases}
use hernan_pedraza_pi_back.Exec.{Exec, pure, lift, gets, ◌>>=◌, ◌>>◌}
use hernan_pedraza_pi_back.Mongo.{Mongo}
use hernan_pedraza_pi_back.Platform.{Platform}
use hernan_pedraza_pi_back.Models.{Event, Actor, Db}
use hernan_pedraza_pi_back.Permissions.{EventRef, object_id, get_event, assert_phone_microphone}
use hernan_pedraza_pi_back.Events.Lifecycle.{load_event}

pub record Claims : Type 0 where
  pub kind : String
  pub event_id : ℕ
  pub user_id : ℕ
  pub role : String

-- jwt.sign and jwt.verify with the server's secret; `none` for a token that verify refuses.
pub record Tokens : Type 0 where
  pub sign : Claims → String
  pub verify : String → Option Claims

pub record Microphone : Type 0 where
  pub event_id : ℕ
  pub device_name : String
  pub connected_at : ℕ

abbrev pub microphone_claims : Event → Claims
microphone_claims e = record {
  kind = "phone-microphone";
  event_id = e.id;
  user_id = e.owner_id;
  role = "DJ";
}

module _ (m : Mongo) (env : Platform) (tokens : Tokens) where
  -- The token that `getPhoneMicrophoneLink` puts into the link.
  unfoldable pub get_phone_microphone_token : ℕ → Actor → Exec (Db m) String
  get_phone_microphone_token e actor = do
    found ← gets (λ db. or_missing (load_event m env db e) "Event not found")
    event ← lift found
    allowed ← gets (λ db. assert_phone_microphone m env db (object_id event.id) actor)
    _ ← lift allowed
    pure (tokens.sign (microphone_claims event))

  abbrev pub fits : Event → Claims → Bool
  fits e c = (str_eq c.kind "phone-microphone" && c.event_id == e.id) && c.user_id == e.owner_id

  abbrev pub claims_of : Option Claims → Result Claims
  claims_of none = err (unauthorized "Invalid phone microphone token")
  claims_of (some c) = ok c

  -- `none` for a missing token.
  abbrev pub read_token : Option String → Result Claims
  read_token none = err (unauthorized "Phone microphone token is required")
  read_token (some t) = claims_of (tokens.verify t)

  unfoldable pub connect_phone_microphone :
      ℕ → EventRef → String → Option String → Exec (Db m) Microphone
  connect_phone_microphone now ref device token = do
    found ← gets (λ db. get_event m env db ref)
    event ← lift found
    claims ← lift (read_token token)
    lift (guard (fits event claims) (unauthorized "Invalid phone microphone token"))
    pure (record { event_id = event.id; device_name = device; connected_at = now })

-- The token of a link connects a microphone to the event that the link was made for, and to no
-- other: an identifier that finds another event is refused, and connecting writes nothing. The
-- token verifies with the claims that it was signed with.
pub connect_phone_microphone-get_phone_microphone_token :
    (m : Mongo) (env : Platform) (tokens : Tokens) (db : Db m) (e now : ℕ) (actor : Actor)
    (t device : String) (event other : Event) (ref : EventRef)
    → tokens.verify (tokens.sign (microphone_claims event)) ≡ some (microphone_claims event)
    → load_event m env db e ≡ some event
    → get_event m env db ref ≡ ok other
    → (get_phone_microphone_token m env tokens e actor db).0 ≡ ok t
    → connect_phone_microphone m env tokens now ref device (some t) db ≡ (
        if event.id == other.id && event.owner_id == other.owner_id
        then (ok (record { event_id = other.id; device_name = device; connected_at = now }), db)
        else (err (unauthorized "Invalid phone microphone token"), db))
unfolding get_phone_microphone_token connect_phone_microphone
connect_phone_microphone-get_phone_microphone_token m env tokens db e now actor t device event other
      ref verified found shown linked =
    elim (Result-cases (assert_phone_microphone m env db (object_id event.id) actor)) [
      | inr (_, refused) ↦ cc (rw (found, refused) at linked)
      | inl (c, allowed) ↦
          let made : tokens.sign (microphone_claims event) ≡ t =
            (cc (rw (found, allowed) at linked)) in
          let reads : tokens.verify t ≡ some (microphone_claims event) =
            ap tokens.verify (sym made) ∙ verified in
          elim (Bool-cases (event.id == other.id && event.owner_id == other.owner_id)) [
            | inl same ↦ rw (shown, reads, same)
            | inr apart ↦ rw (shown, reads, apart)
          ]
    ]
