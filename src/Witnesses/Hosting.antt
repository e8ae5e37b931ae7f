-- ===== src/Witnesses/Hosting.antt =====
-- The owner of the small event links a microphone, another user tries to change the event, and a
-- code is drawn.
use hernan_pedraza_pi_back.Prelude.{ℕ, ◌<◌, ◌≤◌, ◌≡◌, refl, true, none, some, arith}
use hernan_pedraza_pi_back.Errors.{ok}
use hernan_pedraza_pi_back.Mongo.{list_mongo}
use hernan_pedraza_pi_back.Platform.{plain_platform}
use hernan_pedraza_pi_back.Permissions.{object_id, assert_phone_microphone, get_event}
use hernan_pedraza_pi_back.Participants.Text.{characters, is_code_shaped}
use hernan_pedraza_pi_back.Events.Codes.{generate_event_code, generate_event_code-is_code_shaped}
use hernan_pedraza_pi_back.Models.{Db}
use hernan_pedraza_pi_back.Events.Lifecycle.{load_event, EventUpdates, update_event, start_event}
use hernan_pedraza_pi_back.Events.Ownership.{
  updated, started, nothing, then_call, CallsWithout, events_of, uses, CallsWithout-events_of,
}
use hernan_pedraza_pi_back.Events.Microphone.{
  Tokens, microphone_claims, get_phone_microphone_token, connect_phone_microphone,
  connect_phone_microphone-get_phone_microphone_token,
}
use hernan_pedraza_pi_back.Witnesses.Samples.{party, db, owner, permission_runs}

abbrev draws : ℕ → ℕ
draws j = 7

inside : (j : ℕ) → draws j < 36
inside j = ground arith

generate_event_code-is_code_shaped_example :
    (characters "HHHH" ≡ 4) × (is_code_shaped "HHHH" ≡ true)
unfolding generate_event_code
generate_event_code-is_code_shaped_example =
    generate_event_code-is_code_shaped draws 4 "HHHH" inside refl

abbrev one_token : Tokens
one_token = record { sign = λ c. "token"; verify = λ s. some (microphone_claims party) }

loaded : load_event list_mongo plain_platform db 1 ≡ some party
unfolding load_event
loaded = refl

shown : get_event list_mongo plain_platform db (object_id 1) ≡ ok party
unfolding permission_runs
shown = refl

linked : (get_phone_microphone_token list_mongo plain_platform one_token 1 owner db).0 ≡ ok "token"
unfolding permission_runs get_phone_microphone_token load_event assert_phone_microphone
linked = refl

connect_phone_microphone-get_phone_microphone_token_example :
    connect_phone_microphone list_mongo plain_platform one_token 500
      (object_id 1)
      "phone"
      (some "token")
      db
    ≡ (ok (record { event_id = 1; device_name = "phone"; connected_at = 500 }), db)
connect_phone_microphone-get_phone_microphone_token_example =
    connect_phone_microphone-get_phone_microphone_token list_mongo plain_platform one_token db 1 500
      owner "token" "phone" party party (object_id 1) refl loaded shown linked

abbrev renaming : EventUpdates
renaming = record { name = some "Ball"; description = none; settings = none }

-- User 20 tries to rename the event of user 9, and then to start it.
abbrev renamed_db : Db list_mongo
renamed_db = (update_event list_mongo plain_platform 1 20 renaming db).1

abbrev started_db : Db list_mongo
started_db = (start_event list_mongo plain_platform 1 20 renamed_db).1

tried : CallsWithout list_mongo plain_platform 9 db started_db
tried =
    then_call 20 (then_call 20 nothing (λ e. ground (arith, e)) (updated 1 renaming db))
      (λ e. ground (arith, e)) (started 1 renamed_db)

once : (i : ℕ) → uses list_mongo plain_platform i db ≤ 1
once i = ground arith

CallsWithout-events_of_example :
    events_of list_mongo plain_platform 9 started_db ≡ events_of list_mongo plain_platform 9 db
CallsWithout-events_of_example =
    CallsWithout-events_of list_mongo plain_platform 9 db started_db once tried
