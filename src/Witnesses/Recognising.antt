-- ===== src/Witnesses/Recognising.antt =====
-- A microphone in the small event hears track 70 in whatever it gets.
use hernan_pedraza_pi_back.Prelude.{
  ℕ, ◌≡◌, String, Bool, true, false, not, ◌||◌, Option, none, some, List, [], ◌∷◌, ◌==◌, filter,
  all,
}
use hernan_pedraza_pi_back.Mongo.{list_mongo}
use hernan_pedraza_pi_back.Platform.{plain_platform}
use hernan_pedraza_pi_back.Songs.Metadata.{no_cipher}
use hernan_pedraza_pi_back.Recognition.Thresholds.{pos, Match}
use hernan_pedraza_pi_back.Recognition.Registry.{
  Entry, apply_dj_intent_to_event, heeds, apply_dj_intent_to_event-heeds,
}
use hernan_pedraza_pi_back.Recognition.Session.State.{
  Hash, undefined, number, SentHash, Limits, Session, new_session, apply_dj_intent, re_evaluate,
}
use hernan_pedraza_pi_back.Recognition.Session.Inputs.{add_chunk}
use hernan_pedraza_pi_back.Recognition.Session.Shape.{WellFormed}
use hernan_pedraza_pi_back.Recognition.Session.Reached.{
  start, chunk, evaluate, intend, Reached-WellFormed,
}
use hernan_pedraza_pi_back.Witnesses.Samples.{db}

abbrev pub keys : String → String → Bool
keys a b = false

abbrev heard : Match
heard = record {
  track_id = 70;
  offset = pos 3;
  score = 20;
  total_aligned = 25;
  offset_concentration = none;
  title = "Tune";
  artist = "Band";
  cover_url = none;
  duration = 180;
}

abbrev matcher : ℕ → List Hash → List Match
matcher e [] = []
matcher e (h ∷ hs) = heard ∷ []

abbrev pub limits : Limits
limits = record {
  hold_window_ms = some 3000;
  min_persistent_chunks = some 3;
  min_match_query_hashes = none;
  required_confirmations = 2;
  min_elapsed_ms = 1500;
  thresholds = record {
    min_score = 4;
    min_offset_concentration = record { num = 1; den = 2 };
    min_margin_ratio = record { num = 3; den = 2 };
  };
}

abbrev sent : List (Option SentHash)
sent =
    none
    ∷ some (record { hash = number (pos 5); h = undefined; time = undefined; t = number (pos 9) })
    ∷ []

-- A chunk, a timer, and an intent of the DJ.
abbrev followed : Session
followed =
    (apply_dj_intent 1600 (some 71)
      (re_evaluate 1500
        (add_chunk list_mongo plain_platform no_cipher keys matcher db 1000 sent
          (new_session 1 limits)).session).session).session

Reached-WellFormed_example : WellFormed followed
Reached-WellFormed_example =
    Reached-WellFormed list_mongo plain_platform no_cipher keys matcher
      (intend 1600 (some 71) (evaluate 1500 (chunk db 1000 sent start)))

abbrev sockets : List Entry
sockets =
    record { key = 1; socket = 90; listens = true; session = followed }
    ∷ record { key = 2; socket = 91; listens = false; session = new_session 2 limits }
    ∷ []

apply_dj_intent_to_event-heeds_example :
    (all
        (λ x. not (x.key == 1) || heeds 70 x.session)
        (apply_dj_intent_to_event 7000 1 (some 70) sockets).entries
      ≡ true)
    × (filter (λ x. not (x.key == 1)) (apply_dj_intent_to_event 7000 1 (some 70) sockets).entries
        ≡ filter (λ x. not (x.key == 1)) sockets)
apply_dj_intent_to_event-heeds_example = apply_dj_intent_to_event-heeds 7000 1 70 sockets
