-- ===== src/Witnesses/Queues.antt =====
-- The queue of the small event: one song waits, one plays.
use hernan_pedraza_pi_back.Prelude.{◌≡◌, String, Bool, false, [], ◌∷◌}
use hernan_pedraza_pi_back.Mongo.{list_mongo}
use hernan_pedraza_pi_back.Platform.{plain_platform}
use hernan_pedraza_pi_back.Songs.Metadata.{no_cipher}
use hernan_pedraza_pi_back.Songs.Queue.{get_queue_for_event}
use hernan_pedraza_pi_back.Songs.Queue.Positions.{
  waiting_positions, playing_positions, get_queue_for_event-positions,
}
use hernan_pedraza_pi_back.Witnesses.Samples.{show}

abbrev by_no_key : String → String → Bool
by_no_key a b = false

get_queue_for_event-positions_example :
    (waiting_positions (get_queue_for_event list_mongo plain_platform no_cipher by_no_key 1 show)
      ≡ 1 ∷ [])
    × (playing_positions (get_queue_for_event list_mongo plain_platform no_cipher by_no_key 1 show)
        ≡ 0 ∷ [])
get_queue_for_event-positions_example =
    get_queue_for_event-positions list_mongo plain_platform no_cipher by_no_key 1 show
