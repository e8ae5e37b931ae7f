-- ===== src/Witnesses/Cooldowns.antt =====
-- A cooldown of attendee 5 in event 1, and the cache after it.
use hernan_pedraza_pi_back.Prelude.{◌≡◌, [], arith}
use hernan_pedraza_pi_back.CooldownCache.{Cooldown, Cache, set_cooldown, get_cooldown, cleanup}
use hernan_pedraza_pi_back.CooldownCache.Cleanup.{Reached, cleanup-get_cooldown}

abbrev slow_down : Cooldown
slow_down = record { expires_at = 130; reason = "spam" }

abbrev warned : Cache
warned = set_cooldown 90 1 7 15 "spam" (set_cooldown 100 1 5 30 "spam" [])

reached : Reached warned
reached = Reached.set 90 1 7 15 "spam" (Reached.set 100 1 5 30 "spam" Reached.start)

cleanup-get_cooldown_example :
    (get_cooldown 125 1 5 (cleanup 120 warned)).0 ≡ (get_cooldown 125 1 5 warned).0
cleanup-get_cooldown_example = cleanup-get_cooldown reached 120 125 1 5 (omega arith)
