-- ===== src/PluginPool/Supervision/Examples.antt =====
-- A plugin that crashes three times, and one that a stop request ends.
use android_lib_box_lite.Common.{◌*◌, true, false, [], ◌∷◌, length, ◌≡◌, refl, arith}
use android_lib_box_lite.PluginPool.Supervision.{Round, second, start_reported, run}
use android_lib_box_lite.PluginPool.Supervision.Delays.{IsCrash, delays_of, backoff, run-backoff}
use android_lib_box_lite.PluginPool.Supervision.Reports.{Supervised, run-Supervised}

abbrev crash : Round
crash = record {
  start_fails = false;
  lived = 2 * second;
  stopping_at_exit = false;
  stopping_at_fail = false;
  stopped_in_delay = false;
}

abbrev stopped : Round
stopped = record {
  start_fails = false;
  lived = 40 * second;
  stopping_at_exit = true;
  stopping_at_fail = true;
  stopped_in_delay = false;
}

crash-IsCrash : IsCrash crash
crash-IsCrash = record {
  was_started = refl;
  unstable = omega arith;
  not_stopping = refl;
  waits = refl;
}

run-backoff_example :
    delays_of (run (crash ∷ (crash ∷ (crash ∷ []))))
    ≡ backoff 0 (length (crash ∷ (crash ∷ (crash ∷ []))))
run-backoff_example =
    run-backoff crash (crash ∷ (crash ∷ [])) (crash-IsCrash, (crash-IsCrash, (crash-IsCrash, tt)))
      (omega arith)

run-Supervised_example :
    (rest : _) × (run (crash ∷ (stopped ∷ [])) ≡ start_reported crash.start_fails ∷ rest)
    × Supervised rest
run-Supervised_example = run-Supervised crash (stopped ∷ [])
