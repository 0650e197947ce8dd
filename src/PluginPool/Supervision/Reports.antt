-- ===== src/PluginPool/Supervision/Reports.antt =====
-- The order of what `run` does, and what ends it.
use android_lib_box_lite.Common.{
  ℕ, Bool, true, false, ◌&&◌, List, [], ◌∷◌, ◌++◌, ltb, if◌then◌else◌, ◌≡◌, refl, if-split,
}
use android_lib_box_lite.PluginPool.Supervision.{
  fatal_window, min_restart_delay, Round, Fatal, Action, start_reported, attached, detached, fatal,
  restarting, done, restart_failed, exited_at_startup, fail, not_started, delay_after, doubled,
  run_loop, run,
}

-- What may follow the report of the first start. Each process is attached and detached before the
-- next start, and nothing follows the end; a fatal error ends the loop at once.
mutual
  pub data Supervised : List Action → Type 0 where
    -- The environment has not moved on yet.
    pending : Supervised []
    finished : Supervised (done ∷ [])
    failed : (f : Fatal) → Supervised (fatal f ∷ (done ∷ []))
    ran : {after : List Action} → Ended after → Supervised (attached ∷ (detached ∷ after))

  pub data Ended : List Action → Type 0 where
    stopped : Ended (done ∷ [])
    gave_up : (f : Fatal) → Ended (fatal f ∷ (done ∷ []))
    again : {rest : List Action} (delay : ℕ) → Supervised rest → Ended (restarting delay ∷ rest)

fail-Supervised : (f : Fatal) (r : Round) → Supervised (fail f r ++ (done ∷ []))
fail-Supervised f r =
    if-split (λ (l : List Action). Supervised (l ++ (done ∷ []))) r.stopping_at_fail (λ _. finished)
      (λ _. failed f)

fail-Ended : (f : Fatal) (r : Round) → Ended (fail f r ++ (done ∷ []))
fail-Ended f r =
    if-split (λ (l : List Action). Ended (l ++ (done ∷ []))) r.stopping_at_fail (λ _. stopped)
      (λ _. gave_up f)

not_started-Supervised : (first : Bool) (r : Round) → Supervised (not_started first r)
not_started-Supervised true r = finished
not_started-Supervised false r = fail-Supervised restart_failed r

-- The part of a round behind the report of its start.
round-Supervised :
    (first : Bool) (r : Round) (delay : ℕ) (rest : List Action)
    → Supervised rest
    → Supervised (
        if r.start_fails
        then not_started first r
        else attached
          ∷ (detached
              ∷ (if r.stopping_at_exit
                  then done ∷ []
                  else if first && ltb r.lived fatal_window
                  then fail exited_at_startup r ++ (done ∷ [])
                  else restarting delay ∷ (if r.stopped_in_delay then done ∷ [] else rest))))
round-Supervised first r delay rest s =
    if-split Supervised r.start_fails (λ _. not_started-Supervised first r)
      (λ _. ran (
        if-split Ended r.stopping_at_exit (λ _. stopped)
          (λ _.
            if-split Ended (first && ltb r.lived fatal_window) (λ _. fail-Ended exited_at_startup r)
              (λ _.
                again delay (if-split Supervised r.stopped_in_delay (λ _. finished) (λ _. s))))))

restarts-Supervised : (delay : ℕ) (rounds : List Round) → Supervised (run_loop false delay rounds)
unfolding run_loop
restarts-Supervised delay [] = pending
restarts-Supervised delay (r ∷ rounds) =
    round-Supervised false r (delay_after delay r)
      (run_loop false (doubled (delay_after delay r)) rounds)
      (restarts-Supervised (doubled (delay_after delay r)) rounds)

-- The loop reports its first start exactly once and before anything else, and what follows is
-- supervised: processes do not overlap, a fatal error ends the loop, and the end is the end.
pub run-Supervised :
    (r : Round) (rounds : List Round)
    → (rest : List Action) × (run (r ∷ rounds) ≡ start_reported r.start_fails ∷ rest)
      × Supervised rest
unfolding run run_loop
run-Supervised r rounds = (
  _,
  refl,
  round-Supervised true r (delay_after min_restart_delay r)
      (run_loop false (doubled (delay_after min_restart_delay r)) rounds)
      (restarts-Supervised (doubled (delay_after min_restart_delay r)) rounds),
)
