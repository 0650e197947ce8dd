-- ===== src/PluginPool/Supervision/Delays.antt =====
-- The delays between the runs of a plugin.
use android_lib_box_lite.Common.{
  ℕ, zero, suc, ◌*◌, ◌^◌, ◌≤◌, ◌<◌, min, Bool, true, false, ◌&&◌, List, [], ◌∷◌, ◌++◌, ltb, ◌≡◌,
  refl, ap, ◌∙◌, arith, All, All-append, if-split, length,
}
use native.Mathlib.Nat.{pow-suc}
use android_lib_box_lite.PluginPool.Supervision.{
  second, fatal_window, stable_window, min_restart_delay, max_restart_delay, Round, Fatal, Action,
  start_reported, attached, detached, restarting, done, restart_failed, exited_at_startup, report,
  fail, not_started, delay_after, doubled, run_loop, run,
}

abbrev pub DelayInRange : Action → Type 0
DelayInRange (restarting d) = (min_restart_delay ≤ d) × (d ≤ max_restart_delay)
DelayInRange _ = Unit {0}

fail-DelayInRange : (f : Fatal) (r : Round) → All DelayInRange (fail f r ++ (done ∷ []))
fail-DelayInRange f r =
    if-split (λ (l : List Action). All DelayInRange (l ++ (done ∷ []))) r.stopping_at_fail
      (λ _. (tt, tt)) (λ _. (tt, (tt, tt)))

report-DelayInRange : (first failed : Bool) → All DelayInRange (report first failed)
report-DelayInRange true failed = (tt, tt)
report-DelayInRange false failed = tt

not_started-DelayInRange : (first : Bool) (r : Round) → All DelayInRange (not_started first r)
not_started-DelayInRange true r = (tt, tt)
not_started-DelayInRange false r = fail-DelayInRange restart_failed r

run_loop-DelayInRange :
    (first : Bool) (delay : ℕ) (rounds : List Round)
    → min_restart_delay ≤ delay
    → delay ≤ max_restart_delay
    → All DelayInRange (run_loop first delay rounds)
unfolding run_loop
run_loop-DelayInRange first delay [] lo hi = tt
run_loop-DelayInRange first delay (r ∷ rounds) lo hi =
    let delay' = delay_after delay r in
    let lo' : min_restart_delay ≤ delay' = ground arith in
    let hi' : delay' ≤ max_restart_delay = ground arith in
    let ih = run_loop-DelayInRange false (doubled delay') rounds (omega arith) (omega arith) in
    All-append DelayInRange (report first r.start_fails) _ (report-DelayInRange first r.start_fails)
      (if-split (All DelayInRange) r.start_fails (λ _. not_started-DelayInRange first r)
        (λ _. (
          tt,
          (
            tt,
            if-split (All DelayInRange) r.stopping_at_exit (λ _. (tt, tt))
                (λ _.
                  if-split (All DelayInRange) (first && ltb r.lived fatal_window)
                    (λ _. fail-DelayInRange exited_at_startup r)
                    (λ _. (
                      (lo', hi'),
                      if-split (All DelayInRange) r.stopped_in_delay (λ _. (tt, tt)) (λ _. ih),
                    ))),
          ),
        )))

-- Whatever happens to a plugin, it is started again after 1 to 30 seconds.
pub run-DelayInRange : (rounds : List Round) → All DelayInRange (run rounds)
unfolding run
run-DelayInRange rounds =
    run_loop-DelayInRange true min_restart_delay rounds (omega arith) (omega arith)

-- A run that ends by itself before it counts as stable, while nobody stops the plugin.
pub record IsCrash (r : Round) : Type 0 where
  pub was_started : r.start_fails ≡ false
  pub unstable : r.lived < stable_window
  pub not_stopping : r.stopping_at_exit ≡ false
  pub waits : r.stopped_in_delay ≡ false

abbrev pub delays_of : List Action → List ℕ
delays_of [] = []
delays_of (restarting d ∷ actions) = d ∷ delays_of actions
delays_of (_ ∷ actions) = delays_of actions

-- The exponential backoff from the k-th crash on.
abbrev pub backoff : ℕ → ℕ → List ℕ
backoff k zero = []
backoff k (suc n) = min (second * 2 ^ k) max_restart_delay ∷ backoff (suc k) n

doubled_backoff :
    (k : ℕ)
    → doubled (min (second * 2 ^ k) max_restart_delay) ≡ min (second * 2 ^ suc k) max_restart_delay
doubled_backoff k = omega (arith, pow-suc 2 k)

crash_step :
    (delay : ℕ) (r : Round) (rounds : List Round)
    → IsCrash r
    → run_loop false delay (r ∷ rounds)
      ≡ attached ∷ (detached ∷ (restarting delay ∷ run_loop false (doubled delay) rounds))
unfolding run_loop
crash_step delay r rounds c = ground (arith, c.was_started, c.unstable, c.not_stopping, c.waits)

first_crash :
    (delay : ℕ) (r : Round) (rounds : List Round)
    → IsCrash r
    → fatal_window ≤ r.lived
    → run_loop true delay (r ∷ rounds)
      ≡ start_reported false
        ∷ (attached ∷ (detached ∷ (restarting delay ∷ run_loop false (doubled delay) rounds)))
unfolding run_loop
first_crash delay r rounds c long =
    ground (arith, c.was_started, c.unstable, c.not_stopping, c.waits)

crash_loop :
    (k : ℕ) (rounds : List Round)
    → All IsCrash rounds
    → delays_of (run_loop false (min (second * 2 ^ k) max_restart_delay) rounds)
      ≡ backoff k (length rounds)
crash_loop k [] h = unfold run_loop in refl
crash_loop k (r ∷ rounds) h =
    let d = min (second * 2 ^ k) max_restart_delay in
    ap delays_of (crash_step d r rounds h.0)
    ∙ ap (λ (l : List ℕ). d ∷ l)
        (ap (λ (d' : ℕ). delays_of (run_loop false d' rounds)) (doubled_backoff k)
          ∙ crash_loop (suc k) rounds h.1)

-- A plugin that keeps crashing before 30 seconds, and not within a second of its first start, is started
-- again after 1, 2, 4, 8, 16 and then every 30 seconds.
pub run-backoff :
    (r : Round) (rounds : List Round)
    → All IsCrash (r ∷ rounds)
    → fatal_window ≤ r.lived
    → delays_of (run (r ∷ rounds)) ≡ backoff 0 (length (r ∷ rounds))
unfolding run
run-backoff r rounds h long =
    ap delays_of (first_crash min_restart_delay r rounds h.0 long)
    ∙ ap (λ (l : List ℕ). second ∷ l) (crash_loop 1 rounds h.1)
