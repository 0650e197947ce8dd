-- ===== src/PluginPool/Supervision.antt =====
-- `guard.run` of native/pluginpool/host.go: a plugin is started, waited for and started again. What
-- the system and the other threads do in one round of the loop is a `Round`.
pub mod Delays
pub mod Reports
mod Examples
use android_lib_box_lite.Common.{
  ℕ, ◌*◌, ◌%◌, ◌^◌, min, Bool, true, false, not, ◌&&◌, List, [], ◌∷◌, ◌++◌, ltb, leb, if◌then◌else◌,
}

-- A time.Duration in nanoseconds.
abbrev pub second : ℕ
second = 10 ^ 9

abbrev pub fatal_window : ℕ
fatal_window = second

abbrev pub stable_window : ℕ
stable_window = 30 * second

abbrev pub min_restart_delay : ℕ
min_restart_delay = second

abbrev pub max_restart_delay : ℕ
max_restart_delay = 30 * second

pub record Round : Type 0 where
  -- cmd.Start returns an error.
  pub start_fails : Bool
  -- The time from the start to the end of cmd.Wait.
  pub lived : ℕ
  -- What isStopping returns after the process has ended, and in `fail`.
  pub stopping_at_exit : Bool
  pub stopping_at_fail : Bool
  -- The stop channel is closed before the restart timer fires.
  pub stopped_in_delay : Bool

pub data Fatal : Type 0 where
  restart_failed exited_at_startup : Fatal

pub data Action : Type 0 where
  -- The result of the first start, sent to `Host.start`; true is an error.
  start_reported : Bool → Action
  attached : Action
  detached : Action
  fatal : Fatal → Action
  restarting : ℕ → Action
  done : Action

abbrev report : Bool → Bool → List Action
report true failed = start_reported failed ∷ []
report false failed = []

-- `fail` is silent once a stop was requested.
abbrev fail : Fatal → Round → List Action
fail f r = if r.stopping_at_fail then [] else fatal f ∷ []

-- A start error is fatal from the second round on; the first is only reported.
abbrev not_started : Bool → Round → List Action
not_started true r = done ∷ []
not_started false r = fail restart_failed r ++ (done ∷ [])

-- A run that lasted long enough resets the delay.
abbrev pub delay_after : ℕ → Round → ℕ
delay_after delay r = if leb stable_window r.lived then min_restart_delay else delay

-- The delay of the next round; the product is that of int64.
abbrev pub doubled : ℕ → ℕ
doubled delay = min (delay * 2 % 2 ^ 64) max_restart_delay

pub run_loop : Bool → ℕ → List Round → List Action
run_loop first delay [] = []
run_loop first delay (r ∷ rounds) =
    let delay' = delay_after delay r in
    let again = run_loop false (doubled delay') rounds in
    let waited = restarting delay' ∷ (if r.stopped_in_delay then done ∷ [] else again) in
    let ended =
      if r.stopping_at_exit
      then done ∷ []
      else if first && ltb r.lived fatal_window
      then fail exited_at_startup r ++ (done ∷ [])
      else waited in
    report first r.start_fails
    ++ (if r.start_fails then not_started first r else attached ∷ (detached ∷ ended))

pub run : List Round → List Action
run rounds = run_loop true min_restart_delay rounds
