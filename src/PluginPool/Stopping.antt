-- ===== src/PluginPool/Stopping.antt =====
-- The times of a stop: `requestStop` with its timer, `waitStopped` and `stopGuards` of
-- native/pluginpool/host.go, in milliseconds.
pub mod Bounds
mod Examples
use android_lib_box_lite.Common.{
  ℕ, suc, ◌+◌, min, Bool, true, false, Option, none, some, List, [], ◌∷◌, ltb, if◌then◌else◌,
}
use android_lib_box_lite.PluginPool.Guards.{pipe_grace}

abbrev pub stop_grace : ℕ
stop_grace = 1000

-- The timer of `waitStopped`.
abbrev pub wait_limit : ℕ
wait_limit = stop_grace + (pipe_grace + 1000)

-- How a plugin takes a stop request.
pub data Plugin : Type 0 where
  -- There is no process: the loop stands in its delay, and returns.
  resting : Plugin
  -- It ends by itself some time after SIGTERM, if it does, and its descendants hold its output pipe for a
  -- while.
  running : Option ℕ → ℕ → Plugin
  -- It does not end, not even by SIGKILL.
  stuck : Plugin

-- When the process has ended: by itself, or by the SIGKILL of `killGroup`.
abbrev exit_after : Option ℕ → ℕ
exit_after none = stop_grace
exit_after (some ms) = min ms stop_grace

-- When the loop of `run` has returned (`done`), if the stop was requested at `t`. WaitDelay bounds the
-- time that cmd.Wait waits for the pipe.
pub done_at : ℕ → Plugin → Option ℕ
done_at t resting = some t
done_at t (running exits held) = some ((t + exit_after exits) + min held pipe_grace)
done_at t stuck = none

-- The time, and how many plugins did not stop.
pub record Clock : Type 0 where
  pub now : ℕ
  pub overdue : ℕ

abbrev later : ℕ → ℕ → ℕ
later a b = if ltb a b then b else a

abbrev timed_out : Clock → Clock
timed_out c = record { now = c.now + wait_limit; overdue = suc c.overdue }

-- `waitStopped` for a loop that returns at the given time.
pub wait_stopped : Option ℕ → Clock → Clock
wait_stopped none c = timed_out c
wait_stopped (some done) c =
    if ltb (c.now + wait_limit) done then timed_out c else record c { now = later c.now done }

-- The first loop of `stopGuards`: all stops are requested at once.
pub request_all : List Plugin → ℕ → List (Option ℕ)
request_all [] t = []
request_all (p ∷ plugins) t = done_at t p ∷ request_all plugins t

-- The second one.
pub wait_all : List (Option ℕ) → Clock → Clock
wait_all [] c = c
wait_all (done ∷ rest) c = wait_all rest (wait_stopped done c)

-- `stopGuards`
pub stop_guards_at : List Plugin → ℕ → Clock
stop_guards_at plugins t = wait_all (request_all plugins t) (record { now = t; overdue = 0 })
