-- ===== src/PluginPool/StopRace.antt =====
-- `guard.requestStop`, `attach`, `detach` and `killGroup` of native/pluginpool/host.go under every
-- interleaving with the loop of `run`. Each locked section is one step, and so is each system call.
pub mod Safety
pub mod Ending
mod Examples
use android_lib_box_lite.Common.{ℕ, Bool, true, false, Option, none, some, if◌then◌else◌, ◌≡◌}

-- Where the thread of `run` stands. The number is the plugin's process.
pub data Place : Type 0 where
  -- Before cmd.Start, which may also fail.
  starting : Place
  -- Between cmd.Start and the lock of `attach`.
  forked : ℕ → Place
  -- Behind the lock of `attach`, which read `stopping`: children.Store is next.
  storing : ℕ → Bool → Place
  -- `stopping` was set: process.Kill is next.
  must_kill : ℕ → Place
  -- In cmd.Wait.
  waiting : ℕ → Place
  -- Between the return of cmd.Wait and children.Delete of `detach`, and from there to its lock.
  reaped : ℕ → Place
  deleted : ℕ → Place
  -- Between `detach` and isStopping.
  detached : Place
  -- In the select on the stop channel and the timer.
  delaying : Place
  finished : Place

pub data Signal : Type 0 where
  terminate kill kill_group : Signal

pub record Guard : Type 0 where
  pub place : Place
  -- The fields `process`, `stopping` and `kill` of the guard; `timer` is true while it is armed.
  pub process : Option ℕ
  -- The guard's entry in `children` of the host.
  pub child : Option ℕ
  pub stopping : Bool
  pub timer : Bool
  -- The last signal that was sent to the present process.
  pub sent : Option Signal

-- `attach`: the process is published, and the flag is read under the same lock.
unfoldable pub attach : ℕ → Guard → Guard
attach pid g = record g { process = some pid; place = storing pid g.stopping; sent = none }

-- children.Store of `attach`; `stopping` is what was read under the lock.
unfoldable pub store_child : ℕ → Bool → Guard → Guard
store_child pid stopping g = record g {
  child = some pid;
  place = if stopping then must_kill pid else waiting pid;
}

-- process.Kill of `attach`.
unfoldable pub kill_attached : ℕ → Guard → Guard
kill_attached pid g = record g { place = waiting pid; sent = some kill }

-- children.Delete of `detach`, and then its locked section.
unfoldable pub delete_child : ℕ → Guard → Guard
delete_child pid g = record g { child = none; place = deleted pid }

unfoldable pub detach : Guard → Guard
detach g = record g { place = detached; process = none }

unfoldable pub check_stopping : Guard → Guard
check_stopping g = record g { place = if g.stopping then finished else delaying }

abbrev signal_stop : Option ℕ → Guard → Guard
signal_stop none g = g
signal_stop (some pid) g = record g { sent = some terminate; timer = true }

unfoldable pub request_stop : Guard → Guard
request_stop g = if g.stopping then g else signal_stop g.process (record g { stopping = true })

abbrev signal_group : Option ℕ → Guard → Guard
signal_group none g = g
signal_group (some pid) g = record g { sent = some kill_group }

-- `killGroup`, when the timer fires.
unfoldable pub fire_timer : Guard → Guard
fire_timer g = signal_group g.process (record g { timer = false })

-- The end of `waitStopped`, which a caller of `requestStop` may reach at any time.
unfoldable pub stop_timer : Guard → Guard
stop_timer g = record g { timer = false }

-- What may happen next: a step of the loop, of a caller of `requestStop`, or of the timer.
pub data Step (g : Guard) : Guard → Type 0 where
  start_fails : g.place ≡ starting → Step g (record g { place = finished })
  fork : (pid : ℕ) → g.place ≡ starting → Step g (record g { place = forked pid })
  attaches : (pid : ℕ) → g.place ≡ forked pid → Step g (attach pid g)
  stores :
      (pid : ℕ) (stopping : Bool)
      → g.place ≡ storing pid stopping
      → Step g (store_child pid stopping g)
  kills : (pid : ℕ) → g.place ≡ must_kill pid → Step g (kill_attached pid g)
  exits : (pid : ℕ) → g.place ≡ waiting pid → Step g (record g { place = reaped pid })
  deletes : (pid : ℕ) → g.place ≡ reaped pid → Step g (delete_child pid g)
  detaches : (pid : ℕ) → g.place ≡ deleted pid → Step g (detach g)
  checks : g.place ≡ detached → Step g (check_stopping g)
  gives_up : g.place ≡ detached → Step g (record g { place = finished })
  timer_fires : g.place ≡ delaying → Step g (record g { place = starting })
  sees_stop : g.place ≡ delaying → g.stopping ≡ true → Step g (record g { place = finished })
  requests_stop : Step g (request_stop g)
  kill_timer : g.timer ≡ true → Step g (fire_timer g)
  stops_timer : Step g (stop_timer g)

pub data Reach (s : Guard) : Guard → Type 0 where
  here : Reach s s
  next : {g g' : Guard} → Reach s g → Step g g' → Reach s g'

-- The guard that `start` builds.
abbrev pub new_guard : Guard
new_guard = record {
  place = starting;
  process = none;
  child = none;
  stopping = false;
  timer = false;
  sent = none;
}
