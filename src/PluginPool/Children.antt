-- ===== src/PluginPool/Children.antt =====
-- The guards of one host (native/pluginpool/host.go) over the map of its children, which they share: every
-- interleaving of their steps.
pub mod Peers
mod Examples
use android_lib_box_lite.Common.{ℕ, Bool, true, false, some, ◌==◌, if◌then◌else◌, ◌≡◌}
use android_lib_box_lite.Common.Strconv.{ℤ, pos, negsuc}
use android_lib_box_lite.PluginPool.StopRace.{
  Guard, new_guard, Step, start_fails, fork, attaches, stores, kills, exits, deletes, detaches,
  checks, gives_up, timer_fires, sees_stop, requests_stop, kill_timer, stops_timer,
}

-- `children` as a set of processes, and the guards by number; one that is not started takes no step.
pub record Crew : Type 0 where
  pub guards : ℕ → Guard
  pub children : ℕ → Bool

abbrev pub set_at {ℓ} : {A : Type ℓ} → ℕ → A → (ℕ → A) → ℕ → A
set_at i a f j = if i == j then a else f j

-- What a step of a guard does to the map: children.Store and children.Delete.
pub children_after : {g g' : Guard} → Step g g' → (ℕ → Bool) → ℕ → Bool
children_after (stores pid stopping e) children = set_at pid true children
children_after (deletes pid e) children = set_at pid false children
children_after (start_fails e) children = children
children_after (fork pid e) children = children
children_after (attaches pid e) children = children
children_after (kills pid e) children = children
children_after (exits pid e) children = children
children_after (detaches pid e) children = children
children_after (checks e) children = children
children_after (gives_up e) children = children
children_after (timer_fires e) children = children
children_after (sees_stop e f) children = children
children_after requests_stop children = children
children_after (kill_timer e) children = children
children_after stops_timer children = children

abbrev pub act : (c : Crew) (i : ℕ) {g : Guard} → Step (c.guards i) g → Crew
act c i {g} s = record { guards = set_at i g c.guards; children = children_after s c.children }

pub data CrewStep (c : Crew) : Crew → Type 0 where
  acts : (i : ℕ) {g : Guard} (s : Step (c.guards i) g) → CrewStep c (act c i s)

pub data CrewReach (c : Crew) : Crew → Type 0 where
  unmoved : CrewReach c c
  moved : {d e : Crew} → CrewReach c d → CrewStep d e → CrewReach c e

abbrev pub new_crew : Crew
new_crew = record { guards = λ i. new_guard; children = λ pid. false }

-- `isChild`; a process has no negative number.
abbrev pub is_child : Crew → ℤ → Bool
is_child c (pos pid) = c.children pid
is_child c (negsuc n) = false
