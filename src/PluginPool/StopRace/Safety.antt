-- ===== src/PluginPool/StopRace/Safety.antt =====
-- A stop request reaches the plugin, wherever the loop of `run` stands when it comes.
use android_lib_box_lite.Common.{
  ℕ, Bool, true, false, not, Option, none, some, if◌then◌else◌, ◌≡◌, ◌⊎◌, ◌↔◌, inl, inr, refl, sym,
  ap, ◌∙◌, arith, is_some,
}
use android_lib_box_lite.PluginPool.StopRace.{
  starting, forked, detached, delaying, finished, Place, storing, deleted, store_child,
  delete_child, stores, deletes, must_kill, waiting, reaped, kill_group, Guard, attach,
  kill_attached, detach, check_stopping, request_stop, fire_timer, stop_timer, Step, Reach,
  new_guard, start_fails, fork, attaches, kills, exits, detaches, checks, gives_up, timer_fires,
  sees_stop, requests_stop, kill_timer, stops_timer, here, next,
}

-- The process that the guard holds at a place of the loop.
abbrev pub held_at : Place → Option ℕ
held_at (storing pid stopping) = some pid
held_at (deleted pid) = some pid
held_at (must_kill pid) = some pid
held_at (waiting pid) = some pid
held_at (reaped pid) = some pid
held_at _ = none

-- The process that is in `children` at a place of the loop.
abbrev pub child_at : Place → Option ℕ
child_at (must_kill pid) = some pid
child_at (waiting pid) = some pid
child_at (reaped pid) = some pid
child_at _ = none

abbrev is_waiting : Place → Bool
is_waiting (storing pid stopping) = not stopping
is_waiting (waiting pid) = true
is_waiting _ = false

abbrev is_killing : Place → Bool
is_killing (storing pid stopping) = stopping
is_killing (must_kill pid) = true
is_killing _ = false

pub record Inv (g : Guard) : Type 0 where
  -- The guard's process is the one that the loop waits for.
  pub held : g.process ≡ held_at g.place
  pub known : g.child ≡ child_at g.place
  -- A process that is waited for after a stop request has been signalled.
  pub signalled : is_waiting g.place ≡ true → g.stopping ≡ true → is_some g.sent ≡ true
  -- The kill timer and the kill of `attach` come only after a stop request.
  pub armed : g.timer ≡ true → g.stopping ≡ true
  pub killing : is_killing g.place ≡ true → g.stopping ≡ true

Step-Inv : {g g' : Guard} → Step g g' → Inv g → Inv g'
unfolding attach store_child delete_child kill_attached detach check_stopping request_stop
    fire_timer stop_timer
Step-Inv (start_fails e) v = ground arith
Step-Inv (fork pid e) v = ground arith
Step-Inv (attaches pid e) v = ground arith
Step-Inv (stores pid true e) v = ground arith
Step-Inv (stores pid false e) v = ground arith
Step-Inv (kills pid e) v = ground arith
Step-Inv (exits pid e) v = ground arith
Step-Inv (deletes pid e) v = ground arith
Step-Inv (detaches pid e) v = ground arith
Step-Inv (checks e) v = ground arith
Step-Inv (gives_up e) v = ground arith
Step-Inv (timer_fires e) v = ground arith
Step-Inv (sees_stop e f) v = ground arith
Step-Inv requests_stop v = ground arith
Step-Inv (kill_timer e) v = ground arith
Step-Inv stops_timer v = ground arith

pub Reach-Inv : {g : Guard} → Reach new_guard g → Inv g
Reach-Inv here = ground arith
Reach-Inv (next r s) = Step-Inv s (Reach-Inv r)

-- In every interleaving, a process that the loop waits for after a stop request has been sent a
-- signal: by the request itself, by the timer, or by `attach`.
pub stop_reaches_process :
    (g : Guard) (pid : ℕ)
    → Reach new_guard g
    → g.place ≡ waiting pid
    → g.stopping ≡ true
    → is_some g.sent ≡ true
stop_reaches_process g pid r p s = ground (arith, (Reach-Inv r).signalled)

-- In every interleaving, an armed timer means that a stop was requested, and when it fires it signals the
-- group of the guard's process if the loop stands between `attach` and `detach`, and nothing else.
pub timer_signals_own_process :
    (g : Guard)
    → Reach new_guard g
    → g.timer ≡ true
    → (g.stopping ≡ true)
      × ((fire_timer g).sent ≡ (if is_some (held_at g.place) then some kill_group else g.sent))
unfolding fire_timer
timer_signals_own_process g r t = ground (arith, Reach-Inv r)

-- In every interleaving, `children` holds the guard's process exactly from children.Store of `attach` to
-- children.Delete of `detach`: while process.Kill or cmd.Wait is next, or cmd.Wait has just returned.
pub child_iff :
    (g : Guard) (pid : ℕ)
    → Reach new_guard g
    → (g.child ≡ some pid)
      ↔ ((g.place ≡ must_kill pid) ⊎ (g.place ≡ waiting pid) ⊎ (g.place ≡ reaped pid))
child_iff g pid r = (
  λ h. at_child g.place refl ((sym (Reach-Inv r).known) ∙ h),
  λ h. elim h [
    | inl e ↦ (Reach-Inv r).known ∙ ap child_at e
    | inr (inl e) ↦ (Reach-Inv r).known ∙ ap child_at e
    | inr (inr e) ↦ (Reach-Inv r).known ∙ ap child_at e
  ],
)
  where
    at_child :
        (p : Place)
        → g.place ≡ p
        → child_at p ≡ some pid
        → (g.place ≡ must_kill pid) ⊎ (g.place ≡ waiting pid) ⊎ (g.place ≡ reaped pid)
    at_child starting e h = cc
    at_child (forked x) e h = cc
    at_child (storing x b) e h = cc
    at_child (must_kill x) e h = inl (cc (e, h))
    at_child (waiting x) e h = inr (inl (cc (e, h)))
    at_child (reaped x) e h = inr (inr (cc (e, h)))
    at_child (deleted x) e h = cc
    at_child detached e h = cc
    at_child delaying e h = cc
    at_child finished e h = cc
