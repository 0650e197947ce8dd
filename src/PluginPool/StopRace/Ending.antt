-- ===== src/PluginPool/StopRace/Ending.antt =====
-- After a stop request the loop of `run` comes to its end.
use android_lib_box_lite.Common.{
  ℕ, suc, ◌+◌, ◌≤◌, Bool, true, false, if◌then◌else◌, ◌≡◌, ◌⊎◌, inl, inr, refl, arith,
}
use android_lib_box_lite.PluginPool.StopRace.{
  storing, deleted, store_child, delete_child, stores, deletes, Place, starting, forked, must_kill,
  waiting, reaped, detached, delaying, finished, Guard, attach, kill_attached, detach,
  check_stopping, request_stop, fire_timer, stop_timer, Step, Reach, start_fails, fork, attaches,
  kills, exits, detaches, checks, gives_up, timer_fires, sees_stop, requests_stop, kill_timer,
  stops_timer, here, next,
}

-- The steps of the loop, as opposed to those of callers and of the kill timer.
abbrev pub is_loop_step : {g g' : Guard} → Step g g' → Bool
is_loop_step requests_stop = false
is_loop_step (kill_timer e) = false
is_loop_step stops_timer = false
is_loop_step _ = true

pub loop_steps : {g g' : Guard} → Reach g g' → ℕ
loop_steps here = 0
loop_steps (next r s) = let n = loop_steps r in if is_loop_step s then suc n else n

-- How many steps of the loop are left at most, once a stop was requested.
abbrev rank : Place → ℕ
rank delaying = 9
rank starting = 8
rank (forked pid) = 7
rank (storing pid stopping) = 6
rank (must_kill pid) = 5
rank (waiting pid) = 4
rank (reaped pid) = 3
rank (deleted pid) = 2
rank detached = 1
rank finished = 0

rank-le : (p : Place) → rank p ≤ 9
rank-le p = ground arith

-- With the flag set, a step keeps the flag, and a step of the loop lowers the rank.
Falls : {g g' : Guard} → Step g g' → Type 0
Falls {g} {g'} s =
    (g'.stopping ≡ true) × ((if is_loop_step s then 1 else 0) + rank g'.place ≤ rank g.place)

Step-Falls : {g g' : Guard} (s : Step g g') → g.stopping ≡ true → Falls s
unfolding Falls attach store_child delete_child kill_attached detach check_stopping request_stop
    fire_timer stop_timer
Step-Falls (start_fails e) h = ground arith
Step-Falls (fork pid e) h = ground arith
Step-Falls (attaches pid e) h = ground arith
Step-Falls (stores pid true e) h = ground arith
Step-Falls (stores pid false e) h = ground arith
Step-Falls (kills pid e) h = ground arith
Step-Falls (exits pid e) h = ground arith
Step-Falls (deletes pid e) h = ground arith
Step-Falls (detaches pid e) h = ground arith
Step-Falls (checks e) h = ground arith
Step-Falls (gives_up e) h = ground arith
Step-Falls (timer_fires e) h = ground arith
Step-Falls (sees_stop e f) h = ground arith
Step-Falls requests_stop h = ground arith
Step-Falls (kill_timer e) h = ground arith
Step-Falls stops_timer h = ground arith

Reach-Falls :
    {g g' : Guard} (r : Reach g g')
    → g.stopping ≡ true
    → (g'.stopping ≡ true) × (loop_steps r + rank g'.place ≤ rank g.place)
unfolding loop_steps Falls
Reach-Falls here h = (h, omega arith)
Reach-Falls (next r s) h =
    let (flag, before) = Reach-Falls r h in
    let (flag', fall) = Step-Falls s flag in (flag', ground (arith, fall, before))

-- The loop can always go on, unless it is finished.
loop_goes_on :
    (g : Guard) (p : Place)
    → g.place ≡ p
    → (p ≡ finished) ⊎ ((g' : Guard) × (s : Step g g') × (is_loop_step s ≡ true))
loop_goes_on g starting e = inr (_, start_fails e, refl)
loop_goes_on g (forked pid) e = inr (_, attaches pid e, refl)
loop_goes_on g (must_kill pid) e = inr (_, kills pid e, refl)
loop_goes_on g (waiting pid) e = inr (_, exits pid e, refl)
loop_goes_on g (storing pid stopping) e = inr (_, stores pid stopping e, refl)
loop_goes_on g (reaped pid) e = inr (_, deletes pid e, refl)
loop_goes_on g (deleted pid) e = inr (_, detaches pid e, refl)
loop_goes_on g detached e = inr (_, checks e, refl)
loop_goes_on g delaying e = inr (_, timer_fires e, refl)
loop_goes_on g finished e = inl refl

-- Once a stop is requested, the loop makes at most nine more steps in every interleaving, and as long
-- as it is not finished, a step of the loop is possible.
pub stop_ends_loop :
    (g g' : Guard) (r : Reach g g')
    → g.stopping ≡ true
    → (loop_steps r ≤ 9)
      × ((g'.place ≡ finished) ⊎ ((g'' : Guard) × (s : Step g' g'') × (is_loop_step s ≡ true)))
stop_ends_loop g g' r h =
    (omega (arith, (Reach-Falls r h).1, rank-le g.place), loop_goes_on g' g'.place refl)
