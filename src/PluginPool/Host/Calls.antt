-- ===== src/PluginPool/Host/Calls.antt =====
-- `Apply` and `Close` keep the host consistent, and an `Apply` that fails stops everything.
use android_lib_box_lite.Common.{
  true, false, Option, none, some, List, [], ◌∷◌, ◌++◌, Str, ◌≡◌, refl, Bool-cases, if-split,
  Option-cases, inl, inr,
}
use android_lib_box_lite.PluginPool.Options.{Options, Spec}
use android_lib_box_lite.PluginPool.World.{Os}
use android_lib_box_lite.PluginPool.Host.{
  Host, guards_of, find_guard, stop_all, close, update_server, and_then, start_one, start_each,
  start_missing, drop_unwanted, start_wanted, stop_on_error, apply,
}
use android_lib_box_lite.PluginPool.Guards.{Error, host_closed, start}
use android_lib_box_lite.PluginPool.Host.Reported.{late}
use android_lib_box_lite.PluginPool.Host.Start.{start_outcome}
use android_lib_box_lite.PluginPool.Host.Consistency.{
  IsConsistent, IsStopped, stop_all-overdue, stop_all-IsStopped, IsStopped-IsConsistent,
}
use android_lib_box_lite.PluginPool.Host.Steps.{drop_unwanted-IsConsistent, started-IsConsistent}
use android_lib_box_lite.PluginPool.Host.Listening.{
  Result-IsConsistent, replace_server-IsConsistent,
}

pub and_then-keeps :
    (P : Host → Type 0) (m : Host × Option Error) (k : Host → Host × Option Error)
    → P m.0
    → ((h : Host) → P h → P (k h).0)
    → P (and_then m k).0
and_then-keeps P (h, some e) k p q = p
and_then-keeps P (h, none) k p q = q h p

module _ (spec_key : Str → Spec → Str) (os : Os) where
  start_one-IsConsistent :
      (dir : Str) (spec : Spec) (h : Host)
      → IsConsistent h
      → IsConsistent (start_one spec_key os dir spec h).0
  start_one-IsConsistent dir spec h v =
      elim (Option-cases (find_guard (spec_key dir spec) h.guards)) [
        | inl e ↦
            rw (e, start_one)
              (started-IsConsistent spec_key os (spec_key dir spec) h (start os dir spec h.world) v
                (start_outcome os dir spec h.world))
        | inr (g, e) ↦ rw (e, start_one) v
      ]

  start_each-IsConsistent :
      (dir : Str) (specs : List Spec) (h : Host)
      → IsConsistent h
      → IsConsistent (start_each spec_key os dir specs h).0
  unfolding start_each
  start_each-IsConsistent dir [] h v = v
  start_each-IsConsistent dir (spec ∷ specs) h v =
      and_then-keeps IsConsistent (start_one spec_key os dir spec h)
        (start_each spec_key os dir specs) (start_one-IsConsistent dir spec h v)
        (λ h' v'. start_each-IsConsistent dir specs h' v')

  start_wanted-IsConsistent :
      (options : Option Options) (h : Host)
      → IsConsistent h
      → IsConsistent (start_wanted spec_key os options h).0
  unfolding start_missing
  start_wanted-IsConsistent none h v = v
  start_wanted-IsConsistent (some o) h v =
      elim (Bool-cases (os.mkdir_fails h.world o.working_dir)) [
        | inl e ↦ rw e v
        | inr e ↦ rw e (start_each-IsConsistent o.working_dir o.plugins h v)
      ]

  -- The part of `Apply` before the cleanup of a failure.
  abbrev pub reconcile : Option Options → Host → Host × Option Error
  reconcile options h =
      and_then (update_server os options (drop_unwanted spec_key os options h))
        (start_wanted spec_key os options)

  reconcile-IsConsistent :
      (options : Option Options) (h : Host) → IsConsistent h → IsConsistent (reconcile options h).0
  unfolding update_server
  reconcile-IsConsistent options h v =
      and_then-keeps IsConsistent _ (start_wanted spec_key os options)
        (replace_server-IsConsistent os _ _ (drop_unwanted spec_key os options h) _ refl
          (drop_unwanted-IsConsistent spec_key os options h v))
        (start_wanted-IsConsistent options)

-- `Apply` keeps a consistent host consistent, whatever it answers: the plugins that run are those of its
-- map, each once, every plugin file belongs to one of them, and the socket that is listened on is that of
-- its server. Besides those there are only plugins that were given up because they outlive the limit of
-- waitStopped, and files that os.Remove has failed on.
pub apply-IsConsistent :
    (spec_key : Str → Spec → Str) (os : Os) (options : Option Options) (h : Host)
    → IsConsistent h
    → IsConsistent (apply spec_key os options h).0
unfolding apply
apply-IsConsistent spec_key os options h v =
    if-split Result-IsConsistent h.closed (λ _. v)
      (λ _.
        cleaned_up (reconcile spec_key os options h)
          (reconcile-IsConsistent spec_key os options h v))
  where
    cleaned_up :
        (r : Host × Option Error) → IsConsistent r.0 → IsConsistent (stop_on_error spec_key r).0
    cleaned_up (h', none) v' = v'
    cleaned_up (h', some x) v' = IsStopped-IsConsistent (stop_all-IsStopped h' v')

-- An `Apply` that fails on an open, consistent host leaves no socket behind, no plugin but those that outlive
-- the limit of waitStopped, and no plugin file but those that os.Remove fails on.
pub apply_failed-IsStopped :
    (spec_key : Str → Spec → Str) (os : Os) (options : Option Options) (h : Host) {e : Error}
    → IsConsistent h
    → h.closed ≡ false
    → (apply spec_key os options h).1 ≡ some e
    → IsStopped (apply spec_key os options h).0
unfolding apply
apply_failed-IsStopped spec_key os options h {e} v alive failed =
    if-split (λ (r : Host × Option Error). r.1 ≡ some e → IsStopped r.0) h.closed
      (λ shut. cc (alive, shut))
      (λ _.
        stopped (reconcile spec_key os options h) (reconcile-IsConsistent spec_key os options h v))
      failed
  where
    stopped :
        (r : Host × Option Error)
        → IsConsistent r.0
        → (stop_on_error spec_key r).1 ≡ some e
        → IsStopped (stop_on_error spec_key r).0
    stopped (h', none) v' f = cc
    stopped (h', some x) v' f = stop_all-IsStopped h' v'

closed-IsConsistent : (h : Host) → IsConsistent h → IsConsistent (record h { closed = true })
closed-IsConsistent h v = record {
  supervised = v.supervised;
  distinct = v.distinct;
  given_out = v.given_out;
  owned = v.owned;
  listening = v.listening;
  accounted = v.accounted;
}

pub close-closed : (h : Host) → (close h).closed ≡ true
unfolding close stop_all
close-closed h = if-split (λ (g : Host). g.closed ≡ true) h.closed (λ e. e) (λ e. refl)

shut_same : (h : Host) → h.closed ≡ true → close h ≡ h
unfolding close
shut_same h e = if-split (λ (g : Host). g ≡ h) h.closed (λ _. refl) (λ f. cc (e, f))

pub apply_shut :
    (spec_key : Str → Spec → Str) (os : Os) (options : Option Options) (h : Host)
    → h.closed ≡ true
    → apply spec_key os options h ≡ (h, some host_closed)
unfolding apply
apply_shut spec_key os options h e =
    if-split (λ (r : Host × Option Error). r ≡ (h, some host_closed)) h.closed (λ _. refl)
      (λ f. cc (e, f))

pub close-IsStopped : (h : Host) → IsConsistent h → h.closed ≡ false → IsStopped (close h)
unfolding close
close-IsStopped h v alive =
    if-split IsStopped h.closed (λ shut. cc (alive, shut))
      (λ _. stop_all-IsStopped (record h { closed = true }) (closed-IsConsistent h v))

pub close-IsConsistent : (h : Host) → IsConsistent h → IsConsistent (close h)
unfolding close
close-IsConsistent h v =
    if-split IsConsistent h.closed (λ _. v)
      (λ _.
        IsStopped-IsConsistent
          (stop_all-IsStopped (record h { closed = true }) (closed-IsConsistent h v)))

close-overdue :
    (h : Host)
    → h.closed ≡ false
    → (close h).world.overdue ≡ h.world.overdue ++ late h.world.outlives (guards_of h.guards)
unfolding close
close-overdue h alive =
    if-split
      (λ (g : Host).
        g.world.overdue ≡ h.world.overdue ++ late h.world.outlives (guards_of h.guards))
      h.closed (λ shut. cc (alive, shut)) (λ _. stop_all-overdue (record h { closed = true }))

-- `Close` keeps a consistent host consistent. On an open host it leaves no socket, no plugin file but those
-- that os.Remove fails on, and no plugin but those given up before and exactly those of the map that
-- outlive the limit of waitStopped. A second call does nothing. After it `Apply` answers that the host is
-- closed and changes nothing.
pub close_lem :
    (spec_key : Str → Spec → Str) (os : Os) (options : Option Options) (h : Host)
    → IsConsistent h
    → IsConsistent (close h)
      × (h.closed ≡ false
          → IsStopped (close h)
            × ((close h).world.overdue
                ≡ h.world.overdue ++ late h.world.outlives (guards_of h.guards)))
      × (close (close h) ≡ close h)
      × (apply spec_key os options (close h) ≡ (close h, some host_closed))
close_lem spec_key os options h v = (
  close-IsConsistent h v,
  λ alive. (close-IsStopped h v alive, close-overdue h alive),
  shut_same (close h) (close-closed h),
  apply_shut spec_key os options (close h) (close-closed h),
)
