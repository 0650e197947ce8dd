-- ===== src/PluginPool/Host/Reported.antt =====
-- In which order plugins are stopped, which are reported as not stopped, and which are given up.
use android_lib_box_lite.Common.{
  ℕ, Bool, inl, inr, Bool-cases, if◌then◌else◌, List, [], ◌∷◌, ◌++◌, ◌≡◌, refl, sym, ap, ◌∙◌,
  append-nil, append_assoc,
}
use android_lib_box_lite.PluginPool.World.{
  World, Event, stop_requested, stop_awaited, not_stopped, log,
}
use android_lib_box_lite.PluginPool.Guards.{
  Guard, request_stops, wait_done, await_stop, await_stops, stop_guards,
}
use android_lib_box_lite.PluginPool.Host.Stop.{
  remove_files-Removes, request_stops-same, await_stop-world,
}

abbrev pub requests : List Guard → List Event
requests [] = []
requests (g ∷ gs) = stop_requested g.id ∷ requests gs

-- Each plugin is waited for, or reported.
abbrev pub awaits : (ℕ → Bool) → List Guard → List Event
awaits outlives [] = []
awaits outlives (g ∷ gs) =
    (if outlives g.id then not_stopped g.id else stop_awaited g.id) ∷ awaits outlives gs

request_stops-trace :
    (gs : List Guard) (w : World) → (request_stops gs w).trace ≡ w.trace ++ requests gs
unfolding request_stops
request_stops-trace [] w = sym (append-nil w.trace)
request_stops-trace (g ∷ gs) w =
    request_stops-trace gs (log (stop_requested g.id) w)
    ∙ append_assoc w.trace (stop_requested g.id ∷ []) (requests gs)

await_stop-trace :
    (g : Guard) (w : World) → (await_stop g w).trace ≡ w.trace ++ awaits w.outlives (g ∷ [])
unfolding await_stop wait_done
await_stop-trace g w =
    (remove_files-Removes g.paths (wait_done g w)).trace
    ∙ elim (Bool-cases (w.outlives g.id)) [ inl e ↦ rw e refl | inr e ↦ rw e refl ]

await_stops-trace :
    (gs : List Guard) (w : World) → (await_stops gs w).trace ≡ w.trace ++ awaits w.outlives gs
unfolding await_stops
await_stops-trace [] w = sym (append-nil w.trace)
await_stops-trace (g ∷ gs) w =
    await_stops-trace gs (await_stop g w)
    ∙ ap (λ (o : ℕ → Bool). (await_stop g w).trace ++ awaits o gs) (await_stop-world g w []).4
    ∙ ap (λ (t : List Event). t ++ awaits w.outlives gs) (await_stop-trace g w)
    ∙ append_assoc w.trace (awaits w.outlives (g ∷ [])) (awaits w.outlives gs)

-- Stopping plugins asks each of them to stop, in order, before it waits for each, in order, and makes no
-- other call; it reports exactly those that outlive the limit.
pub stop_guards-trace :
    (gs : List Guard) (w : World)
    → (stop_guards gs w).trace ≡ w.trace ++ (requests gs ++ awaits w.outlives gs)
unfolding stop_guards
stop_guards-trace gs w =
    await_stops-trace gs (request_stops gs w)
    ∙ ap (λ (o : ℕ → Bool). (request_stops gs w).trace ++ awaits o gs) (request_stops-same gs w).4
    ∙ ap (λ (t : List Event). t ++ awaits w.outlives gs) (request_stops-trace gs w)
    ∙ append_assoc w.trace (requests gs) (awaits w.outlives gs)

-- The plugins that outlive the limit.
abbrev pub late : (ℕ → Bool) → List Guard → List ℕ
late outlives [] = []
late outlives (g ∷ gs) = (if outlives g.id then g.id ∷ [] else []) ++ late outlives gs

request_stops-overdue : (gs : List Guard) (w : World) → (request_stops gs w).overdue ≡ w.overdue
unfolding request_stops
request_stops-overdue [] w = refl
request_stops-overdue (g ∷ gs) w = request_stops-overdue gs (log (stop_requested g.id) w)

wait_done-overdue :
    (g : Guard) (w : World)
    → (wait_done g w).overdue ≡ w.overdue ++ (if w.outlives g.id then g.id ∷ [] else [])
unfolding wait_done
wait_done-overdue g w = elim (Bool-cases (w.outlives g.id)) [
  | inl e ↦ rw e refl
  | inr e ↦ rw e (sym (append-nil w.overdue))
]

await_stops-overdue :
    (gs : List Guard) (w : World) → (await_stops gs w).overdue ≡ w.overdue ++ late w.outlives gs
unfolding await_stops await_stop
await_stops-overdue [] w = sym (append-nil w.overdue)
await_stops-overdue (g ∷ gs) w =
    await_stops-overdue gs (await_stop g w)
    ∙ ap (λ (o : ℕ → Bool). (await_stop g w).overdue ++ late o gs) (await_stop-world g w []).4
    ∙ ap (λ (l : List ℕ). l ++ late w.outlives gs)
        ((remove_files-Removes g.paths (wait_done g w)).overdue ∙ wait_done-overdue g w)
    ∙ append_assoc w.overdue _ (late w.outlives gs)

-- Exactly the plugins that outlive the limit are given up.
pub stop_guards-overdue :
    (gs : List Guard) (w : World) → (stop_guards gs w).overdue ≡ w.overdue ++ late w.outlives gs
unfolding stop_guards
stop_guards-overdue gs w =
    await_stops-overdue gs (request_stops gs w)
    ∙ ap (λ (o : ℕ → Bool). (request_stops gs w).overdue ++ late o gs) (request_stops-same gs w).4
    ∙ ap (λ (l : List ℕ). l ++ late w.outlives gs) (request_stops-overdue gs w)
