-- ===== src/PluginPool/Host/Spared.antt =====
-- Which processes survive an `Apply`: a reload restarts only the plugins that have changed or ended.
use android_lib_box_lite.Common.{
  ℕ, ◌<◌, ◌==◌, Bool, false, not, ◌&&◌, ◌||◌, Option, none, some, List, [], ◌∷◌, Str, has, has_id,
  ◌≡◌, refl, ap, ◌∙◌, arith, Bool-cases, if-split, inl, inr,
}
use android_lib_box_lite.PluginPool.Options.{Options, Spec}
use android_lib_box_lite.PluginPool.World.{World, Os, IsAccounted}
use android_lib_box_lite.PluginPool.Guards.{Error, Guard}
use android_lib_box_lite.PluginPool.Host.{
  Host, guards_of, update_server, protect_path_of, verify_of, start_wanted, keeps, kept, removed,
  drop_unwanted, wanted_keys, stop_on_error, apply,
}
use android_lib_box_lite.PluginPool.Host.Stop.{ids_of, stop_guards-world}
use android_lib_box_lite.PluginPool.Host.Consistency.{IsConsistent}
use android_lib_box_lite.PluginPool.Host.Calls.{and_then-keeps, reconcile, apply-IsConsistent}
use android_lib_box_lite.PluginPool.Host.Reload.{IsReloaded, apply-IsReloaded}
use android_lib_box_lite.PluginPool.Host.Numbers.{IsOld, start_wanted-IsOld, replace_server-IsOld}

-- Whether a plugin of the map with this number is wanted and still runs.
abbrev pub is_spared : Os → World → List Str → ℕ → List (Str × Guard) → Bool
is_spared os w wanted id [] = false
is_spared os w wanted id ((key, g) ∷ guards) =
    (g.id == id && (has wanted key && not (os.exited w g.id))) || is_spared os w wanted id guards

module _ (spec_key : Str → Spec → Str) (os : Os) (options : Option Options) (h : Host) where
  abbrev wanted : List Str
  wanted = wanted_keys spec_key options

  kept-is_spared :
      (guards : List (Str × Guard)) (id : ℕ)
      → has_id (ids_of (guards_of (kept spec_key os h.world wanted guards))) id
        ≡ is_spared os h.world wanted id guards
  unfolding kept guards_of has_id
  kept-is_spared [] id = refl
  kept-is_spared ((key, g) ∷ guards) id =
      elim (Bool-cases (keeps spec_key os h.world wanted (key, g))) [
        | inl e ↦ rw e (ground (arith, kept-is_spared guards id))
        | inr e ↦ rw e (ground (arith, kept-is_spared guards id))
      ]

  abbrev survivors : List ℕ
  survivors = ids_of (guards_of (kept spec_key os h.world wanted h.guards))

  reconcile-IsOld : IsOld h.world.next survivors (reconcile spec_key os options h).0
  unfolding update_server drop_unwanted
  reconcile-IsOld =
      let d = drop_unwanted spec_key os options h in
      let gone = guards_of (removed spec_key os h.world wanted h.guards) in
      let (running, next, sockets, files, accounted) = stop_guards-world gone h.world [] in
      and_then-keeps (IsOld h.world.next survivors) (update_server os options d)
        (start_wanted spec_key os options)
        (replace_server-IsOld os h.world.next survivors (protect_path_of options)
          (verify_of options) d d.server
          (record { below = omega (arith, next); same = λ id b. refl }))
        (start_wanted-IsOld h.world.next survivors spec_key os options)

  uncleaned-IsOld :
      (r : Host × Option Error)
      → IsOld h.world.next survivors r.0
      → (stop_on_error spec_key r).1 ≡ none
      → IsOld h.world.next survivors (stop_on_error spec_key r).0
  uncleaned-IsOld (h', none) v m = v
  uncleaned-IsOld (h', some e) v m = cc

  apply-IsOld :
      (apply spec_key os options h).1 ≡ none
      → IsOld h.world.next survivors (apply spec_key os options h).0
  unfolding apply
  apply-IsOld =
      if-split (λ (r : Host × Option Error). r.1 ≡ none → IsOld h.world.next survivors r.0) h.closed
        (λ _ m. cc) (λ _. uncleaned-IsOld (reconcile spec_key os options h) reconcile-IsOld)

-- What an `Apply` that succeeds makes of a consistent host.
pub record IsRenewed (spec_key : Str → Spec → Str) (os : Os) (options : Option Options)
    (h h' : Host) : Type 0 where
  pub reloaded : IsReloaded spec_key os options h h'
  -- What else there is was given up, or could not be removed.
  pub accounted : IsAccounted h'.world
  -- Of the processes that ran before, those stay that are wanted and have not ended.
  pub spared :
      (id : ℕ)
      → id < h.world.next
      → has_id h'.world.running id ≡ is_spared os h.world (wanted_keys spec_key options) id h.guards

-- An `Apply` that succeeds on a consistent host leaves exactly the plugins of the envelope in the map, keeps
-- the guard of a wanted plugin that still runs, and serves the protect path of the envelope, if it has one.
-- Of the processes that were started before, exactly those are still supervised whose plugin is still
-- wanted and has not ended; so a reload restarts only what has changed. The others were stopped, and only
-- one that outlives the limit of waitStopped may run on.
pub apply-IsRenewed :
    (spec_key : Str → Spec → Str) (os : Os) (options : Option Options) (h : Host)
    → IsConsistent h
    → (apply spec_key os options h).1 ≡ none
    → IsRenewed spec_key os options h (apply spec_key os options h).0
apply-IsRenewed spec_key os options h v m = record {
  reloaded = apply-IsReloaded spec_key os options h m;
  accounted = (apply-IsConsistent spec_key os options h v).accounted;
  spared = λ id b.
      ap (λ (l : List ℕ). has_id l id) (apply-IsConsistent spec_key os options h v).supervised
      ∙ (apply-IsOld spec_key os options h m).same id b
      ∙ kept-is_spared spec_key os options h h.guards id;
}
