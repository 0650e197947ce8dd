-- ===== src/CommandServer/Failures.antt =====
-- Failures of hosts that the command server has replaced or closed.
use android_lib_box_lite.Common.{
  ℕ, ◌<◌, Bool, true, false, ◌&&◌, Option, none, some, Str, ◌==◌, ◌≡◌, if-split, refl, ap, arith,
}
use android_lib_box_lite.PluginPool.Options.{Options, Spec, Result, ok, err}
use android_lib_box_lite.PluginPool.World.{Os}
use android_lib_box_lite.PluginPool.Guards
use android_lib_box_lite.PluginPool.Host.{Host, apply}
use android_lib_box_lite.PluginPool.Envelope.{parse}
use android_lib_box_lite.CommandServer.{
  Server, close_current, close_plugins, host_or_new, plugin_host, start_service, with_host, applied,
  applied_apart, apply_plugins, Overlap, alone, closed_first, closed_then, start_parsed,
  start_or_reload, is_current, plugin_failed, Step, starts, closes, host_fails, Reach, here, next,
}

-- The host with this number is past: it has been given out, and is not the present one.
abbrev pub IsPast : ℕ → Server → Type 0
IsPast id s = (id < s.next) × (is_current id s.current ≡ false)

module _ (id : ℕ) where
  close_plugins-IsPast : (s : Server) → id < s.next → IsPast id (close_plugins s)
  unfolding close_plugins
  close_plugins-IsPast s b = closed s.current refl
    where
      closed : (o : Option (ℕ × Host)) → s.current ≡ o → IsPast id (close_current o s)
      closed none e = (b, ap (is_current id) e)
      closed (some (id', h)) e = (b, refl)

  plugin_host-IsPast :
      (s : Server)
      → IsPast id s
      → (id < (plugin_host s).1.next) × (((plugin_host s).0.0 == id) ≡ false)
  unfolding plugin_host
  plugin_host-IsPast s (b, n) = present s.current n
    where
      present :
          (o : Option (ℕ × Host))
          → is_current id o ≡ false
          → (id < (host_or_new o s).1.next) × (((host_or_new o s).0.0 == id) ≡ false)
      present none e = (omega arith, ground arith)
      present (some (id', h)) e = (b, e)

  start_service-IsPast :
      (service_fails : Bool) (s : Server)
      → IsPast id s
      → IsPast id (start_service service_fails s).0
  start_service-IsPast true s (b, n) = close_plugins-IsPast s b
  start_service-IsPast false s p = p

  applied-IsPast :
      (service_fails : Bool) (id' : ℕ) (s : Server) (r : Host × Option Guards.Error)
      → id < s.next
      → (id' == id) ≡ false
      → IsPast id (applied service_fails id' s r).0
  applied-IsPast service_fails id' s (h, some e) b n = close_plugins-IsPast (with_host id' s h) b
  applied-IsPast service_fails id' s (h, none) b n =
      start_service-IsPast service_fails (with_host id' s h) (b, n)

  module _ (spec_key : Str → Spec → Str) where
    applied_apart-IsPast :
        (service_fails : Bool) (s : Server) (e : Option Guards.Error)
        → IsPast id s
        → IsPast id (applied_apart service_fails s e).0
    applied_apart-IsPast service_fails s (some e) (b, n) = close_plugins-IsPast s b
    applied_apart-IsPast service_fails s none p = start_service-IsPast service_fails s p

    apply_plugins-IsPast :
        (os : Os) (m : Overlap) (service_fails : Bool) (o : Options) (s : Server)
        → IsPast id s
        → IsPast id (apply_plugins spec_key os m service_fails o (plugin_host s)).0
    apply_plugins-IsPast os alone service_fails o s p =
        let (b, n) = plugin_host-IsPast s p in
        applied-IsPast service_fails (plugin_host s).0.0 (plugin_host s).1
          (apply spec_key os (some o) (plugin_host s).0.1) b n
    apply_plugins-IsPast os closed_first service_fails o s p =
        let (b, n) = plugin_host-IsPast s p in
        applied_apart-IsPast service_fails (close_plugins (plugin_host s).1) _
          (close_plugins-IsPast (plugin_host s).1 b)
    apply_plugins-IsPast os closed_then service_fails o s p =
        let (b, n) = plugin_host-IsPast s p in
        let r = apply spec_key os (some o) (plugin_host s).0.1 in
        let t = with_host (plugin_host s).0.0 (plugin_host s).1 r.0 in
        applied_apart-IsPast service_fails (close_plugins t) r.1 (close_plugins-IsPast t b)

    start_parsed-IsPast :
        (os : Os) (m : Overlap) (service_fails : Bool) (r : Result (Option Options)) (s : Server)
        → IsPast id s
        → IsPast id (start_parsed spec_key os m service_fails r s).0
    start_parsed-IsPast os m service_fails (err e) s p = p
    start_parsed-IsPast os m service_fails (ok none) s (b, n) =
        start_service-IsPast service_fails (close_plugins s) (close_plugins-IsPast s b)
    start_parsed-IsPast os m service_fails (ok (some o)) s p =
        apply_plugins-IsPast os m service_fails o s p

    Step-IsPast : {s t : Server} → Step spec_key s t → IsPast id s → IsPast id t
    unfolding start_or_reload plugin_failed
    Step-IsPast {s} (starts os decode m service_fails content) p =
        start_parsed-IsPast os m service_fails (parse decode content) s p
    Step-IsPast {s} closes (b, n) = close_plugins-IsPast s b
    Step-IsPast {s} (host_fails id') p =
        if-split (IsPast id) (is_current id' s.current && s.has_handler) (λ _. p) (λ _. p)

    Reach-IsPast : {s t : Server} → Reach spec_key s t → IsPast id s → IsPast id t
    Reach-IsPast here p = p
    Reach-IsPast (next r step) p = Step-IsPast step (Reach-IsPast r p)

-- Once the plugins are closed, a failure of a host that was given out before is ignored: then, and after
-- whatever calls and failures follow. The service is not stopped for it.
pub past_failure-ignored :
    (spec_key : Str → Spec → Str) (id : ℕ) (s t : Server)
    → id < s.next
    → Reach spec_key (close_plugins s) t
    → plugin_failed id t ≡ t
unfolding plugin_failed
past_failure-ignored spec_key id s t b r =
    let (_, past) = Reach-IsPast id spec_key r (close_plugins-IsPast id s b) in rw past refl
