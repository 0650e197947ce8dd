-- ===== src/CommandServer/Soundness.antt =====
-- Between its calls the command server has an open, consistent host, or no host and no plugins.
use android_lib_box_lite.Common.{
  ℕ, ◌<◌, ◌&&◌, Bool, true, false, Option, none, some, Str, ◌≡◌, refl, arith, if-split,
}
use android_lib_box_lite.PluginPool.Options.{Options, Spec, Result, ok, err}
use android_lib_box_lite.PluginPool.World.{World, Os}
use android_lib_box_lite.PluginPool.Guards
use android_lib_box_lite.PluginPool.Host.{Host, apply}
use android_lib_box_lite.PluginPool.Host.Lifetime.{
  IsClean, IsLive, new_host-IsLive, apply-IsLive, close-IsClean,
}
use android_lib_box_lite.PluginPool.Envelope.{parse}
use android_lib_box_lite.CommandServer.{
  Server, close_current, close_plugins, host_or_new, plugin_host, start_service, with_host, applied,
  applied_apart, apply_plugins, Overlap, alone, closed_first, closed_then, start_parsed,
  start_or_reload, is_current, plugin_failed, Step, starts, closes, host_fails, next,
}

abbrev pub IsSoundAt : Option (ℕ × Host) → ℕ → World → Type 0
IsSoundAt none n w = IsClean w
IsSoundAt (some (id, h)) n w = IsLive h × (id < n)

abbrev pub IsSound : Server → Type 0
IsSound s = IsSoundAt s.current s.next s.world

-- Closing the plugins leaves none of them.
pub close_plugins-IsClean :
    (s : Server) → IsSound s → ((close_plugins s).current ≡ none) × IsClean (close_plugins s).world
unfolding close_plugins
close_plugins-IsClean s v = closed s.current refl v
  where
    closed :
        (o : Option (ℕ × Host))
        → s.current ≡ o
        → IsSoundAt o s.next s.world
        → ((close_current o s).current ≡ none) × IsClean (close_current o s).world
    closed none e c = (e, c)
    closed (some (id, h)) e (l, _) = (refl, close-IsClean h l)

close_plugins-IsSound : (s : Server) → IsSound s → IsSound (close_plugins s)
close_plugins-IsSound s v = let (none_left, clean) = close_plugins-IsClean s v in rw none_left clean

pub plugin_host-IsSound :
    (s : Server)
    → IsSound s
    → IsLive (plugin_host s).0.1 × ((plugin_host s).0.0 < (plugin_host s).1.next)
unfolding plugin_host
plugin_host-IsSound s v = present s.current v
  where
    present :
        (o : Option (ℕ × Host))
        → IsSoundAt o s.next s.world
        → IsLive (host_or_new o s).0.1 × ((host_or_new o s).0.0 < (host_or_new o s).1.next)
    present none c = (new_host-IsLive true s.world c, omega arith)
    present (some (id, h)) v' = v'

plugin_host_server-IsSound : (s : Server) → IsSound s → IsSound (plugin_host s).1
unfolding plugin_host
plugin_host_server-IsSound s v = present s.current v
  where
    present : (o : Option (ℕ × Host)) → IsSoundAt o s.next s.world → IsSound (host_or_new o s).1
    present none c = (new_host-IsLive true s.world c, omega arith)
    present (some (id, h)) v' = v

start_service-IsSound : (fails : Bool) (s : Server) → IsSound s → IsSound (start_service fails s).0
start_service-IsSound true s v = close_plugins-IsSound s v
start_service-IsSound false s v = v

module _ (spec_key : Str → Spec → Str) where
  applied-IsSound :
      (fails : Bool) (id : ℕ) (s : Server) (r : Host × Option Guards.Error)
      → IsLive r.0 × (id < s.next)
      → IsSound (applied fails id s r).0
  applied-IsSound fails id s (h, some e) v = close_plugins-IsSound (with_host id s h) v
  applied-IsSound fails id s (h, none) v = start_service-IsSound fails (with_host id s h) v

  applied_apart-IsSound :
      (fails : Bool) (s : Server) (e : Option Guards.Error)
      → IsSound s
      → IsSound (applied_apart fails s e).0
  applied_apart-IsSound fails s (some e) v = close_plugins-IsSound s v
  applied_apart-IsSound fails s none v = start_service-IsSound fails s v

  apply_plugins-IsSound :
      (os : Os) (m : Overlap) (fails : Bool) (o : Options) (s : Server)
      → IsSound s
      → IsSound (apply_plugins spec_key os m fails o (plugin_host s)).0
  apply_plugins-IsSound os alone fails o s v =
      let (live, fresh) = plugin_host-IsSound s v in
      applied-IsSound fails (plugin_host s).0.0 (plugin_host s).1
        (apply spec_key os (some o) (plugin_host s).0.1)
        (apply-IsLive spec_key os (some o) (plugin_host s).0.1 live, fresh)
  apply_plugins-IsSound os closed_first fails o s v =
      applied_apart-IsSound fails (close_plugins (plugin_host s).1) _
        (close_plugins-IsSound (plugin_host s).1 (plugin_host_server-IsSound s v))
  apply_plugins-IsSound os closed_then fails o s v =
      let (live, fresh) = plugin_host-IsSound s v in
      let r = apply spec_key os (some o) (plugin_host s).0.1 in
      let t = with_host (plugin_host s).0.0 (plugin_host s).1 r.0 in
      applied_apart-IsSound fails (close_plugins t) r.1 (
        close_plugins-IsSound t (apply-IsLive spec_key os (some o) (plugin_host s).0.1 live, fresh))

  start_parsed-IsSound :
      (os : Os) (m : Overlap) (fails : Bool) (r : Result (Option Options)) (s : Server)
      → IsSound s
      → IsSound (start_parsed spec_key os m fails r s).0
  start_parsed-IsSound os m fails (err e) s v = v
  start_parsed-IsSound os m fails (ok none) s v =
      start_service-IsSound fails (close_plugins s) (close_plugins-IsSound s v)
  start_parsed-IsSound os m fails (ok (some o)) s v = apply_plugins-IsSound os m fails o s v

  pub Step-IsSound : {s t : Server} → Step spec_key s t → IsSound s → IsSound t
  unfolding start_or_reload plugin_failed
  Step-IsSound {s} (starts os decode m service_fails content) v =
      start_parsed-IsSound os m service_fails (parse decode content) s v
  Step-IsSound {s} closes v = close_plugins-IsSound s v
  Step-IsSound {s} (host_fails id) v =
      if-split IsSound (is_current id s.current && s.has_handler) (λ _. v) (λ _. v)
