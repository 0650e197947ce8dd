-- ===== src/CommandServer/Outcomes.antt =====
-- What one call of StartOrReloadServiceWithPlugins ends in.
use android_lib_box_lite.Common.{
  ℕ, Bool, true, false, Option, none, some, Str, ◌≡◌, ◌⊎◌, inl, inr, refl,
}
use android_lib_box_lite.PluginPool.Options.{Options, Spec, Result, ok, err}
use android_lib_box_lite.PluginPool.Options
use android_lib_box_lite.PluginPool.World.{Os}
use android_lib_box_lite.PluginPool.Guards
use android_lib_box_lite.PluginPool.Host.{Host, new_host, apply}
use android_lib_box_lite.PluginPool.Host.Lifetime.{IsClean, IsLive, apply-IsLive}
use android_lib_box_lite.PluginPool.Host.Reload.{IsReloaded, apply-IsReloaded}
use android_lib_box_lite.PluginPool.Envelope.{parse}
use android_lib_box_lite.CommandServer.{
  Error, bad_envelope, plugins_failed, service_failed, Server, close_plugins, host_or_new,
  plugin_host, start_service, with_host, applied, alone, start_parsed, start_or_reload,
}
use android_lib_box_lite.CommandServer.Soundness.{
  IsSound, close_plugins-IsClean, plugin_host-IsSound,
}

-- The host that a call applies its envelope to: the present one, or a new one.
abbrev pub IsHostOf : Server → ℕ × Host → Type 0
IsHostOf s entry =
    (s.current ≡ some entry) ⊎ ((s.current ≡ none) × (entry ≡ (s.next, new_host true s.world)))

pub data Outcome (spec_key : Str → Spec → Str) (os : Os) (parsed : Result (Option Options))
    (service_fails : Bool) (s : Server) : Server × Option Error → Type 0 where
  -- The envelope is not valid: nothing changes.
  refused :
      (e : Options.Error)
      → parsed ≡ err e
      → Outcome spec_key os parsed service_fails s (s, some (bad_envelope e))
  -- No plugins are wanted: there is no host and the system is clean.
  plain :
      (t : Server)
      → parsed ≡ ok none
      → service_fails ≡ false
      → t.current ≡ none
      → IsClean t.world
      → Outcome spec_key os parsed service_fails s (t, none)
  -- The host runs what the envelope says, with the same processes where nothing changed.
  running :
      (t : Server) (o : Options) (id : ℕ) (h h' : Host)
      → parsed ≡ ok (some o)
      → service_fails ≡ false
      → IsHostOf s (id, h)
      → IsReloaded spec_key os (some o) h h'
      → t.current ≡ some (id, h')
      → Outcome spec_key os parsed service_fails s (t, none)
  -- Apply fails, or the service does not start: there is no host and the system is clean.
  plugins_refused :
      (t : Server) (o : Options) (id : ℕ) (h : Host) (e : Guards.Error)
      → parsed ≡ ok (some o)
      → IsHostOf s (id, h)
      → (apply spec_key os (some o) h).1 ≡ some e
      → t.current ≡ none
      → IsClean t.world
      → Outcome spec_key os parsed service_fails s (t, some (plugins_failed e))
  service_refused :
      (t : Server) (o : Option Options)
      → parsed ≡ ok o
      → service_fails ≡ true
      → t.current ≡ none
      → IsClean t.world
      → Outcome spec_key os parsed service_fails s (t, some service_failed)

plugin_host-IsHostOf : (s : Server) → IsHostOf s (plugin_host s).0
unfolding plugin_host
plugin_host-IsHostOf s = present s.current refl
  where
    present : (o : Option (ℕ × Host)) → s.current ≡ o → IsHostOf s (host_or_new o s).0
    present none e = inr (e, refl)
    present (some entry) e = inl e

module _ (spec_key : Str → Spec → Str) (os : Os) (s : Server) (v : IsSound s) where
  plain-Outcome :
      (service_fails : Bool)
      → Outcome spec_key os
          (ok none)
          service_fails
          s
          (start_service service_fails (close_plugins s))
  plain-Outcome true =
      let (none_left, clean) = close_plugins-IsClean s v in
      let (none_left', clean') = close_plugins-IsClean (close_plugins s) (rw none_left clean) in
      service_refused _ none refl refl none_left' clean'
  plain-Outcome false =
      let (none_left, clean) = close_plugins-IsClean s v in plain _ refl refl none_left clean

  -- `r` is what Apply gives.
  applied-Outcome :
      (service_fails : Bool) (o : Options) (r : Host × Option Guards.Error)
      → IsLive r.0
      → (apply spec_key os (some o) (plugin_host s).0.1).1 ≡ r.1
      → (r.1 ≡ none → IsReloaded spec_key os (some o) (plugin_host s).0.1 r.0)
      → Outcome spec_key os
          (ok (some o))
          service_fails
          s
          (applied service_fails (plugin_host s).0.0 (plugin_host s).1 r)
  applied-Outcome service_fails o (h, some e) live failed _ =
      let t = with_host (plugin_host s).0.0 (plugin_host s).1 h in
      let (none_left, clean) = close_plugins-IsClean t (live, (plugin_host-IsSound s v).1) in
      plugins_refused _ o (plugin_host s).0.0 (plugin_host s).0.1 e refl (plugin_host-IsHostOf s)
        failed none_left clean
  applied-Outcome true o (h, none) live _ _ =
      let t = with_host (plugin_host s).0.0 (plugin_host s).1 h in
      let (none_left, clean) = close_plugins-IsClean t (live, (plugin_host-IsSound s v).1) in
      service_refused _ (some o) refl refl none_left clean
  applied-Outcome false o (h, none) live _ reloaded =
      running _ o (plugin_host s).0.0 (plugin_host s).0.1 h refl refl (plugin_host-IsHostOf s)
        (reloaded refl) refl

  parsed-Outcome :
      (service_fails : Bool) (r : Result (Option Options))
      → Outcome spec_key os r service_fails s (start_parsed spec_key os alone service_fails r s)
  parsed-Outcome service_fails (err e) = refused e refl
  parsed-Outcome service_fails (ok none) = plain-Outcome service_fails
  parsed-Outcome service_fails (ok (some o)) =
      let h = (plugin_host s).0.1 in
      applied-Outcome service_fails o (apply spec_key os (some o) h)
        (apply-IsLive spec_key os (some o) h (plugin_host-IsSound s v).0) refl
        (apply-IsReloaded spec_key os (some o) h)

-- A call of StartOrReloadServiceWithPlugins on a sound server, which no other call overlaps, ends in one
-- of five ways. An envelope that
-- is not valid changes nothing. If no plugins are wanted and the service starts, there is no host. If
-- plugins are wanted, they and the service start, then the present host, or a new one if there was none,
-- runs exactly the wanted plugins. The error of plugins is that of Apply on that host, and the error of the
-- service comes only if it does not start; with an error of the two, or if none is wanted, no host and
-- no protect socket is left, no plugin but those that outlive the limit of waitStopped, and no plugin file
-- but those that os.Remove fails on.
pub start_or_reload-Outcome :
    (spec_key : Str → Spec → Str) (os : Os) (decode : Str → Option Options) (service_fails : Bool)
    (content : Str) (s : Server)
    → IsSound s
    → Outcome spec_key os
        (parse decode content)
        service_fails
        s
        (start_or_reload spec_key os decode alone service_fails content s)
unfolding start_or_reload
start_or_reload-Outcome spec_key os decode service_fails content s v =
    parsed-Outcome spec_key os s v service_fails (parse decode content)
