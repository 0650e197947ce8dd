-- ===== src/PluginPool/Service/Running.antt =====
-- The plugins from the start of the command line to its end.
use android_lib_box_lite.Common.{
  ℕ, zero, suc, true, false, Option, none, some, List, Str, ◌≡◌, refl, arith, if◌then◌else◌,
}
use android_lib_box_lite.PluginPool.Options.{Options, Spec, ok, err}
use android_lib_box_lite.PluginPool.World.{World, Os}
use android_lib_box_lite.PluginPool.Guards
use android_lib_box_lite.PluginPool.Host.{Host, new_host, apply}
use android_lib_box_lite.PluginPool.Host.Lifetime.{
  IsClean, IsLive, new_host-IsLive, apply-IsLive, apply_failed-IsClean, close-IsClean,
}
use android_lib_box_lite.PluginPool.Host.Reload.{IsReloaded, apply-IsReloaded}
use android_lib_box_lite.PluginPool.Envelope.{Read, Found, read_failed, parsed, read_envelope}
use android_lib_box_lite.PluginPool.Service.{
  Error, not_read, bad_envelope, not_applied, Started, without_plugins, exits, serves, applied,
  start_found, start_service, stop_service, Core, fresh_core, shutdown, exit_code, shutdowns,
}

-- Why the core exits: what was found, or the failure of Apply on a new host.
abbrev pub IsCause : (Str → Spec → Str) → Os → World → Found → Error → Type 0
IsCause spec_key os w found (not_read path) = found ≡ read_failed path
IsCause spec_key os w found (bad_envelope e) = found ≡ parsed (err e)
IsCause spec_key os w found (not_applied e) =
    (o : Options) × (found ≡ parsed (ok (some o)))
    × ((apply spec_key os (some o) (new_host false w)).1 ≡ some e)

-- What the search for an envelope calls for: no plugins, a host with exactly its plugins, or an exit.
-- `w` is the system before the start.
abbrev pub Fits : (Str → Spec → Str) → Os → World → Found → Started → Type 0
Fits spec_key os w found (without_plugins w') = (found ≡ parsed (ok none)) × (w' ≡ w)
Fits spec_key os w found (serves h) =
    (o : Options) × (found ≡ parsed (ok (some o)))
    × IsLive h
    × IsReloaded spec_key os (some o) (new_host false w) h
Fits spec_key os w found (exits e w') = IsCause spec_key os w found e

module _ (spec_key : Str → Spec → Str) (os : Os) (w : World) (clean : IsClean w) where
  applied-Fits :
      (o : Options) (r : Host × Option Guards.Error)
      → (apply spec_key os (some o) (new_host false w)).1 ≡ r.1
      → IsLive r.0
      → (r.1 ≡ none → IsReloaded spec_key os (some o) (new_host false w) r.0)
      → Fits spec_key os w (parsed (ok (some o))) (applied r)
  applied-Fits o (h, some e) failed live _ = (o, refl, failed)
  applied-Fits o (h, none) failed live reloaded = (o, refl, live, reloaded refl)

  start_found-Fits : (found : Found) → Fits spec_key os w found (start_found spec_key os found w)
  start_found-Fits (read_failed path) = refl
  start_found-Fits (parsed (err e)) = refl
  start_found-Fits (parsed (ok none)) = (refl, refl)
  start_found-Fits (parsed (ok (some o))) =
      let h = new_host false w in
      applied-Fits o (apply spec_key os (some o) h) refl
        (apply-IsLive spec_key os (some o) h (new_host-IsLive false w clean))
        (apply-IsReloaded spec_key os (some o) h)

  applied-IsClean :
      (r : Host × Option Guards.Error)
      → IsLive r.0
      → ((e : Guards.Error) → r.1 ≡ some e → IsClean r.0.world)
      → IsClean (stop_service (applied r))
  unfolding stop_service
  applied-IsClean (h, some e) live failed = failed e refl
  applied-IsClean (h, none) live failed = close-IsClean h live

  start_found-IsClean : (found : Found) → IsClean (stop_service (start_found spec_key os found w))
  unfolding stop_service
  start_found-IsClean (read_failed path) = clean
  start_found-IsClean (parsed (err e)) = clean
  start_found-IsClean (parsed (ok none)) = clean
  start_found-IsClean (parsed (ok (some o))) =
      let h = new_host false w in
      let live = new_host-IsLive false w clean in
      applied-IsClean (apply spec_key os (some o) h) (apply-IsLive spec_key os (some o) h live)
        (λ e failed. apply_failed-IsClean spec_key os (some o) h live failed)

-- On a clean system (`IsClean`) StartService goes on without plugins only if the search for an envelope finds none;
-- if it goes on with a host, then that host is open and consistent and runs exactly the plugins of the
-- envelope that was found; it exits only because a file was not read, its envelope is not valid, or Apply
-- failed on it. When the core ends or exits, no protect socket is left, no plugin but those that outlive
-- the limit of waitStopped, and no plugin file but those that os.Remove fails on.
pub start_service-Fits :
    (spec_key : Str → Spec → Str) (os : Os) (decode : Str → Option Options) (read_file : Str → Read)
    (paths : List Str) (w : World)
    → IsClean w
    → Fits spec_key os w
        (read_envelope decode read_file paths)
        (start_service spec_key os decode read_file paths w)
      × IsClean (stop_service (start_service spec_key os decode read_file paths w))
unfolding start_service
start_service-Fits spec_key os decode read_file paths w clean =
    let found = read_envelope decode read_file paths in
    (start_found-Fits spec_key os w clean found, start_found-IsClean spec_key os w clean found)

failed_once : (n : ℕ) (c : Core) → c.failed ≡ true → shutdowns n c ≡ c
unfolding shutdowns shutdown
failed_once zero c e = refl
failed_once (suc n) c e = failed_twice (failed_once n c e)
  where
    failed_twice :
        shutdowns n c ≡ c
        → shutdowns n (
            if c.failed
            then c
            else record { failed = true; signals = suc c.signals; exit_armed = true })
          ≡ c
    failed_twice ih = ground (arith, ih)

-- However many plugins fail, the core signals itself once, arms its exit, and ends with status 70.
shutdowns_once :
    (n : ℕ)
    → let c = shutdowns (suc n) fresh_core in
      (c.signals ≡ 1) × (c.exit_armed ≡ true) × (exit_code c ≡ 70)
unfolding shutdowns shutdown exit_code
shutdowns_once n =
    rw (failed_once n (record { failed = true; signals = 1; exit_armed = true }) refl)
      (refl, refl, refl)
