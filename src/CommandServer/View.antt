-- ===== src/CommandServer/View.antt =====
-- What the app sees of the plugins of a `CommandServer`: none, or a set of them with a protect server;
-- and what its calls do to that.
use android_lib_box_lite.Common.{
  ℕ, Bool, true, false, Option, none, some, List, [], ◌∷◌, Str, ◌≡◌, ◌≢◌,
}
use android_lib_box_lite.PluginPool.Options.{Options, Spec, ok, err}
use android_lib_box_lite.PluginPool.Options
use android_lib_box_lite.PluginPool.World.{Os}
use android_lib_box_lite.PluginPool.Guards
use android_lib_box_lite.PluginPool.Guards.{host_closed}
use android_lib_box_lite.PluginPool.Host
use android_lib_box_lite.PluginPool.Host.{wanted_keys}
use android_lib_box_lite.PluginPool.Host.Extension.{keys}
use android_lib_box_lite.PluginPool.Host.Pool.{KeySet, of_list, server_of}
use android_lib_box_lite.PluginPool.Envelope.{parse}
use android_lib_box_lite.CommandServer.{
  Overlap, closed_first, closed_then, Error, bad_envelope, plugins_failed, service_failed, Server,
  close_plugins, start_or_reload, plugin_failed,
}

abbrev pub Running : Type 0
Running = KeySet × Option Host.Server

abbrev pub view_of : Option (ℕ × Host.Host) → Option Running
view_of none = none
view_of (some (id, h)) = some (of_list (keys h.guards), h.server)

abbrev pub view : Server → Option Running
view s = view_of s.current

pub data Call : Type 0 where
  service_start : Os → (Str → Option Options) → Overlap → Bool → Str → Call
  service_close : Call
  host_failure : ℕ → Call

abbrev pub run : (Str → Spec → Str) → Call → Server → Server × Option Error
run spec_key (service_start os decode m service_fails content) s =
    start_or_reload spec_key os decode m service_fails content s
run spec_key service_close s = (close_plugins s, none)
run spec_key (host_failure id) s = (plugin_failed id s, none)

unfoldable pub run_calls :
    (Str → Spec → Str) → List Call → Server → Server × List (Call × Option Error)
run_calls spec_key [] s = (s, [])
run_calls spec_key (call ∷ calls) s =
    let (s', answer) = run spec_key call s in
    let (last, answers) = run_calls spec_key calls s' in (last, (call, answer) ∷ answers)

-- What a call does to what the app sees, and what it answers.
pub data Move (spec_key : Str → Spec → Str) (v : Option Running)
    : Call → Option Error → Option Running → Type 0 where
  refused :
      (os : Os) (decode : Str → Option Options) (m : Overlap) (fails : Bool) (content : Str)
      (e : Options.Error)
      → parse decode content ≡ err e
      → Move spec_key v (service_start os decode m fails content) (some (bad_envelope e)) v
  plain :
      (os : Os) (decode : Str → Option Options) (m : Overlap) (content : Str)
      → parse decode content ≡ ok none
      → Move spec_key v (service_start os decode m false content) none none
  reloads :
      (os : Os) (decode : Str → Option Options) (m : Overlap) (content : Str) (o : Options)
      → parse decode content ≡ ok (some o)
      → m ≢ closed_first
      → m ≢ closed_then
      → Move spec_key v
          (service_start os decode m false content)
          none
          (some (of_list (wanted_keys spec_key (some o)), server_of (some o)))
  plugins_refused :
      (os : Os) (decode : Str → Option Options) (m : Overlap) (fails : Bool) (content : Str)
      (o : Options) (e : Guards.Error)
      → parse decode content ≡ ok (some o)
      → e ≢ host_closed
      → Move spec_key v (service_start os decode m fails content) (some (plugins_failed e)) none
  service_refused :
      (os : Os) (decode : Str → Option Options) (m : Overlap) (content : Str) (o : Option Options)
      → parse decode content ≡ ok o
      → Move spec_key v (service_start os decode m true content) (some service_failed) none
  -- The plugins were closed meanwhile, before Apply or after it.
  shut_first :
      (os : Os) (decode : Str → Option Options) (m : Overlap) (fails : Bool) (content : Str)
      (o : Options)
      → parse decode content ≡ ok (some o)
      → m ≡ closed_first
      → Move spec_key v
          (service_start os decode m fails content)
          (some (plugins_failed host_closed))
          none
  shut_then :
      (os : Os) (decode : Str → Option Options) (m : Overlap) (content : Str) (o : Options)
      → parse decode content ≡ ok (some o)
      → m ≡ closed_then
      → Move spec_key v (service_start os decode m false content) none none
  all_closed : Move spec_key v service_close none none
  undisturbed : (id : ℕ) → Move spec_key v (host_failure id) none v

pub data Moves (spec_key : Str → Spec → Str)
    : Option Running → List (Call × Option Error) → Option Running → Type 0 where
  stays : (v : Option Running) → Moves spec_key v [] v
  moves :
      {u v w : Option Running} {call : Call} {answer : Option Error}
      {answers : List (Call × Option Error)}
      → Move spec_key u call answer v
      → Moves spec_key v answers w
      → Moves spec_key u ((call, answer) ∷ answers) w
