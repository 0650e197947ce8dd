-- ===== src/PluginPool/Host/Lifetime.antt =====
-- The life of a host: `NewHost`, then calls of `Apply`, then `Close`. Only `Close` closes it, and `Apply`
-- leaves the protector alone.
use android_lib_box_lite.Common.{
  Bool, false, Option, none, some, List, [], ◌∷◌, Str, str_eq, ◌≡◌, refl, ◌∙◌, if-split,
  Option-cases, inl, inr,
}
use android_lib_box_lite.PluginPool.Options.{Options, Spec}
use android_lib_box_lite.PluginPool.World.{World, Os, IsAccounted}
use android_lib_box_lite.PluginPool.Host.{
  Host, Server, new_host, close, guards_of, find_guard, stop_all, listened, listen_protect,
  new_server, protect_path_of, verify_of, replace_server, update_server, started, start_one,
  start_each, start_missing, drop_unwanted, start_wanted, stop_on_error, apply,
}
use android_lib_box_lite.PluginPool.Guards.{Error, Guard, Result, ok, err, start}
use android_lib_box_lite.PluginPool.World.{has_file}
use android_lib_box_lite.PluginPool.Host.Consistency.{IsConsistent, IsStopped}
use android_lib_box_lite.PluginPool.Host.Calls.{
  and_then-keeps, reconcile, apply-IsConsistent, apply_failed-IsStopped, close-IsStopped,
}

-- `h` is as closed as `was`, and has the protector that it had.
abbrev pub SameLife : Host → Host → Type 0
SameLife was h = (h.closed ≡ was.closed) × (h.has_protector ≡ was.has_protector)

abbrev Result-SameLife : Host → Host × Option Error → Type 0
Result-SameLife was r = SameLife was r.0

module _ (was : Host) where
  listened-SameLife :
      (path : Str) (verify : Bool) (h : Host) (r : World × Option Error)
      → SameLife was h
      → SameLife was (listened path verify h r).0
  listened-SameLife path verify h (w, none) s = s
  listened-SameLife path verify h (w, some e) s = s

  new_server-SameLife :
      (os : Os) (path : Str) (verify : Bool) (h : Host)
      → SameLife was h
      → SameLife was (new_server os path verify h).0
  new_server-SameLife os path verify h s =
      if-split (Result-SameLife was) (str_eq path []) (λ _. s)
        (λ _.
          if-split (Result-SameLife was) h.has_protector
            (λ _. listened-SameLife path verify h (listen_protect os path h.world) s) (λ _. s))

  replace_server-SameLife :
      (os : Os) (path : Str) (verify : Bool) (h : Host) (o : Option Server)
      → SameLife was h
      → SameLife was (replace_server os path verify h o).0
  replace_server-SameLife os path verify h none s = new_server-SameLife os path verify h s
  replace_server-SameLife os path verify h (some server) s =
      if-split (Result-SameLife was) (str_eq server.path path) (λ _. s)
        (λ _. new_server-SameLife os path verify _ s)

  started-SameLife :
      (key : Str) (h : Host) (r : World × Result Guard)
      → SameLife was h
      → SameLife was (started key h r).0
  started-SameLife key h (w, ok g) s = s
  started-SameLife key h (w, err e) s = s

  module _ (spec_key : Str → Spec → Str) (os : Os) where
    start_one-SameLife :
        (dir : Str) (spec : Spec) (h : Host)
        → SameLife was h
        → SameLife was (start_one spec_key os dir spec h).0
    start_one-SameLife dir spec h s =
        elim (Option-cases (find_guard (spec_key dir spec) h.guards)) [
          | inl e ↦
              rw (e, start_one)
                (started-SameLife (spec_key dir spec) h (start os dir spec h.world) s)
          | inr (g, e) ↦ rw (e, start_one) s
        ]

    start_each-SameLife :
        (dir : Str) (specs : List Spec) (h : Host)
        → SameLife was h
        → SameLife was (start_each spec_key os dir specs h).0
    unfolding start_each
    start_each-SameLife dir [] h s = s
    start_each-SameLife dir (spec ∷ specs) h s =
        and_then-keeps (SameLife was) (start_one spec_key os dir spec h)
          (start_each spec_key os dir specs) (start_one-SameLife dir spec h s)
          (start_each-SameLife dir specs)

    start_wanted-SameLife :
        (options : Option Options) (h : Host)
        → SameLife was h
        → SameLife was (start_wanted spec_key os options h).0
    unfolding start_missing
    start_wanted-SameLife none h s = s
    start_wanted-SameLife (some o) h s =
        if-split (Result-SameLife was) (os.mkdir_fails h.world o.working_dir) (λ _. s)
          (λ _. start_each-SameLife o.working_dir o.plugins h s)

    stop_on_error-SameLife :
        (r : Host × Option Error) → SameLife was r.0 → SameLife was (stop_on_error spec_key r).0
    unfolding stop_all
    stop_on_error-SameLife (h, none) s = s
    stop_on_error-SameLife (h, some e) s = s

pub apply-SameLife :
    (spec_key : Str → Spec → Str) (os : Os) (options : Option Options) (h : Host)
    → SameLife h (apply spec_key os options h).0
unfolding apply drop_unwanted update_server
apply-SameLife spec_key os options h =
    if-split (Result-SameLife h) h.closed (λ _. (refl, refl))
      (λ _. stop_on_error-SameLife h spec_key os (reconcile spec_key os options h) (
        and_then-keeps (SameLife h) (update_server os options (drop_unwanted spec_key os options h))
          (start_wanted spec_key os options)
          (replace_server-SameLife h os (protect_path_of options) (verify_of options)
            (drop_unwanted spec_key os options h) h.server (refl, refl))
          (start_wanted-SameLife h spec_key os options)))

-- No protect socket is listened on, no plugin runs but those that were given up because they outlive the
-- limit of waitStopped, and no plugin file exists but those that os.Remove has failed on.
pub record IsClean (w : World) : Type 0 where
  pub none_running : w.running ≡ []
  pub no_file : (p : Str) → has_file w.files p ≡ false
  pub no_socket : w.sockets ≡ []
  pub accounted : IsAccounted w

abbrev pub IsLive : Host → Type 0
IsLive h = IsConsistent h × (h.closed ≡ false)

IsStopped-IsClean : {h : Host} → IsStopped h → IsClean h.world
IsStopped-IsClean s = record {
  none_running = s.none_running;
  no_file = s.no_file;
  no_socket = s.no_socket;
  accounted = s.accounted;
}

pub new_host-IsLive :
    (has_protector : Bool) (w : World) → IsClean w → IsLive (new_host has_protector w)
unfolding guards_of
new_host-IsLive has_protector w c = (
  record {
    supervised = c.none_running;
    distinct = rw c.none_running tt;
    given_out = rw c.none_running tt;
    owned = λ p e. cc (c.no_file p);
    listening = c.no_socket;
    accounted = c.accounted;
  },
  refl,
)

pub close-IsClean : (h : Host) → IsLive h → IsClean (close h).world
close-IsClean h (v, alive) = IsStopped-IsClean (close-IsStopped h v alive)

module _ (spec_key : Str → Spec → Str) (os : Os) (options : Option Options) (h : Host) where
  pub apply-IsLive : IsLive h → IsLive (apply spec_key os options h).0
  apply-IsLive (v, alive) =
      (apply-IsConsistent spec_key os options h v, (apply-SameLife spec_key os options h).0 ∙ alive)

  pub apply_failed-IsClean :
      {e : Error}
      → IsLive h
      → (apply spec_key os options h).1 ≡ some e
      → IsClean (apply spec_key os options h).0.world
  apply_failed-IsClean (v, alive) failed =
      IsStopped-IsClean (apply_failed-IsStopped spec_key os options h v alive failed)
