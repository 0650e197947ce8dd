-- ===== src/PluginPool/Host/Reload.antt =====
-- What an `Apply` that succeeds makes of the host: the wanted plugins, and no others.
use android_lib_box_lite.Common.{
  Bool, true, false, ◌||◌, Option, none, some, List, [], ◌∷◌, Str, str_eq, str_eq_iff, has, ◌≡◌,
  ◌≢◌, refl, sym, ap, ◌∙◌, arith, Bool-cases, if-split, inl, inr,
}
use android_lib_box_lite.PluginPool.Options.{Options, Spec}
use android_lib_box_lite.PluginPool.World.{World, Os}
use android_lib_box_lite.PluginPool.Host.{
  protect_path_of, verify_of, Server, Host, find_guard, close_server, listen_protect, listened,
  new_server, replace_server, update_server, start_missing, keeps, kept, drop_unwanted, wanted_keys,
  start_wanted, stop_on_error, apply,
}
use android_lib_box_lite.PluginPool.Guards.{Error, Guard}
use android_lib_box_lite.PluginPool.Host.Calls.{reconcile}
use android_lib_box_lite.PluginPool.Host.Extension.{
  keys, Extends, and_then-none, start_each-Extends,
}

kept_wanted :
    (spec_key : Str → Spec → Str) (os : Os) (w : World) (wanted : List Str)
    (guards : List (Str × Guard)) (k : Str)
    → (has wanted k || has (keys (kept spec_key os w wanted guards)) k) ≡ has wanted k
unfolding kept has
kept_wanted spec_key os w wanted [] k = ground arith
kept_wanted spec_key os w wanted ((j, g) ∷ guards) k =
    elim (Bool-cases (keeps spec_key os w wanted (j, g))) [
      | inl h ↦ rw h (ground (arith, kept_wanted spec_key os w wanted guards k, str_eq_iff j k))
      | inr h ↦ rw h (kept_wanted spec_key os w wanted guards k)
    ]

kept_found :
    (spec_key : Str → Spec → Str) (os : Os) (w : World) (wanted : List Str)
    (guards : List (Str × Guard)) (k : Str) (g : Guard)
    → find_guard k guards ≡ some g
    → has wanted k ≡ true
    → os.exited w g.id ≡ false
    → find_guard k (kept spec_key os w wanted guards) ≡ some g
unfolding kept find_guard
kept_found spec_key os w wanted [] k g e a b = cc
kept_found spec_key os w wanted ((j, x) ∷ guards) k g e a b =
    ground (arith, kept_found spec_key os w wanted guards k g, str_eq_iff j k)

-- Replacing the server leaves the plugins alone, and the new one has the wanted path.
abbrev ServerOutcome : Str → Bool → Host → Host × Option Error → Type 0
ServerOutcome path verify h r =
    (r.0.guards ≡ h.guards)
    × (r.1 ≡ none → path ≢ [] → r.0.server ≡ some (record { path = path; verify = verify }))

listened-ServerOutcome :
    (path : Str) (verify : Bool) (h : Host) (r : World × Option Error)
    → ServerOutcome path verify h (listened path verify h r)
listened-ServerOutcome path verify h (w, some e) = (refl, λ n. cc)
listened-ServerOutcome path verify h (w, none) = (refl, λ n ne. refl)

new_server-ServerOutcome :
    (os : Os) (path : Str) (verify : Bool) (h : Host)
    → ServerOutcome path verify h (new_server os path verify h)
new_server-ServerOutcome os path verify h =
    if-split (ServerOutcome path verify h) (str_eq path [])
      (λ e. (refl, λ n ne. absurd (ne ((str_eq_iff path []).0 e))))
      (λ _.
        if-split (ServerOutcome path verify h) h.has_protector
          (λ _. listened-ServerOutcome path verify h (listen_protect os path h.world))
          (λ _. (refl, λ n. cc)))

replace_server-ServerOutcome :
    (os : Os) (path : Str) (verify : Bool) (h : Host) (o : Option Server)
    → ServerOutcome path verify h (replace_server os path verify h o)
replace_server-ServerOutcome os path verify h none = new_server-ServerOutcome os path verify h
replace_server-ServerOutcome os path verify h (some s) =
    if-split (ServerOutcome path verify h) (str_eq s.path path)
      (λ e. (refl, λ n ne. ap some (same_path s ((str_eq_iff s.path path).0 e))))
      (λ _.
        new_server-ServerOutcome os path verify
          (record h { server = none; world = close_server (some s) h.world }))
  where
    same_path :
        (t : Server)
        → t.path ≡ path
        → record t { verify = verify } ≡ record { path = path; verify = verify }
    same_path t e = cc

pub start_wanted-Extends :
    (spec_key : Str → Spec → Str) (os : Os) (options : Option Options) (h : Host)
    → (start_wanted spec_key os options h).1 ≡ none
    → Extends (wanted_keys spec_key options) h (start_wanted spec_key os options h).0
unfolding start_missing
start_wanted-Extends spec_key os none h n = record {
  all_keys = λ k. unfold has in refl;
  untouched = λ k x f. f;
  same_server = refl;
}
start_wanted-Extends spec_key os (some o) h n =
    if-split
      (λ (r : Host × Option Error). r.1 ≡ none → Extends (wanted_keys spec_key (some o)) h r.0)
      (os.mkdir_fails h.world o.working_dir) (λ _ m. cc)
      (λ _. start_each-Extends spec_key os o.working_dir o.plugins h) n

update_server-ServerOutcome :
    (os : Os) (options : Option Options) (h : Host)
    → ServerOutcome (protect_path_of options) (verify_of options) h (update_server os options h)
unfolding update_server
update_server-ServerOutcome os options h =
    replace_server-ServerOutcome os (protect_path_of options) (verify_of options) h h.server

-- What an `Apply` that succeeds promises.
pub record IsReloaded (spec_key : Str → Spec → Str) (os : Os) (options : Option Options)
    (h h' : Host) : Type 0 where
  -- The plugins are exactly the wanted ones.
  pub exactly_wanted : (k : Str) → has (keys h'.guards) k ≡ has (wanted_keys spec_key options) k
  -- A wanted plugin that still runs is the same process as before.
  pub undisturbed :
      (k : Str) (g : Guard)
      → find_guard k h.guards ≡ some g
      → has (wanted_keys spec_key options) k ≡ true
      → os.exited h.world g.id ≡ false
      → find_guard k h'.guards ≡ some g
  -- The protect server listens where the envelope says.
  pub served :
      protect_path_of options ≢ []
      → h'.server ≡ some (record { path = protect_path_of options; verify = verify_of options })

reloaded :
    (spec_key : Str → Spec → Str) (os : Os) (options : Option Options) (h u h' : Host)
    → u.guards ≡ kept spec_key os h.world (wanted_keys spec_key options) h.guards
    → (protect_path_of options ≢ []
        → u.server ≡ some (record { path = protect_path_of options; verify = verify_of options }))
    → Extends (wanted_keys spec_key options) u h'
    → IsReloaded spec_key os options h h'
reloaded spec_key os options h u h' guards server x =
    let w = wanted_keys spec_key options in
    record {
      exactly_wanted = λ k.
          x.all_keys k
          ∙ ap (λ (gs : List (Str × Guard)). has w k || has (keys gs) k) guards
          ∙ kept_wanted spec_key os h.world w h.guards k;
      undisturbed = λ k g e a b.
          x.untouched k g
            (ap (find_guard k) guards ∙ kept_found spec_key os h.world w h.guards k g e a b);
      served = λ ne. x.same_server ∙ server ne;
    }

-- An `Apply` that succeeds leaves exactly the plugins of the envelope in the map, keeps the guard of a
-- wanted plugin that still runs, and serves the protect path of the envelope, if it has one.
pub apply-IsReloaded :
    (spec_key : Str → Spec → Str) (os : Os) (options : Option Options) (h : Host)
    → (apply spec_key os options h).1 ≡ none
    → IsReloaded spec_key os options h (apply spec_key os options h).0
unfolding apply drop_unwanted
apply-IsReloaded spec_key os options h n =
    if-split (λ (r : Host × Option Error). r.1 ≡ none → IsReloaded spec_key os options h r.0)
      h.closed (λ _ m. cc) (λ _. uncleaned (reconcile spec_key os options h) reconciled) n
  where
    reconciled :
        (reconcile spec_key os options h).1 ≡ none
        → IsReloaded spec_key os options h (reconcile spec_key os options h).0
    reconciled m =
        let d = drop_unwanted spec_key os options h in
        let u = update_server os options d in
        let (served, same) = and_then-none u (start_wanted spec_key os options) m in
        let x =
          start_wanted-Extends spec_key os options u.0
            (sym (ap (λ (r : Host × Option Error). r.1) same) ∙ m) in
        let (guards, server) = update_server-ServerOutcome os options d in
        rw same (
          reloaded spec_key os options h u.0 (start_wanted spec_key os options u.0).0 guards
            (server served) x)

    uncleaned :
        (r : Host × Option Error)
        → (r.1 ≡ none → IsReloaded spec_key os options h r.0)
        → (stop_on_error spec_key r).1 ≡ none
        → IsReloaded spec_key os options h (stop_on_error spec_key r).0
    uncleaned (h', none) k m = k m
    uncleaned (h', some e) k m = cc
