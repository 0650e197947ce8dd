-- ===== src/PluginPool/Host/Refinement/Errors.antt =====
-- Only a closed host answers that it is closed.
use android_lib_box_lite.Common.{
  ℕ, suc, Bool, true, false, Option, none, some, List, [], ◌∷◌, Str, str_eq, ◌≡◌, ◌≢◌, refl, arith,
  if-split, Option-cases, inl, inr,
}
use android_lib_box_lite.PluginPool.Options.{Options, Spec}
use android_lib_box_lite.PluginPool.World.{
  World, Os, Lstat, absent, socket, other_kind, unreadable, open_socket, log, stale_socket_removed,
}
use android_lib_box_lite.PluginPool.Guards.{
  Error, host_closed, no_protector, not_a_socket, stale_not_removed, listen_failed, chmod_failed,
  mkdir_failed, write_failed, bad_reference, start_failed, Result, Guard, Files, ok, err, start,
  no_files, write_files, build_guard, launch,
}
use android_lib_box_lite.PluginPool.Host.{
  Server, Host, find_guard, listen_at, replace_stale, listen_protect, listened, new_server,
  replace_server, update_server, protect_path_of, verify_of, started, and_then, start_one,
  start_each, start_missing, start_wanted, drop_unwanted,
}
use android_lib_box_lite.PluginPool.Host.Calls.{reconcile}

abbrev is_closing : Error → Bool
is_closing host_closed = true
is_closing no_protector = false
is_closing (not_a_socket path) = false
is_closing (stale_not_removed path) = false
is_closing (listen_failed path) = false
is_closing (chmod_failed path) = false
is_closing (mkdir_failed path) = false
is_closing (write_failed name path) = false
is_closing (bad_reference name e) = false
is_closing (start_failed name) = false

-- The answer is not that the host is closed.
abbrev pub IsOpenAnswer : Option Error → Type 0
IsOpenAnswer answer = (e : Error) → answer ≡ some e → e ≢ host_closed

abbrev Is : {A : Type 0} → A × Option Error → Type 0
Is r = IsOpenAnswer r.1

none_open : IsOpenAnswer none
none_open e f = cc

some_open : (x : Error) → is_closing x ≡ false → IsOpenAnswer (some x)
some_open x n e f = λ c. cc (f, c, n)

listen_at_open : (os : Os) (path : Str) (w : World) → Is (listen_at os path w)
unfolding listen_at
listen_at_open os path w =
    if-split Is (os.listen_fails w path) (λ _. some_open (listen_failed path) refl)
      (λ _.
        if-split Is (os.chmod_fails (open_socket path w) path)
          (λ _. some_open (chmod_failed path) refl) (λ _. none_open))

replace_stale_open : (os : Os) (path : Str) (w : World) (l : Lstat) → Is (replace_stale os path w l)
unfolding replace_stale
replace_stale_open os path w absent = listen_at_open os path w
replace_stale_open os path w socket =
    if-split Is (os.remove_fails w path) (λ _. some_open (stale_not_removed path) refl)
      (λ _. listen_at_open os path (log (stale_socket_removed path) w))
replace_stale_open os path w other_kind = some_open (not_a_socket path) refl
replace_stale_open os path w unreadable = some_open (stale_not_removed path) refl

listened_open :
    (path : Str) (verify : Bool) (h : Host) (r : World × Option Error)
    → Is r
    → Is (listened path verify h r)
listened_open path verify h (w, some e) n = n
listened_open path verify h (w, none) n = n

new_server_open :
    (os : Os) (path : Str) (verify : Bool) (h : Host) → Is (new_server os path verify h)
unfolding listen_protect
new_server_open os path verify h =
    if-split Is (str_eq path []) (λ _. none_open)
      (λ _.
        if-split Is h.has_protector
          (λ _.
            listened_open path verify h (listen_protect os path h.world)
              (replace_stale_open os path h.world (os.lstat h.world path)))
          (λ _. some_open no_protector refl))

replace_server_open :
    (os : Os) (path : Str) (verify : Bool) (h : Host) (o : Option Server)
    → Is (replace_server os path verify h o)
replace_server_open os path verify h none = new_server_open os path verify h
replace_server_open os path verify h (some s) =
    if-split Is (str_eq s.path path) (λ _. none_open) (λ _. new_server_open os path verify _)

build_guard_open :
    (os : Os) (dir : Str) (spec : Spec) (id : ℕ) (fs : Files) {e : Error}
    → build_guard os dir spec id fs ≡ err e
    → is_closing e ≡ false
unfolding build_guard
build_guard_open os dir spec id fs {e} failed = ground arith

launch_open :
    (os : Os) (spec : Spec) (paths : List Str) (w : World) (r : Result Guard) (key : Str) (h : Host)
    → ((e : Error) → r ≡ err e → is_closing e ≡ false)
    → Is (started key h (launch os spec paths w r))
unfolding launch
launch_open os spec paths w (err e) key h n = some_open e (n e refl)
launch_open os spec paths w (ok g) key h n =
    if-split (λ (r : World × Result Guard). Is (started key h r)) (os.start_fails w g.id)
      (λ _. some_open (start_failed spec.name) refl) (λ _. none_open)

start_open :
    (os : Os) (dir : Str) (spec : Spec) (key : Str) (h : Host)
    → Is (started key h (start os dir spec h.world))
unfolding start
start_open os dir spec key h =
    let w = record h.world { next = suc h.world.next } in
    let (w', fs) = write_files os dir spec.files w no_files in
    launch_open os spec fs.paths w' (build_guard os dir spec h.world.next fs) key h
      (λ e f. build_guard_open os dir spec h.world.next fs f)

and_then_open :
    (m : Host × Option Error) (k : Host → Host × Option Error)
    → Is m
    → ((h : Host) → Is (k h))
    → Is (and_then m k)
and_then_open (h, some e) k n rest = n
and_then_open (h, none) k n rest = rest h

module _ (spec_key : Str → Spec → Str) (os : Os) where
  start_one_open : (dir : Str) (spec : Spec) (h : Host) → Is (start_one spec_key os dir spec h)
  start_one_open dir spec h = elim (Option-cases (find_guard (spec_key dir spec) h.guards)) [
    | inl e ↦ rw (e, start_one) (start_open os dir spec (spec_key dir spec) h)
    | inr (g, e) ↦ rw (e, start_one) none_open
  ]

  start_each_open :
      (dir : Str) (specs : List Spec) (h : Host) → Is (start_each spec_key os dir specs h)
  unfolding start_each
  start_each_open dir [] h = none_open
  start_each_open dir (spec ∷ specs) h =
      and_then_open (start_one spec_key os dir spec h) (start_each spec_key os dir specs)
        (start_one_open dir spec h) (start_each_open dir specs)

  start_wanted_open :
      (options : Option Options) (h : Host) → Is (start_wanted spec_key os options h)
  unfolding start_missing
  start_wanted_open none h = none_open
  start_wanted_open (some o) h =
      if-split Is (os.mkdir_fails h.world o.working_dir)
        (λ _. some_open (mkdir_failed o.working_dir) refl)
        (λ _. start_each_open o.working_dir o.plugins h)

  pub reconcile_open : (options : Option Options) (h : Host) → Is (reconcile spec_key os options h)
  unfolding update_server
  reconcile_open options h =
      let d = drop_unwanted spec_key os options h in
      and_then_open (update_server os options d) (start_wanted spec_key os options)
        (replace_server_open os (protect_path_of options) (verify_of options) d d.server)
        (start_wanted_open options)
