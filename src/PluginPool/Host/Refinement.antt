-- ===== src/PluginPool/Host/Refinement.antt =====
-- The host does what the abstract pool says.
mod Errors
use android_lib_box_lite.Common.{
  Bool, true, false, Option, none, some, List, [], ◌∷◌, Str, str_eq, str_eq_iff, ◌≡◌, ◌≢◌, refl,
  sym, ap, ◌∙◌, arith, if-split, Bool-cases, inl, inr, if◌then◌else◌,
}
use android_lib_box_lite.PluginPool.Options.{Options, Spec}
use android_lib_box_lite.PluginPool.World.{World, Os}
use android_lib_box_lite.PluginPool.Guards.{Error, host_closed}
use android_lib_box_lite.PluginPool.Host.{
  Server, Host, stop_all, close, listen_protect, listened, new_server, replace_server,
  update_server, protect_path_of, verify_of, drop_unwanted, start_wanted, stop_on_error, apply,
  wanted_keys,
}
use android_lib_box_lite.PluginPool.Host.Consistency.{IsConsistent}
use android_lib_box_lite.PluginPool.Host.Calls.{
  reconcile, apply-IsConsistent, close-IsConsistent, close-closed, apply_shut,
}
use android_lib_box_lite.PluginPool.Host.Lifetime.{apply-SameLife}
use android_lib_box_lite.PluginPool.Host.Reload.{apply-IsReloaded, start_wanted-Extends}
use android_lib_box_lite.PluginPool.Host.Extension.{keys, and_then-none}
use android_lib_box_lite.PluginPool.Host.Pool.{
  Pool, KeySet, shut, serving, of_list, of_list_sound, view, Call, applies, closes, run, run_all,
  server_of, Move, reloads, fails, refuses, shuts, Moves, stays, moves,
}
use android_lib_box_lite.PluginPool.Host.Refinement.Errors.{IsOpenAnswer, reconcile_open}

-- A server that listens has a path.
abbrev pub IsNamed : Option Server → Type 0
IsNamed server = (s : Server) → server ≡ some s → s.path ≢ []

abbrev pub server_at : Str → Bool → Option Server
server_at path verify =
    if str_eq path [] then none else some (record { path = path; verify = verify })

pub server_at-IsNamed : (path : Str) (verify : Bool) → IsNamed (server_at path verify)
server_at-IsNamed path verify =
    if-split IsNamed (str_eq path []) (λ _ s e. cc)
      (λ n s e empty. ground (arith, str_eq_iff path []))

-- What replacing the server leaves, if there is no error.
abbrev Listens : Str → Bool → Host × Option Error → Type 0
Listens path verify r = r.1 ≡ none → r.0.server ≡ server_at path verify

new_server-Listens :
    (os : Os) (path : Str) (verify : Bool) (h : Host)
    → h.server ≡ none
    → Listens path verify (new_server os path verify h)
new_server-Listens os path verify h idle =
    if-split (Listens path verify) (str_eq path []) (λ e _. rw e idle)
      (λ n.
        if-split (Listens path verify) h.has_protector
          (λ _. fresh n (listen_protect os path h.world)) (λ _ f. cc))
  where
    fresh :
        str_eq path [] ≡ false
        → (r : World × Option Error) → Listens path verify (listened path verify h r)
    fresh n (w, some e) f = cc
    fresh n (w, none) f = rw n refl

replace_server-Listens :
    (os : Os) (path : Str) (verify : Bool) (h : Host) (o : Option Server)
    → h.server ≡ o
    → IsNamed o
    → Listens path verify (replace_server os path verify h o)
replace_server-Listens os path verify h none e named = new_server-Listens os path verify h e
replace_server-Listens os path verify h (some s) e named =
    if-split (Listens path verify) (str_eq s.path path)
      (λ same _.
        let q = (str_eq_iff s.path path).0 same in
        let n : str_eq path [] ≡ false = ground (arith, str_eq_iff path [], named s refl) in
        rw n (ap (λ (p : Str). some (record { path = p; verify = verify })) q))
      (λ _. new_server-Listens os path verify _ refl)

module _ (spec_key : Str → Spec → Str) (os : Os) (options : Option Options) where
  abbrev pub Sets : Host × Option Error → Type 0
  Sets r = r.1 ≡ none → r.0.server ≡ server_of options

  reconcile-Sets : (h : Host) → IsNamed h.server → Sets (reconcile spec_key os options h)
  unfolding update_server drop_unwanted
  reconcile-Sets h named m =
      let d = drop_unwanted spec_key os options h in
      let u = update_server os options d in
      let (served, same) = and_then-none u (start_wanted spec_key os options) m in
      let x =
        start_wanted-Extends spec_key os options u.0
          (sym (ap (λ (r : Host × Option Error). r.1) same) ∙ m) in
      ap (λ (r : Host × Option Error). r.0.server) same
      ∙ x.same_server
      ∙ replace_server-Listens os (protect_path_of options) (verify_of options) d h.server refl
          named served

  -- An answer of an open host, and what it leaves.
  abbrev pub Answered : Host × Option Error → Type 0
  Answered r =
      IsOpenAnswer r.1
      × Sets r
      × ((e : Error) → r.1 ≡ some e → (r.0.guards ≡ []) × (r.0.server ≡ none))

  stop_on_error-Answered :
      (r : Host × Option Error) → IsOpenAnswer r.1 → Sets r → Answered (stop_on_error spec_key r)
  unfolding stop_all
  stop_on_error-Answered (h, none) n s = (n, s, λ e f. cc)
  stop_on_error-Answered (h, some x) n s = (n, λ f. cc, λ e f. (refl, refl))

  pub apply-Answered :
      (h : Host) → h.closed ≡ false → IsNamed h.server → Answered (apply spec_key os options h)
  unfolding apply
  apply-Answered h alive named =
      if-split Answered h.closed (λ over. cc (alive, over))
        (λ _.
          stop_on_error-Answered (reconcile spec_key os options h)
            (reconcile_open spec_key os options h) (reconcile-Sets h named))

  answered-Move :
      (r : Host × Option Error) (plugins : KeySet) (server : Option Server)
      → r.0.closed ≡ false
      → (r.1 ≡ none → of_list (keys r.0.guards) ≡ of_list (wanted_keys spec_key options))
      → Answered r
      → Move spec_key (serving plugins server) (applies os options) r.1 (view r.0)
  answered-Move (h, none) plugins server alive same (n, s, f) =
      rw (alive, same refl, s refl) (reloads os options plugins server)
  answered-Move (h, some e) plugins server alive same (n, s, f) =
      let (a, b) = f e refl in rw (alive, a, b) (fails os options plugins server e (n e refl))

  apply-Move :
      (h : Host)
      → IsNamed h.server
      → Move spec_key
          (view h)
          (applies os options)
          (apply spec_key os options h).1
          (view (apply spec_key os options h).0)
  apply-Move h named =
      let r = apply spec_key os options h in
      if-split (λ (p : Pool). Move spec_key p (applies os options) r.1 (view r.0)) h.closed
        (λ over. rw (apply_shut spec_key os options h over, over) (refuses os options))
        (λ alive.
          answered-Move r (of_list (keys h.guards)) h.server
            ((apply-SameLife spec_key os options h).0 ∙ alive)
            (λ m. of_list_sound (apply-IsReloaded spec_key os options h m).exactly_wanted)
            (apply-Answered h alive named))

  pub apply-IsNamed : (h : Host) → IsNamed h.server → IsNamed (apply spec_key os options h).0.server
  apply-IsNamed h named = elim (Bool-cases h.closed) [
    | inl over ↦ rw (apply_shut spec_key os options h over) named
    | inr alive ↦ answered (apply spec_key os options h) (apply-Answered h alive named)
  ]
    where
      answered : (r : Host × Option Error) → Answered r → IsNamed r.0.server
      answered (h', none) (n, s, f) = rw (s refl) (server_at-IsNamed _ _)
      answered (h', some e) (n, s, f) = rw (f e refl).1 (λ server g. cc)

-- The state of the host between two calls.
abbrev pub IsSteady : Host → Type 0
IsSteady h = IsConsistent h × IsNamed h.server

close-IsSteady : (h : Host) → IsSteady h → IsSteady (close h)
unfolding close stop_all
close-IsSteady h (v, named) = (
  close-IsConsistent h v,
  if-split (λ (g : Host). IsNamed g.server) h.closed (λ _. named) (λ _ s e. cc),
)

module _ (spec_key : Str → Spec → Str) where
  run-Move :
      (call : Call) (h : Host)
      → IsNamed h.server
      → Move spec_key (view h) call (run spec_key call h).1 (view (run spec_key call h).0)
  run-Move (applies os options) h named = apply-Move spec_key os options h named
  run-Move closes h named = rw (close-closed h) (shuts (view h))

  run-IsSteady : (call : Call) (h : Host) → IsSteady h → IsSteady (run spec_key call h).0
  run-IsSteady (applies os options) h (v, named) =
      (apply-IsConsistent spec_key os options h v, apply-IsNamed spec_key os options h named)
  run-IsSteady closes h v = close-IsSteady h v

  -- Through whatever calls of Apply and Close, the host refines the abstract pool: a closed host refuses
  -- every envelope and only a closed host answers that it is closed; an envelope that is accepted makes the
  -- plugins the set of those it names and the server the one it asks for, whatever there was before; a
  -- failed one leaves no plugin and no server; a Close shuts the pool. At the end the plugins of the host
  -- are still those that run and its server is what is listened on, and besides there are only plugins that
  -- were given up because they outlive the limit of waitStopped, and files that os.Remove has failed on.
  pub run_all-Moves :
      (calls : List Call) (h : Host)
      → IsSteady h
      → Moves spec_key (view h) (run_all spec_key calls h).1 (view (run_all spec_key calls h).0)
        × IsConsistent (run_all spec_key calls h).0
  unfolding run_all
  run_all-Moves [] h (v, named) = (stays (view h), v)
  run_all-Moves (call ∷ calls) h (v, named) =
      let (rest, after) =
        run_all-Moves calls (run spec_key call h).0 (run-IsSteady call h (v, named)) in
      (moves (run-Move call h named) rest, after)
