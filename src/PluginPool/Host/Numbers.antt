-- ===== src/PluginPool/Host/Numbers.antt =====
-- The numbers that `Apply` gives out to its plugins are new, and it drops none that it has.
use android_lib_box_lite.Common.{
  ℕ, ◌<◌, ◌≤◌, ◌==◌, Bool, false, ◌||◌, Option, none, some, List, [], ◌∷◌, ◌++◌, Str, str_eq,
  has_id, ◌≡◌, refl, ap, ◌∙◌, arith, Option-cases, if-split, inl, inr,
}
use android_lib_box_lite.PluginPool.Options.{Options, Spec}
use android_lib_box_lite.PluginPool.World.{
  World, Os, Lstat, absent, socket, other_kind, unreadable, open_socket, close_socket, log,
  stale_socket_removed,
}
use android_lib_box_lite.PluginPool.Guards.{Error, Guard, Result, ok, err, start}
use android_lib_box_lite.PluginPool.Host.{
  Server, Host, guards_of, find_guard, listen_at, replace_stale, listen_protect, listened,
  new_server, replace_server, started, start_one, start_each, start_missing, start_wanted,
}
use android_lib_box_lite.PluginPool.Host.Stop.{ids_of}
use android_lib_box_lite.PluginPool.Host.Start.{StartOutcome, start_outcome}
use android_lib_box_lite.PluginPool.Host.Consistency.{guard_ids}
use android_lib_box_lite.PluginPool.Host.Calls.{and_then-keeps}

-- Of the numbers below `n`, the host supervises those in `base`.
pub record IsOld (n : ℕ) (base : List ℕ) (h : Host) : Type 0 where
  pub below : n ≤ h.world.next
  pub same : (id : ℕ) → id < n → has_id (guard_ids h) id ≡ has_id base id

has_id-append :
    (guards : List (Str × Guard)) (key : Str) (g : Guard) (id : ℕ)
    → has_id (ids_of (guards_of (guards ++ ((key, g) ∷ [])))) id
      ≡ (g.id == id || has_id (ids_of (guards_of guards)) id)
unfolding has_id guards_of
has_id-append [] key g id = refl
has_id-append ((k, x) ∷ guards) key g id = ground (arith, has_id-append guards key g id)

module _ (n : ℕ) (base : List ℕ) where
  started-IsOld :
      (key : Str) (h : Host) (r : World × Result Guard)
      → StartOutcome h.world r
      → IsOld n base h
      → IsOld n base (started key h r).0
  started-IsOld key h (w, err e) o v = record {
    below = omega (arith, v.below, o.next);
    same = v.same;
  }
  started-IsOld key h (w, ok g) o v = record {
    below = omega (arith, v.below, o.next);
    same = λ id b.
        let new : (g.id == id) ≡ false = ground (arith, v.below, o.id) in
        has_id-append h.guards key g id
        ∙ ap (λ (x : Bool). x || has_id (guard_ids h) id) new
        ∙ v.same id b;
  }

  module _ (spec_key : Str → Spec → Str) (os : Os) where
    start_one-IsOld :
        (dir : Str) (spec : Spec) (h : Host)
        → IsOld n base h
        → IsOld n base (start_one spec_key os dir spec h).0
    start_one-IsOld dir spec h v = elim (Option-cases (find_guard (spec_key dir spec) h.guards)) [
      | inl e ↦
          rw (e, start_one)
            (started-IsOld (spec_key dir spec) h (start os dir spec h.world)
              (start_outcome os dir spec h.world) v)
      | inr (g, e) ↦ rw (e, start_one) v
    ]

    start_each-IsOld :
        (dir : Str) (specs : List Spec) (h : Host)
        → IsOld n base h
        → IsOld n base (start_each spec_key os dir specs h).0
    unfolding start_each
    start_each-IsOld dir [] h v = v
    start_each-IsOld dir (spec ∷ specs) h v =
        and_then-keeps (IsOld n base) (start_one spec_key os dir spec h)
          (start_each spec_key os dir specs) (start_one-IsOld dir spec h v)
          (start_each-IsOld dir specs)

    pub start_wanted-IsOld :
        (options : Option Options) (h : Host)
        → IsOld n base h
        → IsOld n base (start_wanted spec_key os options h).0
    unfolding start_missing
    start_wanted-IsOld none h v = v
    start_wanted-IsOld (some o) h v =
        if-split (λ (r : Host × Option Error). IsOld n base r.0)
          (os.mkdir_fails h.world o.working_dir) (λ _. v)
          (λ _. start_each-IsOld o.working_dir o.plugins h v)

-- Listening gives out no number.
abbrev SameNext : ℕ → World × Option Error → Type 0
SameNext next r = r.0.next ≡ next

module _ (os : Os) where
  listen_at-SameNext : (path : Str) (w : World) → SameNext w.next (listen_at os path w)
  unfolding listen_at open_socket close_socket
  listen_at-SameNext path w =
      if-split (SameNext w.next) (os.listen_fails w path) (λ _. refl)
        (λ _.
          if-split (SameNext w.next) (os.chmod_fails (open_socket path w) path) (λ _. refl)
            (λ _. refl))

  listen_protect-SameNext : (path : Str) (w : World) → SameNext w.next (listen_protect os path w)
  unfolding listen_protect replace_stale
  listen_protect-SameNext path w = replaced (os.lstat w path)
    where
      replaced : (l : Lstat) → SameNext w.next (replace_stale os path w l)
      replaced absent = listen_at-SameNext path w
      replaced socket =
          if-split (SameNext w.next) (os.remove_fails w path) (λ _. refl)
            (λ _. listen_at-SameNext path (log (stale_socket_removed path) w))
      replaced other_kind = refl
      replaced unreadable = refl

  module _ (n : ℕ) (base : List ℕ) where
    abbrev KeepsOld : Host × Option Error → Type 0
    KeepsOld r = IsOld n base r.0

    moved-IsOld :
        (h h' : Host)
        → h'.guards ≡ h.guards
        → h'.world.next ≡ h.world.next
        → IsOld n base h
        → IsOld n base h'
    moved-IsOld h h' same next v = record {
      below = omega (arith, v.below, next);
      same = λ id b.
          ap (λ (gs : List (Str × Guard)). has_id (ids_of (guards_of gs)) id) same ∙ v.same id b;
    }

    listened-IsOld :
        (path : Str) (verify : Bool) (h : Host) (r : World × Option Error)
        → SameNext h.world.next r
        → IsOld n base h
        → KeepsOld (listened path verify h r)
    listened-IsOld path verify h (w, some e) same v = moved-IsOld h _ refl same v
    listened-IsOld path verify h (w, none) same v = moved-IsOld h _ refl same v

    new_server-IsOld :
        (path : Str) (verify : Bool) (h : Host)
        → IsOld n base h
        → KeepsOld (new_server os path verify h)
    new_server-IsOld path verify h v =
        if-split KeepsOld (str_eq path []) (λ _. v)
          (λ _.
            if-split KeepsOld h.has_protector
              (λ _.
                listened-IsOld path verify h (listen_protect os path h.world)
                  (listen_protect-SameNext path h.world) v)
              (λ _. v))

    pub replace_server-IsOld :
        (path : Str) (verify : Bool) (h : Host) (o : Option Server)
        → IsOld n base h
        → KeepsOld (replace_server os path verify h o)
    unfolding close_socket
    replace_server-IsOld path verify h none v = new_server-IsOld path verify h v
    replace_server-IsOld path verify h (some s) v =
        if-split KeepsOld (str_eq s.path path) (λ _. moved-IsOld h _ refl refl v)
          (λ _. new_server-IsOld path verify _ (moved-IsOld h _ refl refl v))
