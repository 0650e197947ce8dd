-- ===== src/PluginPool/Host/Consistency.antt =====
-- The host's map, its server and the world agree, before and after every call.
use android_lib_box_lite.Common.{
  ℕ, ◌<◌, true, false, Option, none, some, List, [], ◌∷◌, ◌++◌, Str, str_eq_iff, has, ◌≡◌, refl,
  sym, ap, ◌∙◌, subst, arith, All, has_id, DistinctIds, without,
}
use android_lib_box_lite.PluginPool.World.{World, IsAccounted, has_file, without_path, close_socket}
use android_lib_box_lite.PluginPool.Host.{Server, Host, guards_of, close_server, stop_all}
use android_lib_box_lite.PluginPool.Guards.{Guard, stop_guards}
use android_lib_box_lite.PluginPool.Host.Stop.{ids_of, paths_of, without_all, stop_guards-world}
use android_lib_box_lite.PluginPool.Host.Reported.{late, stop_guards-overdue}

abbrev pub server_paths : Option Server → List Str
server_paths none = []
server_paths (some s) = s.path ∷ []

abbrev pub guard_ids : Host → List ℕ
guard_ids h = ids_of (guards_of h.guards)

pub record IsConsistent (h : Host) : Type 0 where
  -- The plugins that run are those of the map, each once, with numbers that were given out.
  pub supervised : h.world.running ≡ guard_ids h
  pub distinct : DistinctIds h.world.running
  pub given_out : All (λ i. i < h.world.next) h.world.running
  -- Every plugin file belongs to a plugin of the map.
  pub owned :
      (p : Str) → has_file h.world.files p ≡ true → has (paths_of (guards_of h.guards)) p ≡ true
  -- The socket that is listened on is the server's.
  pub listening : h.world.sockets ≡ server_paths h.server
  -- Only plugins that outlive the limit were given up, and only files that os.Remove failed on.
  pub accounted : IsAccounted h.world

-- Numbers.
pub without_absent : (id : ℕ) (ids : List ℕ) → has_id ids id ≡ false → without id ids ≡ ids
unfolding without has_id
without_absent id [] e = refl
without_absent id (i ∷ ids) e = ground (arith, without_absent id ids)

pub without_head : (i : ℕ) (ids : List ℕ) → has_id ids i ≡ false → without i (i ∷ ids) ≡ ids
unfolding without
without_head i ids e = ground (arith, without_absent i ids e)

without_all_self : (ids : List ℕ) → DistinctIds ids → without_all ids ids ≡ []
without_all_self [] d = refl
without_all_self (i ∷ ids) d =
    ap (without_all ids) (without_head i ids d.0) ∙ without_all_self ids d.1

-- `stopAll` leaves nothing behind.
pub record IsStopped (h : Host) : Type 0 where
  pub no_guard : h.guards ≡ []
  pub no_server : h.server ≡ none
  pub none_running : h.world.running ≡ []
  pub no_file : (p : Str) → has_file h.world.files p ≡ false
  pub no_socket : h.world.sockets ≡ []
  pub accounted : IsAccounted h.world

pub close_server-world :
    (s : Option Server) (w : World)
    → w.sockets ≡ server_paths s
    → let w' = close_server s w in
      (w'.running ≡ w.running)
      × (w'.next ≡ w.next)
      × (w'.files ≡ w.files)
      × (w'.sockets ≡ [])
      × (IsAccounted w → IsAccounted w')
unfolding close_socket without_path
close_server-world none w e = (refl, refl, refl, e, λ v. v)
close_server-world (some s) w e =
    (refl, refl, refl, rw e (ground (arith, str_eq_iff s.path s.path)), λ v. v)

pub stop_all-overdue :
    (h : Host)
    → (stop_all h).world.overdue ≡ h.world.overdue ++ late h.world.outlives (guards_of h.guards)
unfolding stop_all close_socket
stop_all-overdue h =
    same h.server (stop_guards (guards_of h.guards) h.world)
    ∙ stop_guards-overdue (guards_of h.guards) h.world
  where
    same : (s : Option Server) (w : World) → (close_server s w).overdue ≡ w.overdue
    same none w = refl
    same (some s) w = refl

pub stop_all-IsStopped : (h : Host) → IsConsistent h → IsStopped (stop_all h)
unfolding stop_all
stop_all-IsStopped h v =
    let w = stop_guards (guards_of h.guards) h.world in
    let at = λ (p : Str). stop_guards-world (guards_of h.guards) h.world p in
    let (a, b, c, d, f) = close_server-world h.server w ((at []).2 ∙ v.listening) in
    record {
      no_guard = refl;
      no_server = refl;
      none_running =
          a
          ∙ (at []).0
          ∙ ap (without_all (guard_ids h)) v.supervised
          ∙ without_all_self (guard_ids h) (subst DistinctIds v.supervised v.distinct);
      no_file = λ p.
          ap (λ (fs : List (Str × Str)). has_file fs p) c ∙ ground (arith, (at p).3, v.owned p);
      no_socket = d;
      accounted = f ((at []).4 v.accounted);
    }

pub IsStopped-IsConsistent : {h : Host} → IsStopped h → IsConsistent h
unfolding guards_of
IsStopped-IsConsistent {h} s = record {
  supervised =
      s.none_running ∙ sym (ap (λ (gs : List (Str × Guard)). ids_of (guards_of gs)) s.no_guard);
  distinct = rw s.none_running tt;
  given_out = rw s.none_running tt;
  owned = λ p e. cc (s.no_file p);
  listening = s.no_socket ∙ sym (ap server_paths s.no_server);
  accounted = s.accounted;
}
