-- ===== src/PluginPool/Host/Stop.antt =====
-- What stopping plugins and closing sockets does to each part of the world.
use android_lib_box_lite.Common.{
  ℕ, All-append, Bool-cases, inl, inr, not, ◌&&◌, List, [], ◌∷◌, ◌++◌, Str, str_eq, str_eq_iff, has,
  has-append, ◌≡◌, refl, ap, ◌∙◌, arith, without,
}
use android_lib_box_lite.PluginPool.World.{
  World, IsAccounted, has_file, remove_file, remove_path, remove_files,
}
use android_lib_box_lite.PluginPool.Guards.{
  Guard, request_stops, wait_done, await_stop, await_stops, stop_guards,
}

abbrev pub ids_of : List Guard → List ℕ
ids_of [] = []
ids_of (g ∷ gs) = g.id ∷ ids_of gs

abbrev pub paths_of : List Guard → List Str
paths_of [] = []
paths_of (g ∷ gs) = g.paths ++ paths_of gs

abbrev pub without_all : List ℕ → List ℕ → List ℕ
without_all [] running = running
without_all (id ∷ ids) running = without_all ids (without id running)

has_file-remove_file :
    (path p : Str) (files : List (Str × Str))
    → has_file (remove_file path files) p ≡ (not (str_eq path p) && has_file files p)
unfolding has_file remove_file
has_file-remove_file path p [] = ground arith
has_file-remove_file path p ((q, c) ∷ files) =
    ground (
      arith,
      has_file-remove_file path p files,
      str_eq_iff q path,
      str_eq_iff q p,
      str_eq_iff path p,
    )

-- What removing files leaves alone.
pub record Removes (w w' : World) : Type 0 where
  pub running : w'.running ≡ w.running
  pub next : w'.next ≡ w.next
  pub sockets : w'.sockets ≡ w.sockets
  pub trace : w'.trace ≡ w.trace
  pub outlives : w'.outlives ≡ w.outlives
  pub overdue : w'.overdue ≡ w.overdue
  pub accounted : IsAccounted w → IsAccounted w'

remove_path-Removes :
    (path : Str) (w : World)
    → Removes w (remove_path path w) × ((remove_path path w).files ≡ remove_file path w.files)
unfolding remove_path
remove_path-Removes path w = elim (Bool-cases (w.undeletable w.trace path)) [
  | inl e ↦ rw e (
    record {
      running = refl;
      next = refl;
      sockets = refl;
      trace = refl;
      outlives = refl;
      overdue = refl;
      accounted = λ v. (v.0, ((w.trace, e), v.1));
    },
    refl,
  )
  | inr e ↦ rw e (
    record {
      running = refl;
      next = refl;
      sockets = refl;
      trace = refl;
      outlives = refl;
      overdue = refl;
      accounted = λ v. v;
    },
    refl,
  )
]

pub remove_files-Removes : (paths : List Str) (w : World) → Removes w (remove_files paths w)
unfolding remove_files
remove_files-Removes [] w = record {
  running = refl;
  next = refl;
  sockets = refl;
  trace = refl;
  outlives = refl;
  overdue = refl;
  accounted = λ v. v;
}
remove_files-Removes (path ∷ paths) w =
    let (one, _) = remove_path-Removes path w in
    let rest = remove_files-Removes paths (remove_path path w) in
    record {
      running = rest.running ∙ one.running;
      next = rest.next ∙ one.next;
      sockets = rest.sockets ∙ one.sockets;
      trace = rest.trace ∙ one.trace;
      outlives = rest.outlives ∙ one.outlives;
      overdue = rest.overdue ∙ one.overdue;
      accounted = λ v. rest.accounted (one.accounted v);
    }

pub has_file-remove_files :
    (paths : List Str) (w : World) (p : Str)
    → has_file (remove_files paths w).files p ≡ (not (has paths p) && has_file w.files p)
unfolding remove_files has
has_file-remove_files [] w p = refl
has_file-remove_files (path ∷ paths) w p = ground (
  arith,
  has_file-remove_files paths (remove_path path w) p,
  has_file-remove_file path p w.files,
  (remove_path-Removes path w).1,
)

pub request_stops-same :
    (gs : List Guard) (w : World)
    → let w' = request_stops gs w in
      (w'.running ≡ w.running)
      × (w'.next ≡ w.next)
      × (w'.sockets ≡ w.sockets)
      × (w'.files ≡ w.files)
      × (w'.outlives ≡ w.outlives)
      × (IsAccounted w → IsAccounted w')
unfolding request_stops
request_stops-same [] w = (refl, refl, refl, refl, refl, λ v. v)
request_stops-same (g ∷ gs) w = request_stops-same gs _

pub wait_done-same :
    (g : Guard) (w : World)
    → let w' = wait_done g w in
      (w'.running ≡ without g.id w.running)
      × (w'.next ≡ w.next)
      × (w'.sockets ≡ w.sockets)
      × (w'.files ≡ w.files)
      × (w'.outlives ≡ w.outlives)
      × (IsAccounted w → IsAccounted w')
unfolding wait_done
wait_done-same g w = elim (Bool-cases (w.outlives g.id)) [
  | inl e ↦ rw e (refl, refl, refl, refl, refl, λ v. (All-append _ w.overdue _ v.0 (e, tt), v.1))
  | inr e ↦ rw e (refl, refl, refl, refl, refl, λ v. v)
]

pub await_stop-world :
    (g : Guard) (w : World) (p : Str)
    → let w' = await_stop g w in
      (w'.running ≡ without g.id w.running)
      × (w'.next ≡ w.next)
      × (w'.sockets ≡ w.sockets)
      × (has_file w'.files p ≡ (not (has g.paths p) && has_file w.files p))
      × (w'.outlives ≡ w.outlives)
      × (IsAccounted w → IsAccounted w')
unfolding await_stop
await_stop-world g w p =
    let (a, b, c, d, e, f) = wait_done-same g w in
    let r = remove_files-Removes g.paths (wait_done g w) in
    (
      r.running ∙ a,
      r.next ∙ b,
      r.sockets ∙ c,
      has_file-remove_files g.paths (wait_done g w) p
          ∙ ap (λ (fs : List (Str × Str)). not (has g.paths p) && has_file fs p) d,
      r.outlives ∙ e,
      λ v. r.accounted (f v),
    )

await_stops-world :
    (gs : List Guard) (w : World) (p : Str)
    → let w' = await_stops gs w in
      (w'.running ≡ without_all (ids_of gs) w.running)
      × (w'.next ≡ w.next)
      × (w'.sockets ≡ w.sockets)
      × (has_file w'.files p ≡ (not (has (paths_of gs) p) && has_file w.files p))
      × (IsAccounted w → IsAccounted w')
unfolding await_stops
await_stops-world [] w p = (refl, refl, refl, unfold has in refl, λ v. v)
await_stops-world (g ∷ gs) w p =
    let (a, b, c, d, e, f) = await_stop-world g w p in
    let (a', b', c', d', f') = await_stops-world gs (await_stop g w) p in
    (
      a' ∙ ap (without_all (ids_of gs)) a,
      b' ∙ b,
      c' ∙ c,
      ground (arith, d, d', has-append g.paths (paths_of gs) p),
      λ v. f' (f v),
    )

-- Stopping plugins takes them off those that run, removes their files, and no others.
pub stop_guards-world :
    (gs : List Guard) (w : World) (p : Str)
    → let w' = stop_guards gs w in
      (w'.running ≡ without_all (ids_of gs) w.running)
      × (w'.next ≡ w.next)
      × (w'.sockets ≡ w.sockets)
      × (has_file w'.files p ≡ (not (has (paths_of gs) p) && has_file w.files p))
      × (IsAccounted w → IsAccounted w')
unfolding stop_guards
stop_guards-world gs w p =
    let (a, b, c, d, e, f) = request_stops-same gs w in
    let (a', b', c', d', f') = await_stops-world gs (request_stops gs w) p in
    (
      a' ∙ ap (without_all (ids_of gs)) a,
      b' ∙ b,
      c' ∙ c,
      d' ∙ ap (λ (fs : List (Str × Str)). not (has (paths_of gs) p) && has_file fs p) d,
      λ v. f' (f v),
    )
