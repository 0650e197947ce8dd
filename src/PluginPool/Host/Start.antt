-- ===== src/PluginPool/Host/Start.antt =====
-- What starting one plugin does to each part of the world.
use android_lib_box_lite.Common.{
  ℕ, suc, true, ◌||◌, List, [], ◌∷◌, ◌++◌, Str, str_eq, str_eq_iff, has, ◌≡◌, refl, ap, ◌∙◌, arith,
  Bool-cases, inl, inr,
}
use android_lib_box_lite.PluginPool.Options.{File, Spec}
use android_lib_box_lite.PluginPool.Paths.{join}
use android_lib_box_lite.PluginPool.World.{
  World, Os, Written, whole, not_created, partly, has_file, put_file, remove_files, IsAccounted,
}
use android_lib_box_lite.PluginPool.Guards.{
  Guard, Files, no_files, Result, ok, err, wrote, is_whole, write_files, build_guard, launch, start,
}
use android_lib_box_lite.PluginPool.Host.Stop.{remove_files-Removes, has_file-remove_files}

has_file-put_file :
    (path content p : Str) (files : List (Str × Str))
    → has_file (put_file path content files) p ≡ (str_eq path p || has_file files p)
unfolding has_file put_file
has_file-put_file path content p [] = ground arith
has_file-put_file path content p ((q, c) ∷ files) = ground (
  arith,
  has_file-put_file path content p files,
  str_eq_iff q path,
  str_eq_iff q p,
  str_eq_iff path p,
)

-- Writing files changes nothing but the files; each of those was there or is tracked.
pub record Wrote (w w' : World) (fs fs' : Files) : Type 0 where
  pub running : w'.running ≡ w.running
  pub next : w'.next ≡ w.next
  pub sockets : w'.sockets ≡ w.sockets
  pub accounted : IsAccounted w → IsAccounted w'
  pub keeps_tracking : (p : Str) → has fs.paths p ≡ true → has fs'.paths p ≡ true
  pub tracked :
      (p : Str) → has_file w'.files p ≡ true → (has_file w.files p || has fs'.paths p) ≡ true

wrote_one :
    (path content p : Str) (w : World) (o : Written)
    → has_file (wrote path content w o).files p ≡ true
    → (has_file w.files p || str_eq path p) ≡ true
wrote_one path content p w whole e = ground (arith, has_file-put_file path content p w.files)
wrote_one path content p w not_created e = ground arith
wrote_one path content p w (partly c) e = ground (arith, has_file-put_file path c p w.files)

wrote-same :
    (path content : Str) (w : World) (o : Written)
    → let w' = wrote path content w o in
      (w'.running ≡ w.running)
      × (w'.next ≡ w.next)
      × (w'.sockets ≡ w.sockets)
      × (IsAccounted w → IsAccounted w')
wrote-same path content w whole = (refl, refl, refl, λ v. v)
wrote-same path content w not_created = (refl, refl, refl, λ v. v)
wrote-same path content w (partly c) = (refl, refl, refl, λ v. v)

pub write_files-Wrote :
    (os : Os) (dir : Str) (files : List File) (w : World) (fs : Files)
    → Wrote w (write_files os dir files w fs).0 fs (write_files os dir files w fs).1
unfolding write_files has
write_files-Wrote os dir [] w fs = record {
  running = refl;
  next = refl;
  sockets = refl;
  accounted = λ v. v;
  keeps_tracking = λ p e. e;
  tracked = λ p e. ground arith;
}
write_files-Wrote os dir (file ∷ files) w fs =
    let path = join dir file.name in
    let o = os.write_file w path in
    let w' = wrote path file.content w o in
    let tracked = record fs { paths = path ∷ fs.paths } in
    let ih = write_files-Wrote os dir files w' (record tracked { names = file.name ∷ fs.names }) in
    let (a, b, c, d) = wrote-same path file.content w o in
    elim (Bool-cases (is_whole o)) [
      | inl e ↦ rw e (record {
        running = ih.running ∙ a;
        next = ih.next ∙ b;
        sockets = ih.sockets ∙ c;
        accounted = λ v. ih.accounted (d v);
        keeps_tracking = λ p h. ih.keeps_tracking p (ground arith);
        tracked = λ p h.
            ground (arith, ih.tracked p h, ih.keeps_tracking p, wrote_one path file.content p w o);
      })
      | inr e ↦ rw e (record {
        running = a;
        next = b;
        sockets = c;
        accounted = d;
        keeps_tracking = λ p h. ground arith;
        tracked = λ p h. ground (arith, wrote_one path file.content p w o h);
      })
    ]

build_guard-fields :
    (os : Os) (dir : Str) (spec : Spec) (id : ℕ) (fs : Files) {g : Guard}
    → build_guard os dir spec id fs ≡ ok g
    → (g.id ≡ id) × (g.paths ≡ fs.paths)
unfolding build_guard
build_guard-fields os dir spec id fs e = ground arith

-- A start that fails leaves no plugin and no file of its own.
pub record NotStarted (w w' : World) : Type 0 where
  pub running : w'.running ≡ w.running
  pub next : w'.next ≡ suc w.next
  pub sockets : w'.sockets ≡ w.sockets
  pub accounted : IsAccounted w → IsAccounted w'
  pub no_new_file : (p : Str) → has_file w'.files p ≡ true → has_file w.files p ≡ true

-- A start that succeeds leaves one more plugin, and no file that it does not track.
pub record IsStarted (w w' : World) (g : Guard) : Type 0 where
  pub id : g.id ≡ w.next
  pub running : w'.running ≡ w.running ++ (w.next ∷ [])
  pub next : w'.next ≡ suc w.next
  pub sockets : w'.sockets ≡ w.sockets
  pub accounted : IsAccounted w → IsAccounted w'
  pub tracked :
      (p : Str) → has_file w'.files p ≡ true → (has_file w.files p || has g.paths p) ≡ true

abbrev pub StartOutcome : World → World × Result Guard → Type 0
StartOutcome w (w', err e) = NotStarted w w'
StartOutcome w (w', ok g) = IsStarted w w' g

module _ (os : Os) (dir : Str) (spec : Spec) (w : World) where
  abbrev w0 : World
  w0 = record w { next = suc w.next }

  cleaned :
      (w1 : World) (fs : Files) → Wrote w0 w1 no_files fs → NotStarted w (remove_files fs.paths w1)
  cleaned w1 fs v =
      let r = remove_files-Removes fs.paths w1 in
      record {
        running = r.running ∙ v.running;
        next = r.next ∙ v.next;
        sockets = r.sockets ∙ v.sockets;
        accounted = λ a. r.accounted (v.accounted a);
        no_new_file = λ p e. ground (arith, has_file-remove_files fs.paths w1 p, v.tracked p);
      }

  launch_outcome :
      (w1 : World) (fs : Files) (r : Result Guard)
      → Wrote w0 w1 no_files fs
      → ((g : Guard) → r ≡ ok g → (g.id ≡ w.next) × (g.paths ≡ fs.paths))
      → StartOutcome w (launch os spec fs.paths w1 r)
  unfolding launch
  launch_outcome w1 fs (err e) v fields = cleaned w1 fs v
  launch_outcome w1 fs (ok g) v fields =
      let (same_id, same_paths) = fields g refl in
      elim (Bool-cases (os.start_fails w1 g.id)) [
        | inl e ↦ rw e (cleaned w1 fs v)
        | inr e ↦ rw e (record {
          id = same_id;
          running =
              ap (λ (l : List ℕ). l ++ (g.id ∷ [])) v.running
              ∙ ap (λ (i : ℕ). w.running ++ (i ∷ [])) same_id;
          next = v.next;
          sockets = v.sockets;
          accounted = v.accounted;
          tracked = λ p h. rw same_paths (v.tracked p h);
        })
      ]

  pub start_outcome : StartOutcome w (start os dir spec w)
  unfolding start
  start_outcome =
      let v = write_files-Wrote os dir spec.files w0 no_files in
      let fs = (write_files os dir spec.files w0 no_files).1 in
      launch_outcome (write_files os dir spec.files w0 no_files).0 fs
        (build_guard os dir spec w.next fs) v (λ g e. build_guard-fields os dir spec w.next fs e)
