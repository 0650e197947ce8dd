-- ===== src/PluginPool/Host/Steps.antt =====
-- Each step of `Apply` keeps the host consistent.
use android_lib_box_lite.Common.{
  ℕ, ◌<◌, false, ◌||◌, Option, List, [], ◌∷◌, ◌++◌, Str, has, has-append, ◌≡◌, refl, sym, ap, ◌∙◌,
  subst, arith, All, All-append, All-mono, Bool-cases, inl, inr, has_id, DistinctIds, without,
}
use android_lib_box_lite.PluginPool.Options.{Options, Spec}
use android_lib_box_lite.PluginPool.World.{World, Os}
use android_lib_box_lite.PluginPool.Host.{
  Host, guards_of, started, keeps, kept, removed, drop_unwanted, wanted_keys,
}
use android_lib_box_lite.PluginPool.Guards.{Guard, Result, ok, err, stop_guards}
use android_lib_box_lite.PluginPool.Host.Stop.{ids_of, paths_of, without_all, stop_guards-world}
use android_lib_box_lite.PluginPool.Host.Start.{StartOutcome}
use android_lib_box_lite.PluginPool.Host.Consistency.{guard_ids, IsConsistent, without_head}

without_all-cons :
    (removed_ids ids : List ℕ) (i : ℕ)
    → has_id removed_ids i ≡ false
    → without_all removed_ids (i ∷ ids) ≡ i ∷ without_all removed_ids ids
unfolding has_id without
without_all-cons [] ids i e = refl
without_all-cons (j ∷ removed_ids) ids i e =
    let stays : without j (i ∷ ids) ≡ i ∷ without j ids = ground arith in
    ap (without_all removed_ids) stays
    ∙ without_all-cons removed_ids (without j ids) i (ground arith)

abbrev ids : List (Str × Guard) → List ℕ
ids guards = ids_of (guards_of guards)

abbrev paths : List (Str × Guard) → List Str
paths guards = paths_of (guards_of guards)

module _ (spec_key : Str → Spec → Str) (os : Os) (w : World) (wanted : List Str) where
  abbrev K : List (Str × Guard) → List (Str × Guard)
  K = kept spec_key os w wanted

  abbrev R : List (Str × Guard) → List (Str × Guard)
  R = removed spec_key os w wanted

  absent_of :
      (guards : List (Str × Guard)) (i : ℕ)
      → has_id (ids guards) i ≡ false
      → (has_id (ids (K guards)) i ≡ false) × (has_id (ids (R guards)) i ≡ false)
  unfolding kept removed guards_of has_id
  absent_of [] i e = (refl, refl)
  absent_of ((k, g) ∷ guards) i e =
      let (a, b) = absent_of guards i (ground arith) in
      elim (Bool-cases (keeps spec_key os w wanted (k, g))) [
        | inl h ↦ rw h (ground arith, b)
        | inr h ↦ rw h (a, ground arith)
      ]

  removed_ids :
      (guards : List (Str × Guard))
      → DistinctIds (ids guards)
      → without_all (ids (R guards)) (ids guards) ≡ ids (K guards)
  unfolding kept removed guards_of
  removed_ids [] d = refl
  removed_ids ((k, g) ∷ guards) d =
      let (a, b) = absent_of guards g.id d.0 in
      elim (Bool-cases (keeps spec_key os w wanted (k, g))) [
        | inl h ↦ rw h (
            without_all-cons (ids (R guards)) (ids guards) g.id b
            ∙ ap (λ (l : List ℕ). g.id ∷ l) (removed_ids guards d.1))
        | inr h ↦ rw h (
            ap (without_all (ids (R guards))) (without_head g.id (ids guards) d.0)
            ∙ removed_ids guards d.1)
      ]

  kept-DistinctIds :
      (guards : List (Str × Guard)) → DistinctIds (ids guards) → DistinctIds (ids (K guards))
  unfolding kept guards_of
  kept-DistinctIds [] d = tt
  kept-DistinctIds ((k, g) ∷ guards) d = elim (Bool-cases (keeps spec_key os w wanted (k, g))) [
    | inl h ↦ rw h ((absent_of guards g.id d.0).0, kept-DistinctIds guards d.1)
    | inr h ↦ rw h (kept-DistinctIds guards d.1)
  ]

  All-kept :
      (P : ℕ → Type 0) (guards : List (Str × Guard)) → All P (ids guards) → All P (ids (K guards))
  unfolding kept guards_of
  All-kept P [] a = tt
  All-kept P ((k, g) ∷ guards) a = elim (Bool-cases (keeps spec_key os w wanted (k, g))) [
    | inl h ↦ rw h (a.0, All-kept P guards a.1)
    | inr h ↦ rw h (All-kept P guards a.1)
  ]

  paths_split :
      (guards : List (Str × Guard)) (p : Str)
      → has (paths guards) p ≡ (has (paths (K guards)) p || has (paths (R guards)) p)
  unfolding kept removed guards_of has
  paths_split [] p = refl
  paths_split ((k, g) ∷ guards) p = elim (Bool-cases (keeps spec_key os w wanted (k, g))) [
    | inl h ↦ rw h (
        ground (
          arith,
          paths_split guards p,
          has-append g.paths (paths guards) p,
          has-append g.paths (paths (K guards)) p,
        ))
    | inr h ↦ rw h (
        ground (
          arith,
          paths_split guards p,
          has-append g.paths (paths guards) p,
          has-append g.paths (paths (R guards)) p,
        ))
  ]

ids-append :
    (guards : List (Str × Guard)) (key : Str) (g : Guard)
    → ids (guards ++ ((key, g) ∷ [])) ≡ ids guards ++ (g.id ∷ [])
unfolding guards_of
ids-append [] key g = refl
ids-append ((k, x) ∷ guards) key g = ap (λ (l : List ℕ). x.id ∷ l) (ids-append guards key g)

has-paths-append :
    (guards : List (Str × Guard)) (key : Str) (g : Guard) (p : Str)
    → has (paths (guards ++ ((key, g) ∷ []))) p ≡ (has (paths guards) p || has g.paths p)
unfolding guards_of has
has-paths-append [] key g p = ground (arith, has-append g.paths [] p)
has-paths-append ((k, x) ∷ guards) key g p = ground (
  arith,
  has-paths-append guards key g p,
  has-append x.paths (paths guards) p,
  has-append x.paths (paths (guards ++ ((key, g) ∷ []))) p,
)

-- A number that is larger than all others is new.
DistinctIds-append_next :
    (l : List ℕ) (n : ℕ) → All (λ i. i < n) l → DistinctIds l → DistinctIds (l ++ (n ∷ []))
unfolding has_id
DistinctIds-append_next [] n a d = (refl, tt)
DistinctIds-append_next (i ∷ l) n a d = (absent l d.0, DistinctIds-append_next l n a.1 d.1)
  where
    absent : (m : List ℕ) → has_id m i ≡ false → has_id (m ++ (n ∷ [])) i ≡ false
    absent [] e = ground (arith, a.0)
    absent (j ∷ m) e = ground (arith, absent m)

module _ (spec_key : Str → Spec → Str) (os : Os) where
  pub drop_unwanted-IsConsistent :
      (options : Option Options) (h : Host)
      → IsConsistent h
      → IsConsistent (drop_unwanted spec_key os options h)
  unfolding drop_unwanted
  drop_unwanted-IsConsistent options h v =
      let w = h.world in
      let wanted = wanted_keys spec_key options in
      let gone = guards_of (removed spec_key os w wanted h.guards) in
      let at = λ (p : Str). stop_guards-world gone w p in
      let d = subst DistinctIds v.supervised v.distinct in
      let same : (stop_guards gone w).running ≡ ids (kept spec_key os w wanted h.guards) =
        (at []).0
        ∙ ap (without_all (ids_of gone)) v.supervised
        ∙ removed_ids spec_key os w wanted h.guards d in
      record {
        supervised = same;
        distinct = rw same (kept-DistinctIds spec_key os w wanted h.guards d);
        given_out =
            rw (same, (at []).1)
              (All-kept spec_key os w wanted (λ i. i < w.next) h.guards
                (subst (All (λ i. i < w.next)) v.supervised v.given_out));
        owned =
            λ p e. ground (arith, (at p).3, v.owned p, paths_split spec_key os w wanted h.guards p);
        listening = (at []).2 ∙ v.listening;
        accounted = (at []).4 v.accounted;
      }

  pub started-IsConsistent :
      (key : Str) (h : Host) (r : World × Result Guard)
      → IsConsistent h
      → StartOutcome h.world r
      → IsConsistent (started key h r).0
  started-IsConsistent key h (w, err e) v n = record {
    supervised = n.running ∙ v.supervised;
    distinct = rw n.running v.distinct;
    given_out = rw (n.running, n.next) (All-mono h.world.running (λ i l. omega arith) v.given_out);
    owned = λ p e. v.owned p (n.no_new_file p e);
    listening = n.sockets ∙ v.listening;
    accounted = n.accounted v.accounted;
  }
  started-IsConsistent key h (w, ok g) v s = record {
    supervised =
        s.running
        ∙ ap (λ (l : List ℕ). l ++ (h.world.next ∷ [])) v.supervised
        ∙ ap (λ (i : ℕ). guard_ids h ++ (i ∷ [])) (sym s.id)
        ∙ sym (ids-append h.guards key g);
    distinct =
        rw s.running (DistinctIds-append_next h.world.running h.world.next v.given_out v.distinct);
    given_out =
        rw (s.running, s.next)
          (All-append _ h.world.running _
            (All-mono h.world.running (λ i l. omega arith) v.given_out) (omega arith, tt));
    owned = λ p e. ground (arith, has-paths-append h.guards key g p, s.tracked p e, v.owned p);
    listening = s.sockets ∙ v.listening;
    accounted = s.accounted v.accounted;
  }
