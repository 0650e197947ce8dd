-- ===== src/PluginPool/Host/Extension.antt =====
-- Starting the plugins that are missing extends the map, and touches no plugin that is in it.
use android_lib_box_lite.Common.{
  true, ◌||◌, Option, none, some, List, [], ◌∷◌, ◌++◌, Str, str_eq, str_eq_iff, has, ◌≡◌, refl, sym,
  ap, ◌∙◌, arith, Option-cases, inl, inr,
}
use android_lib_box_lite.PluginPool.Options.{Spec}
use android_lib_box_lite.PluginPool.World.{World, Os}
use android_lib_box_lite.PluginPool.Host.{
  Host, find_guard, started, and_then, start_one, start_each, keys_of,
}
use android_lib_box_lite.PluginPool.Guards.{Error, Guard, Result, ok, err, start}

abbrev pub keys : List (Str × Guard) → List Str
keys [] = []
keys ((k, g) ∷ guards) = k ∷ keys guards

find-keys :
    (k : Str) (guards : List (Str × Guard)) (g : Guard)
    → find_guard k guards ≡ some g
    → has (keys guards) k ≡ true
unfolding find_guard has
find-keys k [] g e = cc
find-keys k ((j, x) ∷ guards) g e = ground (arith, find-keys k guards g)

has-keys-append :
    (guards : List (Str × Guard)) (key k : Str) (g : Guard)
    → has (keys (guards ++ ((key, g) ∷ []))) k ≡ (str_eq key k || has (keys guards) k)
unfolding has
has-keys-append [] key k g = refl
has-keys-append ((j, x) ∷ guards) key k g = ground (arith, has-keys-append guards key k g)

find-append :
    (guards more : List (Str × Guard)) (k : Str) (g : Guard)
    → find_guard k guards ≡ some g
    → find_guard k (guards ++ more) ≡ some g
unfolding find_guard
find-append [] more k g e = cc
find-append ((j, x) ∷ guards) more k g e = ground (arith, find-append guards more k g)

-- `h'` has the plugins of `h`, untouched, and those with the wanted keys.
pub record Extends (wanted : List Str) (h h' : Host) : Type 0 where
  pub all_keys : (k : Str) → has (keys h'.guards) k ≡ (has wanted k || has (keys h.guards) k)
  pub untouched :
      (k : Str) (g : Guard) → find_guard k h.guards ≡ some g → find_guard k h'.guards ≡ some g
  pub same_server : h'.server ≡ h.server

pub and_then-none :
    (m : Host × Option Error) (k : Host → Host × Option Error)
    → (and_then m k).1 ≡ none
    → (m.1 ≡ none) × (and_then m k ≡ k m.0)
and_then-none (h, some e) k n = cc
and_then-none (h, none) k n = (refl, refl)

Extends-trans :
    (key : Str) (wanted : List Str) {h h' h'' : Host}
    → Extends (key ∷ []) h h'
    → Extends wanted h' h''
    → Extends (key ∷ wanted) h h''
unfolding has
Extends-trans key wanted a b = record {
  all_keys = λ k. ground (arith, a.all_keys k, b.all_keys k);
  untouched = λ k x f. b.untouched k x (a.untouched k x f);
  same_server = b.same_server ∙ a.same_server;
}

module _ (spec_key : Str → Spec → Str) (os : Os) (dir : Str) where
  started-Extends :
      (key : Str) (h : Host) (r : World × Result Guard)
      → (started key h r).1 ≡ none
      → Extends (key ∷ []) h (started key h r).0
  started-Extends key h (w, err e) n = cc
  started-Extends key h (w, ok g) n = record {
    all_keys = λ k. unfold has in ground (arith, has-keys-append h.guards key k g);
    untouched = λ k x e. find-append h.guards ((key, g) ∷ []) k x e;
    same_server = refl;
  }

  start_one-Extends :
      (spec : Spec) (h : Host)
      → (start_one spec_key os dir spec h).1 ≡ none
      → Extends (spec_key dir spec ∷ []) h (start_one spec_key os dir spec h).0
  start_one-Extends spec h n = elim (Option-cases (find_guard (spec_key dir spec) h.guards)) [
    | inl e ↦
        rw (e, start_one)
          (started-Extends (spec_key dir spec) h (start os dir spec h.world)
            (rw (e, start_one) at n))
    | inr (g, e) ↦
        rw (e, start_one)
          (record {
            all_keys = λ k.
                unfold has in
                ground (
                  arith,
                  find-keys (spec_key dir spec) h.guards g e,
                  str_eq_iff (spec_key dir spec) k,
                );
            untouched = λ k x f. f;
            same_server = refl;
          })
  ]

  pub start_each-Extends :
      (specs : List Spec) (h : Host)
      → (start_each spec_key os dir specs h).1 ≡ none
      → Extends (keys_of spec_key dir specs) h (start_each spec_key os dir specs h).0
  unfolding start_each
  start_each-Extends [] h n = record {
    all_keys = λ k. unfold has in refl;
    untouched = λ k x f. f;
    same_server = refl;
  }
  start_each-Extends (spec ∷ specs) h n =
      let m = start_one spec_key os dir spec h in
      let (first, same) = and_then-none m (start_each spec_key os dir specs) n in
      let a = start_one-Extends spec h first in
      let b = start_each-Extends specs m.0 (sym (ap (λ (r : Host × Option Error). r.1) same) ∙ n) in
      rw same (Extends-trans (spec_key dir spec) (keys_of spec_key dir specs) a b)
