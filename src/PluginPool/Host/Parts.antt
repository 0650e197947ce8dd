-- ===== src/PluginPool/Host/Parts.antt =====
-- What a guard that `prepare` builds is made of.
use android_lib_box_lite.Common.{
  ℕ, none, List, ◌++◌, Str, ◌≡◌, refl, arith, ◌⊎◌, if-split, inl, inr,
}
use android_lib_box_lite.PluginPool.Options.{File, Spec, Options, starts_absolute, validate}
use android_lib_box_lite.PluginPool.Options
use android_lib_box_lite.PluginPool.World.{World, Os}
use android_lib_box_lite.PluginPool.Guards.{
  Guard, Result, ok, err, build_guard, launch, expand_all, expand_environment, Files,
}

Result-cases :
    {A : Type 0} (r : Options.Result A)
    → ((a : A) × (r ≡ Options.ok a)) ⊎ ((e : Options.Error) × (r ≡ Options.err e))
Result-cases (Options.ok a) = inl (a, refl)
Result-cases (Options.err e) = inr (e, refl)

module _ (os : Os) (dir : Str) (spec : Spec) where
  pub build_guard_parts :
      (id : ℕ) (fs : Files) {g : Guard}
      → build_guard os dir spec id fs ≡ ok g
      → (fs.failed ≡ none)
        × (expand_all dir fs.names spec.command ≡ Options.ok g.command)
        × (g.dir ≡ dir)
        × ((entries : List Str) × (expand_environment dir fs.names spec.environment
              ≡ Options.ok entries)
            × (g.environment ≡ os.environ ++ entries))
  unfolding build_guard
  build_guard_parts id fs {g} e = (
    ground arith,
    ground arith,
    ground arith,
    elim (Result-cases (expand_environment dir fs.names spec.environment)) [
      | inl (entries, h) ↦ (entries, h, ground arith)
      | inr (x, h) ↦ absurd (ground arith)
    ],
  )

  pub launch_parts :
      (paths : List Str) (w : World) (r : Result Guard) {w' : World} {g : Guard}
      → launch os spec paths w r ≡ (w', ok g)
      → (r ≡ ok g) × (w'.files ≡ w.files)
  unfolding launch
  launch_parts paths w (err x) e = cc
  launch_parts paths w (ok g') {w'} {g} e =
      if-split
        (λ (p : World × Result Guard). p ≡ (w', ok g) → (ok g' ≡ ok g) × (w'.files ≡ w.files))
        (os.start_fails w g'.id) (λ _ f. cc) (λ _ f. (cc f, cc f)) e
