-- ===== src/Environment/Restored.antt =====
-- What the environment of the standalone process holds after `init`.
use android_lib_box_lite.Common.{
  true, Option, none, some, List, [], ◌∷◌, Str, bytes, str_eq, str_eq_iff, cut, if◌then◌else◌, ◌≡◌,
  ◌⊎◌, refl, ap, ◌∙◌, arith, Option-cases, inl, inr,
}
use android_lib_box_lite.Common.Variables.{value_after, last_value}
use android_lib_box_lite.Environment.{
  Env, lookup_env, put_env, unset_env, set_env, Panic, Result, ok, panic, RuntimeCalls,
  apply_runtime_limits, restore_entry, restore, cli_marker, start_cli, init,
}

lookup_env-put_env :
    (key k v : Str) (env : Env)
    → lookup_env key (put_env k v env) ≡ (if str_eq k key then some v else lookup_env key env)
unfolding lookup_env put_env
lookup_env-put_env key k v [] = refl
lookup_env-put_env key k v ((k', v') ∷ env) =
    ground
      (arith, lookup_env-put_env key k v env, str_eq_iff k' k, str_eq_iff k' key, str_eq_iff k key)

lookup_env-unset_env :
    (key k : Str) (env : Env)
    → lookup_env key (unset_env k env) ≡ (if str_eq key k then none else lookup_env key env)
unfolding lookup_env unset_env
lookup_env-unset_env key k [] = ground arith
lookup_env-unset_env key k ((k', v') ∷ env) =
    ground
      (arith, lookup_env-unset_env key k env, str_eq_iff k' k, str_eq_iff k' key, str_eq_iff key k)

lookup_env-set_env :
    (key k v : Str) (env : Env) {env' : Env}
    → set_env k v env ≡ some env'
    → lookup_env key env' ≡ value_after key (some (k, v)) (lookup_env key env)
unfolding set_env
lookup_env-set_env key [] v env e = cc
lookup_env-set_env key (c ∷ k) v env {env'} e =
    let same : env' ≡ put_env (c ∷ k) v env = ground arith in
    ap (lookup_env key) same ∙ lookup_env-put_env key (c ∷ k) v env

restore_entry-value :
    (key : Str) (entry : Option (Str × Str)) (env : Env) {env' : Env}
    → restore_entry entry env ≡ some env'
    → lookup_env key env' ≡ value_after key entry (lookup_env key env)
restore_entry-value key none env e = cc
restore_entry-value key (some (k, v)) env e = lookup_env-set_env key k v env e

restore-last_value :
    (key : Str) (snapshot : List Str) (env : Env) {env' : Env}
    → restore snapshot env ≡ some env'
    → lookup_env key env' ≡ last_value key snapshot (lookup_env key env)
unfolding restore
restore-last_value key [] env e = cc
restore-last_value key (entry ∷ snapshot) env {env'} e =
    elim (Option-cases (restore_entry (cut (bytes "=") entry) env)) [
      | inl h ↦ cc (rw h at e)
      | inr (env'', h) ↦
          restore-last_value key snapshot env'' (rw h at e)
          ∙ ap (last_value key snapshot) (restore_entry-value key (cut (bytes "=") entry) env h)
    ]

-- Where the start of the standalone process does not panic, a variable has the value of its last entry
-- in the C environment, or the one it had, and the marker of the launcher is gone.
pub init-last_value :
    (snapshot : List Str) (env env' : Env) (calls : Option RuntimeCalls) (key : Str)
    → init true snapshot env ≡ ok (env', calls)
    → lookup_env key env'
      ≡ (if str_eq key cli_marker then none else last_value key snapshot (lookup_env key env))
unfolding init
init-last_value snapshot env env' calls key e = elim (Option-cases (restore snapshot env)) [
  | inl h ↦ cc (rw h at e)
  | inr (env'', h) ↦ elim (Result-cases (apply_runtime_limits (unset_env cli_marker env''))) [
    | inl (c, l) ↦
        let same : env' ≡ unset_env cli_marker env'' = cc (rw (h, l, start_cli) at e) in
        ap (lookup_env key) same
        ∙ lookup_env-unset_env key cli_marker env''
        ∙ ap (λ (o : Option Str). if str_eq key cli_marker then none else o)
            (restore-last_value key snapshot env h)
    | inr (p, l) ↦ cc (rw (h, l, start_cli) at e)
  ]
]
  where
    Result-cases :
        {A : Type 0} (r : Result A) → ((a : A) × (r ≡ ok a)) ⊎ ((p : Panic) × (r ≡ panic p))
    Result-cases (ok a) = inl (a, refl)
    Result-cases (panic p) = inr (p, refl)
