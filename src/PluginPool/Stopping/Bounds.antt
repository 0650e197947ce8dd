-- ===== src/PluginPool/Stopping/Bounds.antt =====
-- How long a stop takes.
use android_lib_box_lite.Common.{
  ℕ, suc, ◌+◌, ◌*◌, ◌≤◌, Bool, true, false, none, some, List, [], ◌∷◌, ltb, ltb→lt, ◌≡◌, refl,
  subst, arith, Bool-cases, inl, inr, if-split, if◌then◌else◌,
}
use android_lib_box_lite.PluginPool.Guards.{pipe_grace}
use android_lib_box_lite.PluginPool.Stopping.{
  stop_grace, wait_limit, Plugin, resting, running, stuck, done_at, Clock, wait_stopped,
  request_all, wait_all, stop_guards_at,
}

-- The plugin ends by SIGKILL at the latest.
abbrev pub is_mortal : Plugin → Bool
is_mortal resting = true
is_mortal (running exits held) = true
is_mortal stuck = false

abbrev pub count_stuck : List Plugin → ℕ
count_stuck [] = 0
count_stuck (p ∷ plugins) = if is_mortal p then count_stuck plugins else suc (count_stuck plugins)

done_at-mortal :
    (t : ℕ) (p : Plugin)
    → is_mortal p ≡ true
    → (ms : ℕ) × (done_at t p ≡ some ms) × (ms ≤ t + (stop_grace + pipe_grace))
unfolding done_at
done_at-mortal t resting m = (t, refl, omega arith)
done_at-mortal t (running none held) m = (_, refl, omega arith)
done_at-mortal t (running (some x) held) m = (_, refl, omega arith)
done_at-mortal t stuck m = cc

done_at-stuck : (t : ℕ) (p : Plugin) → is_mortal p ≡ false → done_at t p ≡ none
unfolding done_at
done_at-stuck t resting m = cc
done_at-stuck t (running exits held) m = cc
done_at-stuck t stuck m = refl

-- The clock after `k` plugins that did not stop.
record IsWithin (t k : ℕ) (c : Clock) : Type 0 where
  begun : t ≤ c.now
  soon : c.now ≤ (t + (stop_grace + pipe_grace)) + k * wait_limit
  counted : c.overdue ≡ k

wait_mortal :
    (t k ms : ℕ) (c : Clock)
    → ms ≤ t + (stop_grace + pipe_grace)
    → IsWithin t k c
    → IsWithin t k (wait_stopped (some ms) c)
unfolding wait_stopped
wait_mortal t k ms c h v =
    if-split (IsWithin t k) (ltb (c.now + wait_limit) ms)
      (λ late. absurd (omega (arith, ltb→lt (c.now + wait_limit) ms late, v.begun)))
      (λ _.
        if-split (λ (n : ℕ). IsWithin t k (record c { now = n })) (ltb c.now ms)
          (λ less. record {
            begun = omega (arith, ltb→lt c.now ms less, v.begun);
            soon = omega (arith, h);
            counted = v.counted;
          })
          (λ _. v))

wait_timed_out : (t k : ℕ) (c : Clock) → IsWithin t k c → IsWithin t (suc k) (wait_stopped none c)
unfolding wait_stopped
wait_timed_out t k c v = record {
  begun = omega (arith, v.begun);
  soon = omega (arith, v.soon);
  counted = omega (arith, v.counted);
}

wait_all-IsWithin :
    (t k : ℕ) (plugins : List Plugin) (c : Clock)
    → IsWithin t k c
    → IsWithin t (k + count_stuck plugins) (wait_all (request_all plugins t) c)
unfolding wait_all request_all
wait_all-IsWithin t k [] c v = subst (λ (n : ℕ). IsWithin t n c) (omega arith) v
wait_all-IsWithin t k (p ∷ plugins) c v = elim (Bool-cases (is_mortal p)) [
  | inl m ↦
      let (ms, e, h) = done_at-mortal t p m in
      rw (m, e)
        (wait_all-IsWithin t k plugins (wait_stopped (some ms) c) (wait_mortal t k ms c h v))
  | inr m ↦
      rw (m, done_at-stuck t p m)
        (subst (λ (n : ℕ). IsWithin t n (wait_all (request_all plugins t) (wait_stopped none c)))
          (omega arith)
          (wait_all-IsWithin t (suc k) plugins (wait_stopped none c) (wait_timed_out t k c v)))
]

-- Stopping plugins reports exactly those that not even SIGKILL ends. It takes at most the two grace periods,
-- which all plugins share, and the limit of `waitStopped` for each that is reported; so without one of
-- those it is over after a second and a half, however many plugins there are.
pub stop_guards_at-le :
    (plugins : List Plugin) (t : ℕ)
    → let c = stop_guards_at plugins t in
      (t ≤ c.now)
      × (c.now ≤ (t + (stop_grace + pipe_grace)) + count_stuck plugins * wait_limit)
      × (c.overdue ≡ count_stuck plugins)
unfolding stop_guards_at
stop_guards_at-le plugins t =
    let v =
      wait_all-IsWithin t 0 plugins (record { now = t; overdue = 0 })
        (record { begun = omega arith; soon = omega arith; counted = refl }) in
    (v.begun, omega (arith, v.soon), omega (arith, v.counted))
