-- ===== src/UrlTest/Measurement/Deadline.antt =====
-- What `urlTestRunWithTimeout` comes to, within its timeout.
use android_lib_box_lite.Common.{ℕ, ◌≤◌, Bool, true, some, List, Str, ◌≡◌, ◌⊎◌}
use android_lib_box_lite.Common.Strconv.{ℤ}
use android_lib_box_lite.UrlTest.Network.{
  err, ok, Result, Action, Attempt, Attempts, Setting, Context, keep_session,
}
use android_lib_box_lite.UrlTest.Measurement.{measure_once, timeout_or, context_of}
use android_lib_box_lite.UrlTest.Measurement.Latency.{IsTimely}
use android_lib_box_lite.UrlTest.Measurement.Outcome.{IsCause, Measured}

-- What package context is for: a call with a context does not outlive its deadline. And the clock does not
-- go back.
pub record IsBounded (now : ℕ) (c : Context) (a : Attempt) : Type 0 where
  pub timely : IsTimely a
  pub begins : now ≤ a.started
  pub first_ends : (t : ℕ) → a.answered ≡ some t → t ≤ c.deadline
  pub second_ends : (t : ℕ) → a.answered_again ≡ some t → t ≤ c.deadline

module _ (s : Setting) (has_request is_multiplexed : Bool) (link : Str) (timeout_ms : ℤ) (flags : ℕ)
    (attempts : Attempts) where
  abbrev c : Context
  c = context_of s has_request timeout_ms attempts

  -- The context of the request that warms the session up.
  abbrev kept : Context
  kept = keep_session s.with_quic c

  -- What a test with a timeout comes to.
  abbrev pub Timed : Result ℕ → Type 0
  Timed (ok l) =
      (l ≤ timeout_or s timeout_ms)
      × Measured s link flags (attempts.measured c) (ok l)
      × (is_multiplexed ≡ true
          → (k : ℕ) × ((measure_once s kept link flags attempts.warmup).0 ≡ ok k))
  Timed (err e) =
      ((is_multiplexed ≡ true) × IsCause s link (attempts.warmup kept) e)
      ⊎ IsCause s link (attempts.measured c) e

  abbrev once : Result ℕ × List Action
  once = measure_once s c link flags attempts.measured
