-- ===== src/UrlTest/Daemon/Requests.antt =====
-- A request of the client reaches the daemon's test with the arguments that the client was given.
use android_lib_box_lite.Common.{
  ℕ, zero, suc, ◌≤◌, ◌<◌, ◌^◌, Bool, true, false, Option, Str, if◌then◌else◌, ◌≡◌, refl, ap, arith,
}
use android_lib_box_lite.Common.Strconv.{ℤ, pos, negsuc}
use android_lib_box_lite.UrlTest.Wire.{
  Protowire, IsProtowire, max_int32, flags_of, unified_delay, ignore_handshake_time,
}
use android_lib_box_lite.UrlTest.Wire.RoundTrip.{positive_part, options_from_request-append_options}
use android_lib_box_lite.UrlTest.Groups.{Outbound}
use android_lib_box_lite.UrlTest.Network.{Error, Result, Attempts, Setting}
use android_lib_box_lite.UrlTest.Measurement.{has_flag, run_with_timeout}
use android_lib_box_lite.UrlTest.Daemon.{
  Instance, no_context, rejected, Target, to, refused, target, Tested, test_target,
  test_with_options, Handled, stock, refuses, tests, with_status, handle_target, handle_request,
  client_request, flags_in, recorded,
}

flags_of-lt : (unified ignore : Bool) → flags_of unified ignore < 2 ^ 8
unfolding flags_of
flags_of-lt true true = omega arith
flags_of-lt true false = omega arith
flags_of-lt false true = omega arith
flags_of-lt false false = omega arith

-- Each flag is in the bit that the measurement reads it from.
flags_of-has_flag :
    (unified ignore : Bool)
    → (has_flag (flags_of unified ignore) unified_delay ≡ unified)
      × (has_flag (flags_of unified ignore) ignore_handshake_time ≡ ignore)
unfolding flags_of
flags_of-has_flag true true = (refl, refl)
flags_of-has_flag true false = (refl, refl)
flags_of-has_flag false true = (refl, refl)
flags_of-has_flag false false = (refl, refl)

-- `urlTestRunWithTimeout` on an outbound, which is multiplexed or not, and meets some attempts.
abbrev pub run_on :
    Setting → Bool → (Outbound → Bool) → (Outbound → Attempts) → Outbound → Str → ℤ → ℕ → Result ℕ
run_on setting has_request is_multiplexed attempts o link timeout_ms flags =
    (run_with_timeout setting has_request (is_multiplexed o) link timeout_ms flags (attempts o)).0

-- What the daemon answers to a test of a target: the stock handler for a URL test group, the error of a
-- target that is not found, or else the test itself.
abbrev pub answer_of : (Outbound → Bool) → (Error → Bool) → Tested → Target → Handled
answer_of is_url_test is_status t (refused e) = refuses e
answer_of is_url_test is_status t (to i m o) =
    if is_url_test o then stock else tests (with_status is_status t)

module _ (setting : Setting) (has_request : Bool) (is_multiplexed : Outbound → Bool)
    (attempts : Outbound → Attempts) (is_url_test : Outbound → Bool) (is_status : Error → Bool)
    (real_tag : Outbound → Str) where
  abbrev run : Outbound → Str → ℤ → ℕ → Result ℕ
  run = run_on setting has_request is_multiplexed attempts

  run-positive_part :
      (o : Outbound) (link : Str) (timeout_ms : ℤ) (flags : ℕ)
      → run o link (pos (positive_part timeout_ms)) flags ≡ run o link timeout_ms flags
  unfolding run_with_timeout
  run-positive_part o link (pos zero) flags = refl
  run-positive_part o link (pos (suc n)) flags = refl
  run-positive_part o link (negsuc n) flags = refl

  test_target-positive_part :
      (s : Option Instance) (link : Str) (timeout_ms : ℤ) (flags : ℕ) (t : Target)
      → test_target real_tag run s link (pos (positive_part timeout_ms)) flags t
        ≡ test_target real_tag run s link timeout_ms flags t
  test_target-positive_part s link timeout_ms flags (refused e) = refl
  test_target-positive_part s link timeout_ms flags (to i m o) =
      ap
        (λ (r : Result ℕ).
          if i.has_context then recorded i m (real_tag o) r i.history else rejected s no_context)
        (run-positive_part o link timeout_ms (flags_in i flags))

  handle_target-answer_of :
      (p : Protowire) (s : Option Instance) (tag link : Str) (timeout_ms : ℤ) (flags : ℕ)
      (t : Target)
      → handle_target p is_url_test is_status real_tag run s tag
          (record { link = link; timeout_ms = positive_part timeout_ms; flags = flags })
          t
        ≡ answer_of is_url_test is_status
            (test_with_options real_tag run s tag link timeout_ms flags)
            t
  unfolding test_with_options
  handle_target-answer_of p s tag link timeout_ms flags (refused e) = refl
  handle_target-answer_of p s tag link timeout_ms flags (to i m o) =
      ap (λ (t : Tested). if is_url_test o then stock else tests (with_status is_status t))
        (test_target-positive_part s link timeout_ms flags (target s tag))

-- What the client asks for is what the daemon does: a request for a link, a timeout that an int32 can hold,
-- unified delay or not, and the handshake ignored or not, is answered by the test of the daemon with that
-- link and timeout, and with flags that the measurement reads as that unified delay and that ignoring of
-- the handshake; or by the error of a target that is not found; for a URL test group the stock handler goes
-- on.
pub handle_request-client_request :
    (setting : Setting) (has_request : Bool) (is_multiplexed : Outbound → Bool)
    (attempts : Outbound → Attempts) (is_url_test : Outbound → Bool) (is_status : Error → Bool)
    (real_tag : Outbound → Str) (p : Protowire) (s : Option Instance) (tag link : Str)
    (timeout_ms : ℤ) (unified ignore : Bool)
    → IsProtowire p
    → positive_part timeout_ms ≤ max_int32
    → let run = run_on setting has_request is_multiplexed attempts in
      (flags : ℕ) × (has_flag flags unified_delay ≡ unified)
      × (has_flag flags ignore_handshake_time ≡ ignore)
      × (handle_request p is_url_test is_status real_tag run s
            (client_request p tag link timeout_ms unified ignore)
          ≡ answer_of is_url_test is_status
              (test_with_options real_tag run s tag link timeout_ms flags)
              (target s tag))
unfolding handle_request client_request
handle_request-client_request setting has_request is_multiplexed attempts is_url_test is_status
      real_tag p s tag link timeout_ms unified ignore laws fits =
    let (asks_unified, asks_ignore) = flags_of-has_flag unified ignore in
    (
      flags_of unified ignore,
      asks_unified,
      asks_ignore,
      rw
          (options_from_request-append_options p laws link timeout_ms (flags_of unified ignore)
            (flags_of-lt unified ignore) fits)
          (handle_target-answer_of setting has_request is_multiplexed attempts is_url_test is_status
            real_tag p s tag link timeout_ms (flags_of unified ignore) (target s tag)),
    )
