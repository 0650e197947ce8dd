-- ===== src/UrlTest/Measurement.antt =====
-- The measurement of a URL test (patches/daemon/url_test_options.go): `urlTestRunWithTimeout`,
-- `urlTestMeasure` and `urlTestMeasureOnce`.
pub mod Latency
pub mod Outcome
pub mod Deadline
pub mod Release
mod Examples
use Prim.Native.Nat.{bit_and}
use android_lib_box_lite.Common.{
  ℕ, zero, suc, ◌+◌, ◌-◌, ◌*◌, ◌/◌, ◌^◌, min, Bool, true, false, not, ◌&&◌, ◌||◌, Option, none,
  some, List, [], ◌∷◌, ◌++◌, Str, bytes, str_eq, ◌==◌, if◌then◌else◌,
}
use android_lib_box_lite.Common.Strconv.{ℤ, pos, negsuc}
use android_lib_box_lite.UrlTest.Wire.{unified_delay, ignore_handshake_time}
use android_lib_box_lite.UrlTest.Network.{
  millisecond, Url, Network, tcp, udp, Error, bad_url, quic_not_included, dial_failed, bad_request,
  no_response, Result, ok, err, Context, keep_session, Transport, over_tcp, over_quic,
  new_http3_transport, Action, dials, connects, makes_transport, requests, responds, closes_body,
  closes_idle, closes_transport, closes_connection, Attempt, Attempts, Setting,
}

abbrev pub default_link : Str
default_link = bytes "https://www.gstatic.com/generate_204"

abbrev pub max_uint16 : ℕ
max_uint16 = 2 ^ 16 - 1

abbrev pub has_flag : ℕ → ℕ → Bool
has_flag flags flag = not (bit_and flags flag == 0)

pub is_http3 : Url → Bool
is_http3 u = str_eq u.scheme (bytes "http3") || str_eq u.scheme (bytes "quic")

-- The scheme in the request, and the network to dial.
abbrev pub scheme_of : Url → Str
scheme_of u = if is_http3 u then bytes "https" else u.scheme

abbrev pub network_of : Url → Network
network_of u = if is_http3 u then udp else tcp

pub port_of : Url → Str
port_of u =
    if str_eq u.port []
    then if str_eq (scheme_of u) (bytes "http")
      then bytes "80"
      else if str_eq (scheme_of u) (bytes "https")
      then bytes "443"
      else u.port
    else u.port

-- From where the time counts, before a second request.
pub counted_from : ℕ → Attempt → ℕ
counted_from flags a =
    if has_flag flags ignore_handshake_time && a.needs_handshake then a.dialled else a.started

-- A failed second request falls back to the first.
abbrev second_or : ℕ → ℕ → Option ℕ → ℕ
second_or first asked none = first
second_or first asked (some answered) = answered - asked

pub elapsed : ℕ → Attempt → ℕ → ℕ
elapsed flags a answered =
    let first = answered - counted_from flags a in
    if has_flag flags unified_delay then second_or first a.asked_again a.answered_again else first

abbrev responded : ℕ → Attempt → Option ℕ → Result ℕ
responded flags a none = err no_response
responded flags a (some answered) = ok (min (elapsed flags a answered / millisecond) max_uint16)

-- One client.Do, with the body of its response closed.
abbrev exchange : Transport → Str → Option ℕ → List Action
exchange transport scheme none = requests transport scheme ∷ []
exchange transport scheme (some t) = requests transport scheme ∷ (responds ∷ (closes_body ∷ []))

abbrev exchanges : ℕ → Attempt → Transport → Str → Option ℕ → List Action
exchanges flags a transport scheme none = exchange transport scheme none
exchanges flags a transport scheme (some t) =
    exchange transport scheme (some t)
    ++ (if has_flag flags unified_delay then exchange transport scheme a.answered_again else [])

-- The deferred calls run in the opposite order.
abbrev with_transport : ℕ → Attempt → Url → Result Transport → Result ℕ × List Action
with_transport flags a u (err e) = (err e, [])
with_transport flags a u (ok over_tcp) = (
  responded flags a a.answered,
  exchanges flags a over_tcp (scheme_of u) a.answered ++ (closes_idle ∷ []),
)
with_transport flags a u (ok over_quic) = (
  responded flags a a.answered,
  makes_transport
      ∷ (exchanges flags a over_quic (scheme_of u) a.answered
          ++ (closes_idle ∷ (closes_transport ∷ []))),
)

abbrev connected : Bool → ℕ → Attempt → Url → Result ℕ × List Action
connected with_quic flags a u =
    if not a.request_made
    then (err bad_request, [])
    else with_transport flags a u
        (if is_http3 u then new_http3_transport with_quic else ok over_tcp)

abbrev closing : Result ℕ × List Action → Result ℕ × List Action
closing done = (done.0, connects ∷ (done.1 ++ (closes_connection ∷ [])))

abbrev after : Action → Result ℕ × List Action → Result ℕ × List Action
after first done = (done.0, first ∷ done.1)

abbrev measure_url : Setting → ℕ → Attempt → Option Url → Result ℕ × List Action
measure_url s flags a none = (err bad_url, [])
measure_url s flags a (some u) =
    if is_http3 u && not s.core_quic
    then (err quic_not_included, [])
    else after (dials (network_of u) u.hostname (port_of u)) (
        if not (a.accepts (network_of u) u.hostname (port_of u))
        then (err dial_failed, [])
        else closing (connected s.with_quic flags a u))

abbrev pub link_or_default : Str → Str
link_or_default link = if str_eq link [] then default_link else link

module _ (s : Setting) where
  -- `urlTestMeasureOnce`, and what it does.
  pub measure_once : Context → Str → ℕ → (Context → Attempt) → Result ℕ × List Action
  measure_once c link flags meets =
      measure_url s flags (meets c) (s.parse_url (link_or_default link))

  abbrev after_warmup : Result ℕ × List Action → Result ℕ × List Action → Result ℕ × List Action
  after_warmup (err e, actions) measured = (err e, actions)
  after_warmup (ok _, actions) (r, more) = (r, actions ++ more)

  -- `urlTestMeasure`: a multiplexed outbound is warmed up by a request that keeps its session.
  pub measure : Bool → Context → Str → ℕ → Attempts → Result ℕ × List Action
  measure is_multiplexed c link flags attempts =
      let measured = measure_once c link flags attempts.measured in
      if is_multiplexed
      then after_warmup (measure_once (keep_session s.with_quic c) link flags attempts.warmup)
          measured
      else measured

  abbrev pub timeout_or : ℤ → ℕ
  timeout_or (negsuc n) = s.tcp_timeout
  timeout_or (pos zero) = s.tcp_timeout
  timeout_or (pos (suc n)) = suc n

  -- The context of a measurement.
  abbrev pub context_of : Bool → ℤ → Attempts → Context
  context_of has_request timeout_ms attempts = record {
    deadline = attempts.now + timeout_or timeout_ms * millisecond;
    follows_request = has_request;
    kept = [];
  }

  -- `urlTestRunWithTimeout`; whether there is a context of the request is an argument.
  unfoldable pub run_with_timeout : Bool → Bool → Str → ℤ → ℕ → Attempts → Result ℕ × List Action
  run_with_timeout has_request is_multiplexed link timeout_ms flags attempts =
      measure is_multiplexed (context_of has_request timeout_ms attempts) link flags attempts
