-- ===== src/UrlTest/Network.antt =====
-- What a measurement of patches/daemon/url_test_options.go works with: contexts, transports with those of
-- url_test_http3.go and its stub, and what it does to the network.
use android_lib_box_lite.Common.{ℕ, ◌^◌, Bool, true, false, Option, List, ◌∷◌, Str}

abbrev pub millisecond : ℕ
millisecond = 10 ^ 6

-- url.URL, as far as it is used.
pub record Url : Type 0 where
  pub scheme : Str
  pub hostname : Str
  pub port : Str

pub data Network : Type 0 where
  tcp udp : Network

pub data Error : Type 0 where
  bad_url quic_not_included dial_failed bad_request no_response : Error

pub data Result {ℓ} (A : Type ℓ) : Type ℓ where
  ok : A → Result A
  err : Error → Result A

-- The protocols that keep the session of a context, by the packages that mark it.
pub data Session : Type 0 where
  of_adapter of_mux of_anytls of_quic of_snell : Session

-- A context of context.WithTimeout: when it ends, in nanoseconds, whether a cancelled request ends it
-- too, and the sessions that it keeps, the last mark first.
pub record Context : Type 0 where
  pub deadline : ℕ
  pub follows_request : Bool
  pub kept : List Session

-- The markers of the packages (ContextWithKeepSession).
abbrev mark : Session → Context → Context
mark session c = record c { kept = session ∷ c.kept }

-- `urlTestContextWithQUICKeepSession`, with the build tag with_quic and without it.
abbrev keep_quic_session : Bool → Context → Context
keep_quic_session true c = mark of_quic c
keep_quic_session false c = c

-- `urlTestContextWithKeepSession`
unfoldable pub keep_session : Bool → Context → Context
keep_session with_quic c =
    let multiplexed = mark of_anytls (mark of_mux (mark of_adapter c)) in
    mark of_snell (keep_quic_session with_quic multiplexed)

pub data Transport : Type 0 where
  over_tcp over_quic : Transport

-- `urlTestNewHTTP3Transport`, with the build tag and without it.
abbrev pub new_http3_transport : Bool → Result Transport
new_http3_transport true = ok over_quic
new_http3_transport false = err quic_not_included

-- What a measurement does, in order. A redirect is not followed, so a request is one exchange.
pub data Action : Type 0 where
  dials : Network → Str → Str → Action
  connects : Action
  makes_transport : Action
  requests : Transport → Str → Action
  responds : Action
  closes_body closes_idle closes_transport closes_connection : Action

-- What one call of `urlTestMeasureOnce` meets. Times are those of time.Now, in nanoseconds.
pub record Attempt : Type 0 where
  -- DialContext with a network, a host and a port, called at `started` and back at `dialled`.
  pub accepts : Network → Str → Str → Bool
  pub started : ℕ
  pub dialled : ℕ
  pub needs_handshake : Bool
  pub request_made : Bool
  -- When the response to the request is there, and to the second one, asked for at `asked_again`.
  pub answered : Option ℕ
  pub asked_again : ℕ
  pub answered_again : Option ℕ

-- What a test on an outbound meets: the time of context.WithTimeout, and an attempt for each call, which
-- depends on its context.
pub record Attempts : Type 0 where
  pub now : ℕ
  pub warmup : Context → Attempt
  pub measured : Context → Attempt

-- What the test takes from elsewhere: url.Parse, C.WithQUIC and C.TCPTimeout in milliseconds of the core,
-- and the build tag.
pub record Setting : Type 0 where
  pub parse_url : Str → Option Url
  pub core_quic : Bool
  pub with_quic : Bool
  pub tcp_timeout : ℕ
