-- ===== src/UrlTest/Measurement/Release.antt =====
-- What a measurement opens, it closes, whatever fails.
use android_lib_box_lite.Common.{
  ℕ, Bool, not, ◌&&◌, Option, none, some, List, [], ◌∷◌, ◌++◌, Str, ◌≡◌, refl, ap, ◌∙◌, if-split,
  ◌>>=◌, Option-cases, inl, inr,
}
use android_lib_box_lite.Common.Strconv.{ℤ}
use android_lib_box_lite.UrlTest.Wire.{unified_delay}
use android_lib_box_lite.UrlTest.Network.{
  Url, ok, err, Result, Transport, over_tcp, over_quic, Action, dials, connects, makes_transport,
  requests, responds, closes_body, closes_idle, closes_transport, closes_connection, Attempt,
  Attempts, Setting, Context, keep_session,
}
use android_lib_box_lite.UrlTest.Measurement.{
  is_http3, network_of, port_of, scheme_of, has_flag, exchange, exchanges, with_transport,
  connected, measure_url, measure_once, link_or_default, after_warmup, measure, context_of,
  run_with_timeout,
}

-- What is open, the latest first.
pub data Resource : Type 0 where
  a_connection a_transport a_body : Resource

-- What one action makes of what is held: a request needs the connection of its transport, and only what was
-- opened last is closed.
pub hold : Action → List Resource → Option (List Resource)
hold (dials network host port) held = some held
hold connects held = some (a_connection ∷ held)
hold makes_transport (a_connection ∷ held) = some (a_transport ∷ (a_connection ∷ held))
hold (requests over_tcp scheme) (a_connection ∷ held) = some (a_connection ∷ held)
hold (requests over_quic scheme) (a_transport ∷ held) = some (a_transport ∷ held)
hold responds held = some (a_body ∷ held)
hold closes_body (a_body ∷ held) = some held
hold closes_idle held = some held
hold closes_transport (a_transport ∷ held) = some held
hold closes_connection (a_connection ∷ held) = some held
hold _ _ = none

pub hold_all : List Action → List Resource → Option (List Resource)
hold_all [] held = some held
hold_all (action ∷ actions) held = hold action held >>= hold_all actions

hold_all-append :
    (xs ys : List Action) (held held' : List Resource)
    → hold_all xs held ≡ some held'
    → hold_all (xs ++ ys) held ≡ hold_all ys held'
unfolding hold_all
hold_all-append [] ys held held' e = ap (λ (o : Option (List Resource)). o >>= hold_all ys) e
hold_all-append (x ∷ xs) ys held held' e = elim (Option-cases (hold x held)) [
  | inl n ↦ cc (rw n at e)
  | inr (next_held, n) ↦ rw n (hold_all-append xs ys next_held held' (rw n at e))
]

-- The actions leave open what was open.
abbrev Keeps : List Resource → List Action → Type 0
Keeps held actions = hold_all actions held ≡ some held

Keeps-append :
    (held : List Resource) (xs ys : List Action)
    → Keeps held xs
    → Keeps held ys
    → Keeps held (xs ++ ys)
Keeps-append held xs ys a b = hold_all-append xs ys held held a ∙ b

module _ (t : Transport) (scheme : Str) (held : List Resource)
    (ready : hold (requests t scheme) held ≡ some held) where
  exchange-Keeps : (o : Option ℕ) → Keeps held (exchange t scheme o)
  unfolding hold_all hold
  exchange-Keeps none = rw ready refl
  exchange-Keeps (some x) = rw ready refl

  exchanges-Keeps :
      (flags : ℕ) (a : Attempt) (o : Option ℕ) → Keeps held (exchanges flags a t scheme o)
  unfolding hold_all
  exchanges-Keeps flags a none = exchange-Keeps none
  exchanges-Keeps flags a (some x) =
      Keeps-append held (exchange t scheme (some x)) _ (exchange-Keeps (some x)) (
        if-split (Keeps held) (has_flag flags unified_delay) (λ _. exchange-Keeps a.answered_again)
          (λ _. refl))

module _ (flags : ℕ) (a : Attempt) (u : Url) where
  with_transport-Keeps :
      (r : Result Transport) → Keeps (a_connection ∷ []) (with_transport flags a u r).1
  unfolding hold_all hold
  with_transport-Keeps (err e) = refl
  with_transport-Keeps (ok over_tcp) =
      Keeps-append (a_connection ∷ []) (exchanges flags a over_tcp (scheme_of u) a.answered)
        (closes_idle ∷ [])
        (exchanges-Keeps over_tcp (scheme_of u) (a_connection ∷ []) refl flags a a.answered) refl
  with_transport-Keeps (ok over_quic) =
      let held : List Resource = a_transport ∷ (a_connection ∷ []) in
      hold_all-append (exchanges flags a over_quic (scheme_of u) a.answered)
        (closes_idle ∷ (closes_transport ∷ [])) held held
        (exchanges-Keeps over_quic (scheme_of u) held refl flags a a.answered)

  connected-Keeps : (with_quic : Bool) → Keeps (a_connection ∷ []) (connected with_quic flags a u).1
  unfolding hold_all
  connected-Keeps with_quic =
      if-split (λ (r : Result ℕ × List Action). Keeps (a_connection ∷ []) r.1) (not a.request_made)
        (λ _. refl) (λ _. with_transport-Keeps _)

measure_url-Keeps :
    (s : Setting) (flags : ℕ) (a : Attempt) (o : Option Url) → Keeps [] (measure_url s flags a o).1
unfolding hold_all hold
measure_url-Keeps s flags a none = refl
measure_url-Keeps s flags a (some u) =
    let P : Result ℕ × List Action → Type 0 = λ r. Keeps [] r.1 in
    if-split P (is_http3 u && not s.core_quic) (λ _. refl)
      (λ _.
        if-split P (not (a.accepts (network_of u) u.hostname (port_of u))) (λ _. refl)
          (λ _.
            hold_all-append (connected s.with_quic flags a u).1 (closes_connection ∷ [])
              (a_connection ∷ []) (a_connection ∷ []) (connected-Keeps flags a u s.with_quic)))

module _ (s : Setting) (link : Str) (flags : ℕ) where
  measure_once-Keeps :
      (c : Context) (meets : Context → Attempt) → Keeps [] (measure_once s c link flags meets).1
  unfolding measure_once
  measure_once-Keeps c meets =
      measure_url-Keeps s flags (meets c) (s.parse_url (link_or_default link))

  after_warmup-Keeps :
      (w m : Result ℕ × List Action) → Keeps [] w.1 → Keeps [] m.1 → Keeps [] (after_warmup s w m).1
  after_warmup-Keeps (err e, actions) m a b = a
  after_warmup-Keeps (ok k, actions) m a b = Keeps-append [] actions m.1 a b

-- Whatever fails, a test calls Close once for every connection, transport and response body that it has
-- opened, in the opposite order, and sends a request only while its connection or transport is open.
pub run_with_timeout-Keeps :
    (s : Setting) (has_request is_multiplexed : Bool) (link : Str) (timeout_ms : ℤ) (flags : ℕ)
    (attempts : Attempts)
    → hold_all (run_with_timeout s has_request is_multiplexed link timeout_ms flags attempts).1 []
      ≡ some []
unfolding run_with_timeout measure
run_with_timeout-Keeps s has_request is_multiplexed link timeout_ms flags attempts =
    let c = context_of s has_request timeout_ms attempts in
    let kept = keep_session s.with_quic c in
    let measured = measure_once-Keeps s link flags c attempts.measured in
    if-split (λ (r : Result ℕ × List Action). Keeps [] r.1) is_multiplexed
      (λ _.
        after_warmup-Keeps s link flags (measure_once s kept link flags attempts.warmup)
          (measure_once s c link flags attempts.measured)
          (measure_once-Keeps s link flags kept attempts.warmup) measured)
      (λ _. measured)
