-- ===== src/UrlTest/Measurement/Outcome.antt =====
-- What a measurement comes to: a latency, or an error with its cause.
use android_lib_box_lite.Common.{
  ℕ, ◌-◌, ◌*◌, ◌≤◌, Bool, true, false, not, ◌&&◌, Option, none, some, List, Str, ◌≡◌, ◌⊎◌, inl, inr,
  refl, arith, if-split, if◌then◌else◌,
}
use android_lib_box_lite.UrlTest.Network.{
  err, Error, bad_url, quic_not_included, dial_failed, bad_request, no_response, Url, Result, ok,
  millisecond, Action, Attempt, Setting, Context, new_http3_transport, over_tcp,
}
use android_lib_box_lite.UrlTest.Measurement.{
  max_uint16, is_http3, network_of, port_of, responded, with_transport, measure_url, measure_once,
  link_or_default,
}
use android_lib_box_lite.UrlTest.Measurement.Latency.{
  IsTimely, last_response, IsCounted, measure_once_bounds,
}

-- Why a measurement has no latency.
abbrev pub IsCause : Setting → Str → Attempt → Error → Type 0
IsCause s link a bad_url = s.parse_url (link_or_default link) ≡ none
IsCause s link a quic_not_included =
    (u : Url) × (s.parse_url (link_or_default link) ≡ some u)
    × (is_http3 u ≡ true)
    × ((s.core_quic ≡ false) ⊎ (s.with_quic ≡ false))
IsCause s link a dial_failed =
    (u : Url) × (s.parse_url (link_or_default link) ≡ some u)
    × (a.accepts (network_of u) u.hostname (port_of u) ≡ false)
IsCause s link a bad_request = a.request_made ≡ false
IsCause s link a no_response = a.answered ≡ none

abbrev Explained : Setting → Str → Attempt → Result ℕ → Type 0
Explained s link a (ok l) = Unit
Explained s link a (err e) = IsCause s link a e

responded-Explained :
    (s : Setting) (link : Str) (flags : ℕ) (a : Attempt) (t : Option ℕ)
    → a.answered ≡ t
    → Explained s link a (responded flags a t)
responded-Explained s link flags a none e = e
responded-Explained s link flags a (some t) e = tt

module _ (s : Setting) (link : Str) (flags : ℕ) (a : Attempt) (u : Url)
    (p : s.parse_url (link_or_default link) ≡ some u) where
  with_transport-Explained :
      (http3 with_quic : Bool)
      → is_http3 u ≡ http3
      → s.with_quic ≡ with_quic
      → Explained s link a
          (with_transport flags a u
            (if http3 then new_http3_transport with_quic else ok over_tcp)).0
  with_transport-Explained true true h q = responded-Explained s link flags a a.answered refl
  with_transport-Explained true false h q = (u, p, h, inr q)
  with_transport-Explained false with_quic h q = responded-Explained s link flags a a.answered refl

  measure_url-Explained : Explained s link a (measure_url s flags a (some u)).0
  measure_url-Explained =
      let P : Result ℕ × List Action → Type 0 = λ r. Explained s link a r.0 in
      if-split P (is_http3 u && not s.core_quic) (λ off. (u, p, ground arith, inl (ground arith)))
        (λ _.
          if-split P (not (a.accepts (network_of u) u.hostname (port_of u)))
            (λ off. (u, p, ground arith))
            (λ _.
              if-split P (not a.request_made) (λ off. ground arith)
                (λ _. with_transport-Explained (is_http3 u) s.with_quic refl refl)))

-- What a measurement comes to.
abbrev pub Measured : Setting → Str → ℕ → Attempt → Result ℕ → Type 0
Measured s link flags a (err e) = IsCause s link a e
Measured s link flags a (ok l) =
    (t : ℕ) × (a.answered ≡ some t)
    × (l ≤ max_uint16)
    × (l * millisecond ≤ last_response t a.answered_again - a.started)
    × IsCounted flags a t a.answered_again l

-- On a clock that does not go back a measurement gives a latency or fails only for the cause that its
-- error names: the link, QUIC that is not included, the dial, the request, or no response.
-- A latency fits a uint16 and is not longer than the time from the start to the last response. With unified
-- delay and a second response it is the time of the second request, and if not the time to the first
-- response, from the end of the dial where the handshake is ignored and still to come, and else from the
-- start; cut to the largest uint16.
pub measure_once-Measured :
    (s : Setting) (c : Context) (link : Str) (flags : ℕ) (meets : Context → Attempt)
    → IsTimely (meets c)
    → Measured s link flags (meets c) (measure_once s c link flags meets).0
unfolding measure_once
measure_once-Measured s c link flags meets timely =
    measured (measure_once s c link flags meets).0 refl
      (explained (s.parse_url (link_or_default link)) refl)
  where
    explained :
        (o : Option Url)
        → s.parse_url (link_or_default link) ≡ o
        → Explained s link (meets c) (measure_url s flags (meets c) o).0
    explained none p = p
    explained (some u) p = measure_url-Explained s link flags (meets c) u p

    measured :
        (r : Result ℕ)
        → (measure_once s c link flags meets).0 ≡ r
        → Explained s link (meets c) r
        → Measured s link flags (meets c) r
    measured (err e) same cause = cause
    measured (ok l) same cause = measure_once_bounds s c link flags meets timely same
