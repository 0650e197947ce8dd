-- ===== src/UrlTest/Measurement/Latency.antt =====
-- What a latency is worth.
use android_lib_box_lite.Common.{
  ℕ, ◌-◌, ◌*◌, ◌/◌, ◌≤◌, min, true, false, not, ◌&&◌, Option, none, some, List, Str, ◌≡◌, ◌⊎◌, refl,
  subst, sym, ap, ◌∙◌, arith, Bool-cases, Option-cases, inl, inr, if-split,
}
use android_lib_box_lite.UrlTest.Wire.{unified_delay, ignore_handshake_time}
use android_lib_box_lite.UrlTest.Network.{
  Url, Result, ok, err, millisecond, Action, Attempt, Setting, Context, Transport, over_tcp,
  over_quic,
}
use android_lib_box_lite.UrlTest.Measurement.{
  max_uint16, has_flag, is_http3, network_of, port_of, counted_from, second_or, elapsed, responded,
  with_transport, measure_url, measure_once, link_or_default,
}

-- The clock does not go back.
pub record IsTimely (a : Attempt) : Type 0 where
  pub dial : a.started ≤ a.dialled
  pub first : (t : ℕ) → a.answered ≡ some t → (a.dialled ≤ t) × (t ≤ a.asked_again)
  pub second : (t : ℕ) → a.answered_again ≡ some t → a.asked_again ≤ t

-- The last response, from the first on.
abbrev pub last_response : ℕ → Option ℕ → ℕ
last_response first none = first
last_response first (some second) = second

-- A latency is that of a response.
abbrev IsAnswer : ℕ → Attempt → Result ℕ × List Action → Type 0
IsAnswer flags a r = (l : ℕ) → r.0 ≡ ok l → responded flags a a.answered ≡ ok l

with_transport-IsAnswer :
    (flags : ℕ) (a : Attempt) (u : Url) (r : Result Transport)
    → IsAnswer flags a (with_transport flags a u r)
with_transport-IsAnswer flags a u (err e) l h = cc
with_transport-IsAnswer flags a u (ok over_tcp) l h = h
with_transport-IsAnswer flags a u (ok over_quic) l h = h

measure_url-IsAnswer :
    (s : Setting) (flags : ℕ) (a : Attempt) (o : Option Url)
    → IsAnswer flags a (measure_url s flags a o)
measure_url-IsAnswer s flags a none = λ l e. cc
measure_url-IsAnswer s flags a (some u) =
    let P = IsAnswer flags a in
    if-split P (is_http3 u && not s.core_quic) (λ _ l x. cc)
      (λ _.
        if-split P (not (a.accepts (network_of u) u.hostname (port_of u))) (λ _ l x. cc)
          (λ _.
            if-split P (not a.request_made) (λ _ l x. cc)
              (λ _. with_transport-IsAnswer flags a u _)))

counted_from-le :
    (flags : ℕ) (a : Attempt)
    → a.started ≤ a.dialled
    → (a.started ≤ counted_from flags a) × (counted_from flags a ≤ a.dialled)
unfolding counted_from
counted_from-le flags a h =
    if-split (λ (c : ℕ). (a.started ≤ c) × (c ≤ a.dialled))
      (has_flag flags ignore_handshake_time && a.needs_handshake) (λ _. omega arith)
      (λ _. omega arith)

second_or-le :
    (again : Option ℕ) (c t asked s : ℕ)
    → s ≤ c
    → t ≤ asked
    → s ≤ t
    → ((x : ℕ) → again ≡ some x → asked ≤ x)
    → second_or (t - c) asked again ≤ last_response t again - s
second_or-le none c t asked s h k m later = omega arith
second_or-le (some x) c t asked s h k m later = omega (arith, later x refl)

first-le :
    (again : Option ℕ) (c t asked s : ℕ)
    → s ≤ c
    → t ≤ asked
    → ((x : ℕ) → again ≡ some x → asked ≤ x)
    → t - c ≤ last_response t again - s
first-le none c t asked s h k later = omega arith
first-le (some x) c t asked s h k later = omega (arith, later x refl)

elapsed-le :
    (flags : ℕ) (a : Attempt) (t : ℕ)
    → IsTimely a
    → a.answered ≡ some t
    → elapsed flags a t ≤ last_response t a.answered_again - a.started
unfolding elapsed
elapsed-le flags a t timely n =
    let (after, before) = timely.first t n in
    let (low, high) = counted_from-le flags a timely.dial in
    if-split (λ (e : ℕ). e ≤ last_response t a.answered_again - a.started)
      (has_flag flags unified_delay)
      (λ _.
        second_or-le a.answered_again (counted_from flags a) t a.asked_again a.started low before
          (omega (arith, timely.dial)) timely.second)
      (λ _.
        first-le a.answered_again (counted_from flags a) t a.asked_again a.started low before
          timely.second)

elapsed_unified :
    (flags : ℕ) (a : Attempt) (t s : ℕ)
    → has_flag flags unified_delay ≡ true
    → a.answered_again ≡ some s
    → elapsed flags a t ≡ s - a.asked_again
unfolding elapsed
elapsed_unified flags a t s f again =
    if-split (λ (e : ℕ). e ≡ s - a.asked_again) (has_flag flags unified_delay)
      (λ _. ap (second_or (t - counted_from flags a) a.asked_again) again) (λ g. cc (f, g))

-- The milliseconds from `start` to `t`, cut to the largest uint16.
abbrev pub millis : ℕ → ℕ → ℕ
millis start t = min ((t - start) / millisecond) max_uint16

-- The time to the first response: from the end of the dial where the handshake is ignored and is still to
-- come, and from the start if not.
abbrev pub IsFirst : ℕ → Attempt → ℕ → ℕ → Type 0
IsFirst flags a t l =
    ((has_flag flags ignore_handshake_time ≡ true)
      × (a.needs_handshake ≡ true)
      × (l ≡ millis a.dialled t))
    ⊎ (((has_flag flags ignore_handshake_time ≡ false) ⊎ (a.needs_handshake ≡ false))
        × (l ≡ millis a.started t))

-- With unified delay and a second response, a latency is the time of the second request, and without
-- either it is the time to the first response.
abbrev pub IsCounted : ℕ → Attempt → ℕ → Option ℕ → ℕ → Type 0
IsCounted flags a t none l = IsFirst flags a t l
IsCounted flags a t (some s) l =
    ((has_flag flags unified_delay ≡ true) × (l ≡ millis a.asked_again s))
    ⊎ ((has_flag flags unified_delay ≡ false) × IsFirst flags a t l)

millis-IsFirst :
    (flags : ℕ) (a : Attempt) (t : ℕ) → IsFirst flags a t (millis (counted_from flags a) t)
unfolding counted_from
millis-IsFirst flags a t =
    if-split (λ (c : ℕ). IsFirst flags a t (millis c t))
      (has_flag flags ignore_handshake_time && a.needs_handshake)
      (λ on. inl (ground arith, ground arith, refl))
      (λ off.
        inr (
          elim (Bool-cases a.needs_handshake) [ inl n ↦ inl (ground arith) | inr n ↦ inr n ],
          refl,
        ))

elapsed_first :
    (flags : ℕ) (a : Attempt) (t : ℕ)
    → (has_flag flags unified_delay ≡ false) ⊎ (a.answered_again ≡ none)
    → elapsed flags a t ≡ t - counted_from flags a
unfolding elapsed
elapsed_first flags a t h =
    if-split (λ (e : ℕ). e ≡ t - counted_from flags a) (has_flag flags unified_delay)
      (λ f. elim h [
        | inl g ↦ cc (f, g)
        | inr again ↦ ap (second_or (t - counted_from flags a) a.asked_again) again
      ])
      (λ _. refl)

elapsed-IsFirst :
    (flags : ℕ) (a : Attempt) (t : ℕ)
    → (has_flag flags unified_delay ≡ false) ⊎ (a.answered_again ≡ none)
    → IsFirst flags a t (min (elapsed flags a t / millisecond) max_uint16)
elapsed-IsFirst flags a t h =
    subst (λ (x : ℕ). IsFirst flags a t (min (x / millisecond) max_uint16))
      (sym (elapsed_first flags a t h)) (millis-IsFirst flags a t)

elapsed-IsCounted :
    (flags : ℕ) (a : Attempt) (t : ℕ) (again : Option ℕ)
    → a.answered_again ≡ again
    → IsCounted flags a t again (min (elapsed flags a t / millisecond) max_uint16)
elapsed-IsCounted flags a t none e = elapsed-IsFirst flags a t (inr e)
elapsed-IsCounted flags a t (some s) e = elim (Bool-cases (has_flag flags unified_delay)) [
  | inl f ↦
      inl (f, ap (λ (x : ℕ). min (x / millisecond) max_uint16) (elapsed_unified flags a t s f e))
  | inr f ↦ inr (f, elapsed-IsFirst flags a t (inl f))
]

-- What a latency is worth, where there is one.
pub measure_once_bounds :
    (s : Setting) (c : Context) (link : Str) (flags : ℕ) (meets : Context → Attempt) {l : ℕ}
    → IsTimely (meets c)
    → (measure_once s c link flags meets).0 ≡ ok l
    → let a = meets c in
      (t : ℕ) × (a.answered ≡ some t)
      × (l ≤ max_uint16)
      × (l * millisecond ≤ last_response t a.answered_again - a.started)
      × IsCounted flags a t a.answered_again l
unfolding measure_once
measure_once_bounds s c link flags meets {l} timely e =
    let a = meets c in
    let answer = measure_url-IsAnswer s flags a (s.parse_url (link_or_default link)) l e in
    elim (Option-cases a.answered) [
      | inl n ↦ cc (sym (ap (responded flags a) n) ∙ answer)
      | inr (t, n) ↦
          let same : min (elapsed flags a t / millisecond) max_uint16 ≡ l =
            cc (sym (ap (responded flags a) n) ∙ answer) in
          (
            t,
            n,
            omega arith,
            omega (arith, elapsed-le flags a t timely n),
            subst (IsCounted flags a t a.answered_again) same
                (elapsed-IsCounted flags a t a.answered_again refl),
          )
    ]
