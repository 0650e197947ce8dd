-- ===== src/UrlTest/Toy.antt =====
-- What the examples of several modules use. A wire format of one byte for each number and length has the
-- laws that are asked for on the numbers that a byte list can hold. A manager has an outbound and two
-- groups that contain each other.
use android_lib_box_lite.Common.{
  ℕ, suc, ◌≤◌, ◌<◌, true, false, Option, none, some, [], ◌∷◌, ◌*◌, ◌++◌, Str, bytes, str_eq, has,
  length, take, ◌≡◌, refl, ap, arith, inl, inr, if◌then◌else◌,
}
use android_lib_box_lite.UrlTest.Wire.{Protowire, IsProtowire}
use android_lib_box_lite.UrlTest.Network.{Url, Attempt, Attempts, Setting, millisecond}
use android_lib_box_lite.UrlTest.Groups
use android_lib_box_lite.UrlTest.Groups.{Outbound, Manager, IsManager, url_test, selector}

abbrev pub read_tag : Str → Option (ℕ × ℕ × ℕ)
read_tag [] = none
read_tag (number ∷ []) = none
read_tag (number ∷ (type ∷ rest)) = some (number, type, 2)

abbrev pub read_number : Str → Option (ℕ × ℕ)
read_number [] = none
read_number (v ∷ rest) = some (v, 1)

abbrev pub read_string : Str → Option (Str × ℕ)
read_string [] = none
read_string (n ∷ rest) = some (take n rest, suc n)

abbrev pub plain : Protowire
plain = record {
  append_tag = λ b number type. b ++ (number ∷ (type ∷ []));
  append_varint = λ b v. b ++ (v ∷ []);
  append_string = λ b s. b ++ (length s ∷ s);
  consume_tag = read_tag;
  consume_varint = read_number;
  consume_string = read_string;
  consume_field_value = λ number type b. none;
}

read_tag-length :
    (b : Str) (number type n : ℕ) → read_tag b ≡ some (number, type, n) → (0 < n) × (n ≤ length b)
read_tag-length [] number type n e = cc
read_tag-length (x ∷ []) number type n e = cc
read_tag-length (x ∷ (y ∷ rest)) number type n e = (grind arith, grind arith)

take_whole : (s rest : Str) → take (length s) (s ++ rest) ≡ s
take_whole [] rest = refl
take_whole (c ∷ s) rest = ap (λ (t : Str). c ∷ t) (take_whole s rest)

pub plain-IsProtowire : IsProtowire plain
plain-IsProtowire = record {
  tag_appended = λ b number type. refl;
  varint_appended = λ b v. refl;
  string_appended = λ b s. refl;
  tag_read = λ number type rest a b c. refl;
  varint_read = λ v rest h. refl;
  string_read = λ s rest. ap (λ (t : Str). some (t, suc (length s))) (take_whole s rest);
  tag_length = read_tag-length;
}

abbrev pub direct : Outbound
direct = record { tag = bytes "d"; kind = Groups.plain }

abbrev pub auto : Outbound
auto = record { tag = bytes "u"; kind = url_test (bytes "s" ∷ []) }

abbrev pub select : Outbound
select = record { tag = bytes "s"; kind = selector (bytes "u" ∷ (bytes "d" ∷ [])) }

abbrev pub find_outbound : Str → Option Outbound
find_outbound tag =
    if str_eq (bytes "d") tag
    then some direct
    else if str_eq (bytes "u") tag
    then some auto
    else if str_eq (bytes "s") tag
    then some select
    else none

abbrev pub manager : Manager
manager = record {
  outbounds = direct ∷ (auto ∷ (select ∷ []));
  find = find_outbound;
  default = direct;
}

found_listed :
    (tag : Str) (o : Outbound)
    → find_outbound tag ≡ some o
    → has (bytes "d" ∷ (bytes "u" ∷ (bytes "s" ∷ []))) tag ≡ true
unfolding has
found_listed tag o f = ground arith

pub manager-IsManager : IsManager manager
unfolding str_eq
manager-IsManager = record {
  listed_found = λ o listed. elim listed [
    | inl e ↦ rw e refl
    | inr (inl e) ↦ rw e refl
    | inr (inr (inl e)) ↦ rw e refl
    | inr (inr (inr none_left)) ↦ absurd none_left
  ];
  found_listed = found_listed;
}

-- Stands for url.Parse.
abbrev pub example_url : Str → Option Url
example_url link = some (record { scheme = bytes "https"; hostname = bytes "a"; port = [] })

-- Dials in 100 ms, then meets answers after 50 ms and 25 ms.
abbrev pub example_attempt : Attempt
example_attempt = record {
  accepts = λ network host port. true;
  started = 0;
  dialled = 100 * millisecond;
  needs_handshake = false;
  request_made = true;
  answered = some (150 * millisecond);
  asked_again = 150 * millisecond;
  answered_again = some (175 * millisecond);
}

abbrev pub example_attempts : Attempts
example_attempts = record {
  now = 0;
  warmup = λ c. example_attempt;
  measured = λ c. example_attempt;
}

abbrev pub example_setting : Setting
example_setting = record {
  parse_url = example_url;
  core_quic = true;
  with_quic = true;
  tcp_timeout = 5000;
}
