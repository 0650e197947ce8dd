-- ===== src/UrlTest/Daemon.antt =====
-- The URL test of the daemon (patches/daemon/url_test_options.go): `URLTestWithOptions`,
-- `urlTestOptionsTarget` and `handleURLTestOptions`, and its client, `CommandClient.URLTestWithOptions`
-- (patches/experimental_libbox/url_test_options.go).
pub mod Recording
pub mod Requests
mod Examples
use Prim.Native.Nat.{bit_or}
use android_lib_box_lite.Common.{
  ℕ, Bool, true, false, Option, none, some, List, [], Str, str_eq, if◌then◌else◌,
}
use android_lib_box_lite.Common.Strconv.{ℤ, pos}
use android_lib_box_lite.UrlTest.Wire.{
  Protowire, OptionsRequest, unified_delay, flags_of, append_options, options_from_request,
}
use android_lib_box_lite.UrlTest.Groups.{Outbound, Manager, update_groups}
use android_lib_box_lite.UrlTest.Network

-- The URL test history of the core, by tag: adapter.URLTestHistoryStorage.
abbrev pub History : Type 0
History = Str → Option ℕ

abbrev pub set_history : Str → Option ℕ → History → History
set_history tag delay history t = if str_eq tag t then delay else history t

pub record Instance : Type 0 where
  -- The context is not nil, and what it says of unified delay.
  pub has_context : Bool
  pub unified : Bool
  pub manager : Option Manager
  pub history : Option History

pub data Error : Type 0 where
  not_started no_context no_manager : Error
  outbound_not_found : Str → Error
  measurement_failed : Network.Error → Error
  -- status.Error(codes.Internal, …)
  internal : Network.Error → Error

-- An instance with its manager and the outbound to measure, or an error.
pub data Target : Type 0 where
  to : Instance → Manager → Outbound → Target
  refused : Error → Target

abbrev target_in : Str → Instance → Option Manager → Target
target_in tag i none = refused no_manager
target_in tag i (some m) =
    if str_eq tag []
    then to i m m.default
    else elim (m.find tag) [ none ↦ refused (outbound_not_found tag) | some o ↦ to i m o ]

-- `urlTestOptionsTarget`
pub target : Option Instance → Str → Target
target none tag = refused not_started
target (some i) tag = target_in tag i i.manager

-- What a test does: the instance afterwards, the groups that select again, and the latency or an error.
-- The groups are none if the search ran out of fuel.
pub record Tested : Type 0 where
  pub instance_after : Option Instance
  pub reselected : Option (List Str)
  pub latency : Option ℕ
  pub error : Option Error

abbrev pub rejected : Option Instance → Error → Tested
rejected s e = record { instance_after = s; reselected = some []; latency = none; error = some e }

abbrev pub delay_of : Network.Result ℕ → Option ℕ
delay_of (Network.ok l) = some l
delay_of (Network.err e) = none

abbrev pub error_of : Network.Result ℕ → Option Error
error_of (Network.ok l) = none
error_of (Network.err e) = some (measurement_failed e)

-- The end of `URLTestWithOptions`: the result is stored under `real`, or the stale entry is deleted.
abbrev recorded : Instance → Manager → Str → Network.Result ℕ → Option History → Tested
recorded i m real r none = record {
  instance_after = some i;
  reselected = some [];
  latency = delay_of r;
  error = error_of r;
}
recorded i m real r (some history) = record {
  instance_after = some (record i { history = some (set_history real (delay_of r) history) });
  reselected = update_groups (some m) real;
  latency = delay_of r;
  error = error_of r;
}

abbrev pub flags_in : Instance → ℕ → ℕ
flags_in i flags = if i.unified then bit_or flags unified_delay else flags

-- `real_tag` is group.RealTag of the core, and `run` is `urlTestRunWithTimeout` on an outbound.
module _ (real_tag : Outbound → Str) (run : Outbound → Str → ℤ → ℕ → Network.Result ℕ) where
  abbrev test_target : Option Instance → Str → ℤ → ℕ → Target → Tested
  test_target s link timeout_ms flags (refused e) = rejected s e
  test_target s link timeout_ms flags (to i m o) =
      if i.has_context
      then recorded i m (real_tag o) (run o link timeout_ms (flags_in i flags)) i.history
      else rejected s no_context

  -- `URLTestWithOptions`
  pub test_with_options : Option Instance → Str → Str → ℤ → ℕ → Tested
  test_with_options s tag link timeout_ms flags = test_target s link timeout_ms flags (target s tag)

-- A URLTestRequest of the daemon.
pub record Request : Type 0 where
  pub tag : Str
  pub unknown : Str

-- The stock handler goes on, or the request is answered. The fuel of the decoder never runs out.
pub data Handled : Type 0 where
  stock : Handled
  refuses : Error → Handled
  tests : Tested → Handled
  undecoded : Handled

-- An error that is no gRPC status is sent as one with the code Internal. The errors of the daemon are, and
-- `is_status` says it of one of the measurement, which is status.FromError of gRPC.
abbrev status_of : (Network.Error → Bool) → Option Error → Option Error
status_of is_status (some (measurement_failed e)) =
    some (if is_status e then measurement_failed e else internal e)
status_of is_status other = other

abbrev with_status : (Network.Error → Bool) → Tested → Tested
with_status is_status t = record t { error = status_of is_status t.error }

module _ (p : Protowire) (is_url_test : Outbound → Bool) (is_status : Network.Error → Bool)
    (real_tag : Outbound → Str) (run : Outbound → Str → ℤ → ℕ → Network.Result ℕ) where
  abbrev handle_target : Option Instance → Str → OptionsRequest → Target → Handled
  handle_target s tag options (refused e) = refuses e
  handle_target s tag options (to i m o) =
      if is_url_test o
      then stock
      else tests (
          with_status is_status (
            test_with_options real_tag run s tag options.link (pos options.timeout_ms)
              options.flags))

  abbrev handle_decoded : Option Instance → Str → Option (OptionsRequest × Bool) → Handled
  handle_decoded s tag none = undecoded
  handle_decoded s tag (some (options, false)) = stock
  handle_decoded s tag (some (options, true)) = handle_target s tag options (target s tag)

  -- `handleURLTestOptions`; `is_url_test` says that an outbound is a group.URLTest of the core.
  pub handle_request : Option Instance → Request → Handled
  handle_request s request = handle_decoded s request.tag (options_from_request p request.unknown)

-- The request that `CommandClient.URLTestWithOptions` sends.
pub client_request : Protowire → Str → Str → ℤ → Bool → Bool → Request
client_request p tag link timeout_ms unified ignore = record {
  tag = tag;
  unknown = append_options p link timeout_ms (flags_of unified ignore);
}
