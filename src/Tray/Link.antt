-- ===== src/Tray/Link.antt =====
-- crates/tray/src/link.rs: reaching the service, the ways that fails, and how long to wait before the
-- next try. The bus and its library are parameters: an error of the bus is the shape it came in, with
-- its D-Bus name where it has one, and its text.
pub mod Waits
use rclone_vfsmount_tray.Prelude.{
  ℕ, zero, suc, ◌+◌, ◌-◌, ◌*◌, ◌/◌, ◌%◌, ◌^◌, ◌≤◌, ◌<◌, min, max, ◌≡◌, refl, sym, ap, ◌∙◌, subst,
  ◌≢◌, ◌↔◌, ◌⊎◌, inl, inr, Bool, true, false, not, ◌&&◌, ◌||◌, Option, none, some, List, [], ◌∷◌,
  ◌++◌, map, arith, dec_lt, ℕ_discrete, ltb, leb, ◌==◌, if◌then◌else◌, ==_iff, Bool-cases,
  Option-cases, is_some, unwrap_or, is_yes, length, any, all, find, filter, All, length-append,
  length-filter-le, find-eq_some, length-map, filter_map, Text, lit, text_eq, text_eq-eq,
  text_eq_refl, text_eq_iff, has_char, strip_prefix, strip_prefix-append, strip_prefix-eq_some, ℤ,
  pos, negsuc, try_u64, u64_max, add64, sat_add, add64_exact, sat_add-le_max, Map, get, insert,
  remove, contains_key, values, keys, get-insert, get-remove, text_lt, strip_suffix, trim_start,
  all_chars, starts_with, text_eq_comm, strip_suffix-append,
}
use rclone_vfsmount_tray.Core.Ipc.{IpcError}

-- `zbus::Error`, by the variants that the code tells apart.
pub data ZbusError : Type 0 where
  method_error : (name : Text) (text : Text) → ZbusError
  fdo_error : (name : Text) (text : Text) → ZbusError
  other_error : (text : Text) → ZbusError

-- `IpcError` as a call returns it: the service's refusal, or a failure of the bus.
pub data CallError : Type 0 where
  application : IpcError → CallError
  zbus : ZbusError → CallError

pub data LinkError : Type 0 where
  no_session_bus : ZbusError → LinkError
  not_running : LinkError
  incompatible : LinkError
  too_old : (needed : ℕ) (found : ℕ) → LinkError
  refused : IpcError → LinkError
  silent : LinkError
  transport : ZbusError → LinkError

-- The sentence made from an error, as a template and its values.
pub data Sentence : Type 0 where
  no_bus_to_reach : ZbusError → Sentence
  start_it_with_hint : Sentence
  does_not_answer_interface : Sentence
  needs_version_but_provides : ℕ → ℕ → Sentence
  -- The description of a refusal, or that the service refused the request.
  described : IpcError → Sentence
  did_not_answer : Sentence
  could_not_be_reached : ZbusError → Sentence

unfoldable pub exit_code : LinkError → ℕ
exit_code (refused e) = 1
exit_code not_running = 3
exit_code incompatible = 4
exit_code (too_old needed found) = 4
exit_code (no_session_bus e) = 5
exit_code (transport e) = 5
exit_code silent = 5

unfoldable pub message : LinkError → Sentence
message (no_session_bus e) = no_bus_to_reach e
message not_running = start_it_with_hint
message incompatible = does_not_answer_interface
message (too_old needed found) = needs_version_but_provides needed found
message (refused e) = described e
message silent = did_not_answer
message (transport e) = could_not_be_reached e

pub data Wire : Type 0 where
  wire_not_running wire_incompatible wire_silent wire_transport : Wire

abbrev stopped_names : List Text
stopped_names =
    lit "org.freedesktop.DBus.Error.ServiceUnknown"
    ∷ lit "org.freedesktop.DBus.Error.NameHasNoOwner"
    ∷ []

abbrev mismatched_names : List Text
mismatched_names =
    lit "org.freedesktop.DBus.Error.UnknownInterface"
    ∷ lit "org.freedesktop.DBus.Error.UnknownObject"
    ∷ lit "org.freedesktop.DBus.Error.UnknownMethod"
    ∷ lit "org.freedesktop.DBus.Error.UnknownProperty"
    ∷ []

unfoldable pub classify_error_name : Text → Wire
classify_error_name name =
    if any (text_eq name) stopped_names
    then wire_not_running
    else if any (text_eq name) mismatched_names
    then wire_incompatible
    else if text_eq name (lit "org.freedesktop.DBus.Error.NoReply")
    then wire_silent
    else wire_transport

unfoldable pub dbus_error_name : ZbusError → Option Text
dbus_error_name (method_error name text) = some name
dbus_error_name (fdo_error name text) = some name
dbus_error_name (other_error text) = none

unfoldable pub classify : ZbusError → Wire
unfolding dbus_error_name
classify e = elim (dbus_error_name e) [
  | some name ↦ classify_error_name name
  | none ↦ wire_transport
]

unfoldable pub from_zbus : ZbusError → LinkError
from_zbus e = elim (classify e) [
  | wire_not_running ↦ not_running
  | wire_incompatible ↦ incompatible
  | wire_silent ↦ silent
  | wire_transport ↦ transport e
]

unfoldable pub from_ipc : CallError → LinkError
unfolding from_zbus
from_ipc (zbus z) = from_zbus z
from_ipc (application e) = refused e

-- Whether a client of this version may use what it found: the end of `build`.
unfoldable pub check_version : ℕ → ℕ → Option LinkError
check_version min_interface version =
    if ltb version min_interface then some (too_old min_interface version) else none

-- `Backoff`, in seconds.
pub record Backoff : Type 0 where
  pub next : ℕ

abbrev pub first : ℕ
first = 1

abbrev pub ceiling : ℕ
ceiling = 60

unfoldable pub backoff_new : Backoff
backoff_new = record { next = first }

-- The delay to wait, and the state after it.
unfoldable pub take : Backoff → ℕ × Backoff
take b = (b.next, record { next = min (b.next * 2) ceiling })

unfoldable pub reset : Backoff → Backoff
unfolding backoff_new
reset b = backoff_new
