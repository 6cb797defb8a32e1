-- ===== src/Core/Rc.antt =====
-- crates/core/src/rc.rs: how a call to rclone's rc socket fails. A wrapped error of another
-- library is the text that it renders as.
pub mod Sockets
use rclone_vfsmount_tray.Prelude.{
  ℕ, zero, suc, ◌+◌, ◌-◌, ◌*◌, ◌/◌, ◌%◌, ◌^◌, ◌≤◌, ◌<◌, min, max, ◌≡◌, refl, sym, ap, ◌∙◌, subst,
  ◌≢◌, ◌↔◌, ◌⊎◌, inl, inr, Bool, true, false, not, ◌&&◌, ◌||◌, Option, none, some, List, [], ◌∷◌,
  ◌++◌, map, arith, dec_lt, ℕ_discrete, ltb, leb, ◌==◌, if◌then◌else◌, ==_iff, Bool-cases,
  Option-cases, is_some, unwrap_or, is_yes, length, any, all, find, filter, All, length-append,
  length-filter-le, find-eq_some, length-map, filter_map, Text, lit, text_eq, text_eq-eq,
  text_eq_refl, text_eq_iff, has_char, strip_prefix, strip_prefix-append, strip_prefix-eq_some, ℤ,
  pos, negsuc, try_u64, u64_max, add64, sat_add, add64_exact, sat_add-le_max, Map, get, insert,
  remove, contains_key, values, keys, get-insert, get-remove, text_lt, strip_suffix, trim_start,
  all_chars, starts_with, text_eq_comm, strip_suffix-append,
}

pub data RcError : Type 0 where
  not_listening : Text → RcError
  insecure_socket : Text → Text → RcError
  connect : Text → Text → RcError
  timeout : Text → RcError
  failed : Text → ℕ → Text → RcError
  decode : Text → Text → RcError
  invalid_command : Text → Text → RcError
  response_too_large : Text → ℕ → RcError
  transport : Text → Text → RcError

-- Whether there is no usable rc here, so that the caller drops to the cache on disk.
unfoldable pub is_unreachable : RcError → Bool
is_unreachable (not_listening path) = true
is_unreachable (insecure_socket path reason) = true
is_unreachable (connect path source) = true
is_unreachable (timeout command) = true
is_unreachable (transport command source) = true
is_unreachable (failed command status body) = false
is_unreachable (decode command source) = false
is_unreachable (invalid_command command source) = false
is_unreachable (response_too_large command limit) = false

abbrev pub escape_char : ℕ → Text
escape_char c = if c == b'/' then lit "%2F" else if c == b'%' then lit "%25" else c ∷ []

unfoldable pub escape_name : Text → Text
escape_name [] = []
escape_name (c ∷ s) = escape_char c ++ escape_name s

-- `RcClient::socket_file_name`.
unfoldable pub socket_file_name : Text → Text
unfolding escape_name
socket_file_name name = escape_name name ++ lit ".sock"
