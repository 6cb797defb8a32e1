-- ===== src/Core/Config.antt =====
-- crates/core/src/config.rs: the configuration file after parsing, its validation, and what rclone is
-- started with. Reading and writing the file, and the TOML syntax, are not modelled.
pub mod Valid
pub mod Args
use rclone_vfsmount_tray.Prelude.{
  ℕ, zero, suc, ◌+◌, ◌-◌, ◌*◌, ◌/◌, ◌%◌, ◌^◌, ◌≤◌, ◌<◌, min, max, ◌≡◌, refl, sym, ap, ◌∙◌, subst,
  ◌≢◌, ◌↔◌, ◌⊎◌, inl, inr, Bool, true, false, not, ◌&&◌, ◌||◌, Option, none, some, List, [], ◌∷◌,
  ◌++◌, map, arith, dec_lt, ℕ_discrete, ltb, leb, ◌==◌, if◌then◌else◌, ==_iff, Bool-cases,
  Option-cases, is_some, unwrap_or, is_yes, length, any, all, find, filter, All, length-append,
  length-filter-le, find-eq_some, length-map, filter_map, Text, lit, text_eq, text_eq-eq,
  text_eq_refl, text_eq_iff, has_char, strip_prefix, strip_prefix-append, strip_prefix-eq_some, ℤ,
  pos, negsuc, try_u64, u64_max, add64, sat_add, add64_exact, sat_add-le_max, Map, get, insert,
  remove, contains_key, values, keys, get-insert, get-remove, text_lt, strip_suffix, trim_start,
  all_chars, starts_with,
}
use rclone_vfsmount_tray.Core.Mountinfo.{path_eq}
use rclone_vfsmount_tray.Core.Models.{CacheMode}
use rclone_vfsmount_tray.Core.Units.{Syntax, size_suffix_ok, duration_ok}

pub record Poll : Type 0 where
  pub active_secs : ℕ
  pub idle_secs : ℕ

pub record Mount : Type 0 where
  pub name : Text
  pub remote : Text
  pub path : Text
  pub mount_point : Text
  pub cache_mode : CacheMode
  pub cache_max_size : Option Text
  pub cache_max_age : Option Text
  pub auto_mount : Bool
  pub read_only : Bool
  pub allow_other : Bool
  pub uid : Option ℕ
  pub gid : Option ℕ
  pub umask : Option Text
  pub extra_args : List Text

pub record Config : Type 0 where
  pub rclone_path : Option Text
  pub poll : Poll
  pub mounts : List Mount

abbrev pub unit_prefix : Text
unit_prefix = lit "rvt-mount-"

abbrev pub max_poll_secs : ℕ
max_poll_secs = 86400

-- `char::is_ascii_alphanumeric`.
abbrev pub is_ascii_alphanumeric : ℕ → Bool
is_ascii_alphanumeric c =
    (leb b'0' c && leb c b'9') || (leb b'a' c && leb c b'z') || (leb b'A' c && leb c b'Z')

-- `Mount::fs_spec`.
unfoldable pub fs_spec : Mount → Text
unfolding trim_start
fs_spec m = elim m.path [
  | [] ↦ m.remote ++ b':' ∷ []
  | c ∷ s ↦ m.remote ++ (b':' ∷ trim_start b'/' (c ∷ s))
]

abbrev pub slug_char : ℕ → ℕ
slug_char c = if is_ascii_alphanumeric c || (c == b'_') || (c == b'.') then c else b'-'

-- `Mount::unit_name`.
unfoldable pub unit_name : Mount → Text
unit_name m = unit_prefix ++ (map slug_char m.name ++ lit ".service")

-- `Config::mount`.
unfoldable pub mount : Config → Text → Option Mount
mount c name = find (λ m. text_eq m.name name) c.mounts

-- `trim_start_matches("0o")`.
unfoldable pub trim_0o : Text → Text
trim_0o [] = []
trim_0o (c ∷ []) = c ∷ []
trim_0o (c ∷ d ∷ s) = if (c == b'0') && (d == b'o') then trim_0o s else c ∷ d ∷ s

abbrev pub u128_max : ℕ
u128_max = 340282366920938463463374607431768211455

-- A value that passes `u128::MAX` ends the reading, whatever stands behind the digit.
unfoldable pub octal_digits : ℕ → Text → Option ℕ
octal_digits acc [] = some acc
octal_digits acc (c ∷ s) =
    let next = acc * 8 + (c - 48) in
    let rest = octal_digits next s in
    if leb b'0' c && leb c b'7' then (if ltb u128_max next then some next else rest) else none

unfoldable pub drop_plus : Text → Text
drop_plus [] = []
drop_plus (c ∷ s) = if c == b'+' then s else c ∷ s

-- `u128::from_str_radix(_, 8)`: a `+` may stand first, and no digits at all are an error.
unfoldable pub from_octal : Text → Option ℕ
unfolding octal_digits
from_octal [] = none
from_octal (c ∷ s) = octal_digits 0 (c ∷ s)

-- An overflow reads as the greatest value.
unfoldable pub umask_bits : Text → Option ℕ
unfolding trim_0o from_octal drop_plus
umask_bits s = elim (from_octal (drop_plus (trim_0o s))) [
  | none ↦ none
  | some n ↦ some (if ltb u128_max n then u128_max else n)
]

-- `MAX_UMASK`, 0o17777777777.
abbrev pub max_umask : ℕ
max_umask = 2147483647

pub data ConfigError : Type 0 where
  rclone_path_relative : Text → ConfigError
  poll_out_of_range : ℕ → ConfigError
  empty_name : ConfigError
  reserved_name : Text → ConfigError
  bad_name : Text → ConfigError
  duplicate_name : Text → ConfigError
  rc_flag : Text → Text → ConfigError
  remote_with_colon : Text → ConfigError
  bad_remote : Text → Text → ConfigError
  mount_point_relative : Text → Text → ConfigError
  shared_mount_point : Text → Text → ConfigError
  umask_not_octal : Text → Text → ConfigError
  umask_too_large : Text → Text → ConfigError
  bad_cache_max_size : Text → Text → ConfigError
  bad_cache_max_age : Text → Text → ConfigError

-- A character of a mount's name.
abbrev pub name_char : ℕ → Bool
name_char c = is_ascii_alphanumeric c || (c == b'-') || (c == b'_') || (c == b'.')

-- What `strip_prefix("--rc")` must leave for a flag to be refused.
abbrev rc_rest : Text → Bool
rc_rest [] = true
rc_rest (c ∷ s) = (c == b'-') || (c == b'=')

unfoldable pub is_rc_flag : Text → Bool
unfolding strip_prefix
is_rc_flag a = elim (strip_prefix (lit "--rc") a) [ none ↦ false | some r ↦ rc_rest r ]

-- `Path::is_absolute`, on Unix.
abbrev pub is_absolute : Text → Bool
is_absolute [] = false
is_absolute (c ∷ s) = c == b'/'

abbrev remote_char : Syntax → ℕ → Bool
remote_char x c =
    x.is_alphanumeric c
    || (c == b'_')
    || (c == b'.')
    || (c == b'+')
    || (c == b'@')
    || (c == b'-')
    || (c == b' ')

abbrev starts_badly : Text → Bool
starts_badly [] = true
starts_badly (c ∷ s) = (c == b'-') || (c == b' ')

ends_with_space : Text → Bool
ends_with_space [] = false
ends_with_space (c ∷ []) = c == b' '
ends_with_space (c ∷ d ∷ s) = ends_with_space (d ∷ s)

unfoldable pub usable_remote : Syntax → Text → Bool
unfolding ends_with_space
usable_remote x r = not (starts_badly r || not (all_chars (remote_char x) r) || ends_with_space r)

unfoldable pub check_umask : Mount → Option ConfigError
unfolding umask_bits
check_umask m = elim m.umask [
  | none ↦ none
  | some u ↦ elim (umask_bits u) [
    | none ↦ some (umask_not_octal m.name u)
    | some bits ↦ if ltb max_umask bits then some (umask_too_large m.name u) else none
  ]
]

unfoldable pub check_sizes : Syntax → Mount → Option ConfigError
check_sizes x m =
    let age : Option ConfigError = elim m.cache_max_age [
      | none ↦ none
      | some v ↦ if duration_ok x v then none else some (bad_cache_max_age m.name v)
    ] in
    elim m.cache_max_size [
      | none ↦ age
      | some v ↦ if size_suffix_ok x v then age else some (bad_cache_max_size m.name v)
    ]

-- The first error of two checks made in turn.
abbrev pub first_error : Option ConfigError → Option ConfigError → Option ConfigError
first_error none e = e
first_error (some e) f = some e

abbrev pub refuse_if : Bool → ConfigError → Option ConfigError
refuse_if true e = some e
refuse_if false e = none

-- The body of the loop of `validate`, on the names and the points of the mounts before it.
unfoldable pub check_mount : Syntax → List Text → List Text → Mount → Option ConfigError
unfolding check_umask check_sizes usable_remote path_eq
check_mount x names points m = first_error (refuse_if (text_eq m.name []) empty_name) (
    first_error
      (refuse_if (text_eq m.name (lit ".") || text_eq m.name (lit "..")) (reserved_name m.name))
      (first_error (refuse_if (not (all_chars name_char m.name)) (bad_name m.name)) (
        first_error (refuse_if (any (text_eq m.name) names) (duplicate_name m.name)) (
          first_error
            (elim (find is_rc_flag m.extra_args) [ none ↦ none | some a ↦ some (rc_flag m.name a) ])
            (first_error (refuse_if (has_char b':' m.remote) (remote_with_colon m.name)) (
              first_error (refuse_if (not (usable_remote x m.remote)) (bad_remote m.name m.remote))
                (first_error
                  (refuse_if (not (is_absolute m.mount_point))
                    (mount_point_relative m.name m.mount_point))
                  (first_error
                    (refuse_if (any (path_eq m.mount_point) points)
                      (shared_mount_point m.name m.mount_point))
                    (first_error (check_umask m) (check_sizes x m))))))))))

unfoldable pub check_mounts : Syntax → List Text → List Text → List Mount → Option ConfigError
check_mounts x names points [] = none
check_mounts x names points (m ∷ ms) =
    first_error (check_mount x names points m)
      (check_mounts x (m.name ∷ names) (m.mount_point ∷ points) ms)

unfoldable pub check_secs : ℕ → Option ConfigError
check_secs secs = refuse_if ((secs == 0) || ltb max_poll_secs secs) (poll_out_of_range secs)

-- `Config::validate`; `none` is `Ok`.
unfoldable pub validate : Syntax → Config → Option ConfigError
unfolding check_mounts check_mount check_secs
validate x c =
    first_error
      (elim c.rclone_path [
        | none ↦ none
        | some p ↦ refuse_if (not (is_absolute p)) (rclone_path_relative p)
      ])
      (first_error (check_secs c.poll.active_secs)
        (first_error (check_secs c.poll.idle_secs) (check_mounts x [] [] c.mounts)))
