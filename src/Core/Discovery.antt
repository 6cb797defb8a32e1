-- ===== src/Core/Discovery.antt =====
-- crates/core/src/rclone.rs: finding an rclone that can be used. The environment, the files and the
-- programs are parameters, and so is the reading of digits; nothing of them changes meanwhile.
pub mod Chosen
use rclone_vfsmount_tray.Prelude.{
  ℕ, zero, suc, ◌+◌, ◌-◌, ◌*◌, ◌/◌, ◌%◌, ◌^◌, ◌≤◌, ◌<◌, min, max, ◌≡◌, refl, sym, ap, ◌∙◌, subst,
  ◌≢◌, ◌↔◌, ◌⊎◌, inl, inr, Bool, true, false, not, ◌&&◌, ◌||◌, Option, none, some, List, [], ◌∷◌,
  ◌++◌, map, arith, dec_lt, ℕ_discrete, ltb, leb, ◌==◌, if◌then◌else◌, ==_iff, Bool-cases,
  Option-cases, is_some, unwrap_or, is_yes, length, any, all, find, filter, All, length-append,
  length-filter-le, find-eq_some, length-map, filter_map, Text, lit, text_eq, text_eq-eq,
  text_eq_refl, text_eq_iff, has_char, strip_prefix, strip_prefix-append, strip_prefix-eq_some, ℤ,
  pos, negsuc, try_u64, u64_max, add64, sat_add, add64_exact, sat_add-le_max, Map, get, insert,
  remove, contains_key, values, keys, get-insert, get-remove, text_lt, strip_suffix, trim_start,
  all_chars, starts_with, text_eq_comm, strip_suffix-append, if-holds,
}
use rclone_vfsmount_tray.Core.Mountinfo.{path_eq, lines, split}

pub record Version : Type 0 where
  pub major : ℕ
  pub minor : ℕ
  pub patch : ℕ

abbrev pub minimum_version : Version
minimum_version = record { major = 1; minor = 61; patch = 0 }

-- The derived order: by the first field that differs.
unfoldable pub version_lt : Version → Version → Bool
version_lt a b =
    if ltb a.major b.major
    then true
    else if ltb b.major a.major
    then false
    else if ltb a.minor b.minor
    then true
    else if ltb b.minor a.minor
    then false
    else ltb a.patch b.patch

-- What a program printed and how it ended.
pub record Output : Type 0 where
  pub success : Bool
  pub status : Text
  pub stdout : Text
  pub stderr : Text

pub record Environment : Type 0 where
  -- `str::split_whitespace`, and `trim`.
  pub split_whitespace : Text → List Text
  pub trim : Text → Text
  -- `u32::from_str`.
  pub parse_u32 : Text → Option ℕ
  -- The directories of `PATH`, if it is set.
  pub path_var : Option (List Text)
  pub is_absolute : Text → Bool
  pub join : Text → Text → Text
  pub is_file : Text → Bool
  -- `rclone version` at this path, or why it could not be run.
  pub run_version : Text → Output ⊎ Text

pub data RcloneError : Type 0 where
  not_found : RcloneError
  not_executable : (path : Text) (source : Text) → RcloneError
  unparsable_version : Text → RcloneError
  too_old : Version → RcloneError
  command_failed : (status : Text) (stderr : Text) → RcloneError

pub record RcloneBinary : Type 0 where
  pub path : Text
  pub version : Version

pub data Probed : Type 0 where
  usable : RcloneBinary → Probed
  unusable : RcloneError → Probed

-- `trim_start_matches('v')`.
unfoldable pub skip_v : Text → Text
skip_v [] = []
skip_v (c ∷ cs) = let rest = skip_v cs in if c == b'v' then rest else c ∷ cs

-- The part before the first `-` or `+`.
unfoldable pub release_part : Text → Text
release_part [] = []
release_part (c ∷ cs) =
    let rest = release_part cs in if (c == b'-') || (c == b'+') then [] else c ∷ rest

-- The next field, or `0`.
abbrev pub field_or_zero : List Text → Text × List Text
field_or_zero [] = (lit "0", [])
field_or_zero (f ∷ fs) = (f, fs)

unfoldable pub version_of : Option ℕ → Option ℕ → Option ℕ → Option Version
version_of (some a) (some b) (some c) = some (record { major = a; minor = b; patch = c })
version_of _ _ _ = none

unfoldable pub parse_version : Environment → Text → Option Version
unfolding skip_v release_part version_of split
parse_version m s = elim (split b'.' (release_part (skip_v (m.trim s)))) [
  | [] ↦ none
  | f ∷ fs ↦
      let (g, gs) = field_or_zero fs in
      version_of (m.parse_u32 f) (m.parse_u32 g) (m.parse_u32 (field_or_zero gs).0)
]

-- `find_map`.
unfoldable pub first_version : Environment → List Text → Option Version
unfolding parse_version
first_version m [] = none
first_version m (w ∷ ws) =
    let rest = first_version m ws in elim (parse_version m w) [ some v ↦ some v | none ↦ rest ]

unfoldable pub parse_version_output : Environment → List Text → Option Version
unfolding first_version
parse_version_output m [] = none
parse_version_output m (line ∷ rest) = first_version m (m.split_whitespace line)

abbrev pub first_line : List Text → Text
first_line [] = []
first_line (line ∷ rest) = line

-- A version that was found, or not, against the minimum.
unfoldable pub check_minimum : Text → List Text → Option Version → Probed
unfolding version_lt
check_minimum path out none = unusable (unparsable_version (first_line out))
check_minimum path out (some v) =
    if version_lt v minimum_version
    then unusable (too_old v)
    else usable (record { path = path; version = v })

unfoldable pub probe_output : Environment → Text → Output ⊎ Text → Probed
unfolding check_minimum parse_version_output lines
probe_output m path (inr why) = unusable (not_executable path why)
probe_output m path (inl out) =
    if not out.success
    then unusable (command_failed out.status (m.trim out.stderr))
    else check_minimum path (lines out.stdout) (parse_version_output m (lines out.stdout))

unfoldable pub probe_binary : Environment → Text → Probed
unfolding probe_output
probe_binary m path = probe_output m path (m.run_version path)

-- `push` of a path that is not there yet, if it is a file.
unfoldable pub add_hits : Environment → List Text → List Text → List Text
add_hits m hits [] = hits
add_hits m hits (c ∷ cs) =
    add_hits m (if m.is_file c && not (any (path_eq c) hits) then hits ++ c ∷ [] else hits) cs

unfoldable pub which : Environment → Text → Option (List Text) → List Text
unfolding add_hits
which m bin none = []
which m bin (some dirs) = add_hits m [] (map (λ dir. m.join dir bin) (filter m.is_absolute dirs))

abbrev pub fallback_paths : List Text
fallback_paths =
    lit "/usr/bin/rclone"
    ∷ lit "/usr/local/bin/rclone"
    ∷ lit "/opt/homebrew/bin/rclone"
    ∷ lit "/snap/bin/rclone"
    ∷ lit "/var/lib/flatpak/exports/bin/rclone"
    ∷ []

unfoldable pub candidates : Environment → List Text
unfolding which add_hits
candidates m = add_hits m (which m (lit "rclone") m.path_var) fallback_paths

-- Each candidate in turn, with the first failure.
unfoldable pub try_each : Environment → Option RcloneError → List Text → Probed
unfolding probe_binary
try_each m first_err [] = unusable (unwrap_or first_err not_found)
try_each m first_err (c ∷ cs) = elim (probe_binary m c) [
  | usable r ↦ usable r
  | unusable e ↦ try_each m (some (unwrap_or first_err e)) cs
]

unfoldable pub discover : Environment → Option Text → Probed
unfolding probe_binary try_each candidates
discover m (some path) = probe_binary m path
discover m none = try_each m none (candidates m)
