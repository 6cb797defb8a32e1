-- ===== src/Core/Mountinfo.antt =====
-- crates/core/src/mountinfo.rs: the rclone mounts that the kernel lists. Reading the file is I/O and
-- is not modelled: `parse` starts from its text. A path is text, and `path_eq` compares paths.
pub mod Escapes
pub mod Lines
use rclone_vfsmount_tray.Prelude.{
  ℕ, zero, suc, ◌+◌, ◌-◌, ◌*◌, ◌/◌, ◌%◌, ◌^◌, ◌≤◌, ◌<◌, min, max, ◌≡◌, refl, sym, ap, ◌∙◌, subst,
  ◌≢◌, ◌↔◌, ◌⊎◌, inl, inr, Bool, true, false, not, ◌&&◌, ◌||◌, Option, none, some, List, [], ◌∷◌,
  ◌++◌, map, arith, dec_lt, ℕ_discrete, ltb, leb, ◌==◌, if◌then◌else◌, ==_iff, Bool-cases,
  Option-cases, is_some, unwrap_or, is_yes, length, any, all, find, filter, All, length-append,
  length-filter-le, find-eq_some, length-map, filter_map, Text, lit, text_eq, text_eq-eq,
  text_eq_refl, text_eq_iff, has_char, strip_prefix, strip_prefix-append, strip_prefix-eq_some, ℤ,
  pos, negsuc, try_u64, u64_max, add64, sat_add, add64_exact, sat_add-le_max, Map, get, insert,
  remove, contains_key, values, keys, get-insert, get-remove, text_lt, text_eq_comm,
}

pub record MountEntry : Type 0 where
  pub mount_point : Text
  pub source : Text
  pub fstype : Text

starts_with_slash : Text → Bool
starts_with_slash [] = false
starts_with_slash (c ∷ s) = c == b'/'

unfoldable pub is_rclone : MountEntry → Bool
unfolding starts_with_slash
is_rclone e =
    text_eq e.fstype (lit "fuse.rclone")
    || (text_eq e.fstype (lit "fuse") && has_char b':' e.source && not (starts_with_slash e.source))

-- What stands before the first of this character, if it occurs.
unfoldable pub before_char : ℕ → Text → Option Text
before_char c [] = none
before_char c (d ∷ s) =
    let rest = before_char c s in
    if d == c then some [] else elim rest [ none ↦ none | some r ↦ some (d ∷ r) ]

unfoldable pub remote : MountEntry → Option Text
unfolding before_char
remote e = before_char b':' e.source

-- `u8::from_str_radix(_, 8)` on three characters: a sign `+` may stand first.
abbrev pub is_octal : ℕ → Bool
is_octal c = leb b'0' c && leb c b'7'

unfoldable pub octal_byte : ℕ → ℕ → ℕ → Option ℕ
octal_byte a b c =
    let high = if a == b'+' then 0 else a - 48 in
    let value = high * 64 + (b - 48) * 8 + (c - 48) in
    if (is_octal a || (a == b'+')) && is_octal b && is_octal c && ltb value 256
    then some value
    else none

unfoldable pub escaped : Text → Option ℕ
unfolding octal_byte
escaped [] = none
escaped (a ∷ []) = none
escaped (a ∷ b ∷ []) = none
escaped (a ∷ b ∷ c ∷ s) = octal_byte a b c

-- What one round of the loop pushes at a character, and how many of those behind it it skips.
unfoldable pub decode : ℕ → Text → ℕ × ℕ
unfolding escaped
decode c s =
    if c == b'\\' then elim (escaped s) [ none ↦ (c, 0) | some byte ↦ (byte, 3) ] else (c, 0)

-- The loop of `unescape`, with the number of characters still to skip.
unfoldable pub unescape_from : ℕ → Text → Text
unescape_from n [] = []
unescape_from zero (c ∷ s) = (decode c s).0 ∷ unescape_from (decode c s).1 s
unescape_from (suc n) (c ∷ s) = unescape_from n s

unfoldable pub unescape : Text → Text
unfolding unescape_from decode
unescape s = if has_char b'\\' s then unescape_from 0 s else s

abbrev pub cons_first : ℕ → List Text → List Text
cons_first c [] = (c ∷ []) ∷ []
cons_first c (f ∷ fs) = (c ∷ f) ∷ fs

-- `str::split` at one character.
unfoldable pub split : ℕ → Text → List Text
split c [] = [] ∷ []
split c (d ∷ s) = let rest = split c s in if d == c then [] ∷ rest else cons_first d rest

-- A field list from its fourth element on: `fields.nth(n)?` with what is left of the iterator.
abbrev pub nth : ℕ → List Text → Option (Text × List Text)
nth n [] = none
nth zero (f ∷ fs) = some (f, fs)
nth (suc n) (f ∷ fs) = nth n fs

-- `fields.position(|f| f == "-")?`, which consumes through the separator.
unfoldable pub after_dash : List Text → Option (List Text)
after_dash [] = none
after_dash (f ∷ fs) = let rest = after_dash fs in if text_eq f (lit "-") then some fs else rest

abbrev is_blank : Text → Bool
is_blank [] = true
is_blank (c ∷ s) = false

-- The positional tail, once the separator is found.
unfoldable pub parse_tail : Text → List Text → Option MountEntry
parse_tail point [] = none
parse_tail point (fstype ∷ []) = none
parse_tail point (fstype ∷ source ∷ rest) =
    if is_blank point || is_blank fstype
    then none
    else some (record {
      mount_point = unescape point;
      source = unescape source;
      fstype = unescape fstype;
    })

-- `parse_line` from the fields on.
unfoldable pub parse_fields : List Text → Option MountEntry
unfolding parse_tail after_dash
parse_fields fields = elim (nth 4 fields) [
  | none ↦ none
  | some (point, rest) ↦ elim (after_dash rest) [ none ↦ none | some tail ↦ parse_tail point tail ]
]

unfoldable pub parse_line : Text → Option MountEntry
unfolding parse_fields split
parse_line line = parse_fields (split b' ' line)

-- `str::lines`: a newline ends a line, with a carriage return before it.
unfoldable pub trim_cr : Text → Text
trim_cr [] = []
trim_cr (c ∷ []) = if c == 13 then [] else c ∷ []
trim_cr (c ∷ d ∷ s) = c ∷ trim_cr (d ∷ s)

-- The last piece has no newline behind it: it is kept as it is, and left out if it is empty.
unfoldable pub end_lines : List Text → List Text
end_lines [] = []
end_lines ([] ∷ []) = []
end_lines ((c ∷ f) ∷ []) = (c ∷ f) ∷ []
end_lines (f ∷ g ∷ fs) = trim_cr f ∷ end_lines (g ∷ fs)

unfoldable pub lines : Text → List Text
unfolding split end_lines trim_cr
lines s = end_lines (split 10 s)

unfoldable pub parse : Text → List MountEntry
parse contents = filter_map parse_line (lines contents)

-- The name of the working directory is a component only where a path starts with it.
abbrev is_component : Text → Bool
is_component name = not (is_blank name) && not (text_eq name (lit "."))

abbrev with_slashes : List Text → Text
with_slashes [] = []
with_slashes (name ∷ names) = b'/' ∷ name ++ with_slashes names

-- What a path starts with: the root, the working directory or neither.
abbrev first_component : List Text → Text
first_component [] = []
first_component (name ∷ []) = if text_eq name (lit ".") then name else []
first_component (name ∷ next ∷ names) =
    if is_blank name then b'/' ∷ [] else if text_eq name (lit ".") then name else []

-- `Path::components`, rendered.
unfoldable pub components : Text → Text
unfolding split
components path =
    let names = split b'/' path in first_component names ++ with_slashes (filter is_component names)

-- `Path`'s `==`, which compares components.
unfoldable pub path_eq : Text → Text → Bool
unfolding components
path_eq p q = text_eq (components p) (components q)

pub path_eq_comm : (p q : Text) → path_eq p q ≡ path_eq q p
unfolding path_eq
path_eq_comm p q = text_eq_comm (components p) (components q)

unfoldable pub is_mounted_at : List MountEntry → Text → Bool
unfolding path_eq
is_mounted_at entries path = any (λ e. is_rclone e && path_eq e.mount_point path) entries
