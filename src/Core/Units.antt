-- ===== src/Core/Units.antt =====
-- crates/core/src/config.rs: the sizes and the durations that rclone accepts.
use rclone_vfsmount_tray.Prelude.{
  ℕ, ◌+◌, Bool, true, false, not, ◌&&◌, ◌||◌, Option, none, some, List, [], ◌∷◌, map, leb, ◌==◌,
  if◌then◌else◌, is_some, unwrap_or, any, Text, lit, text_eq,
}

-- What the checks use of Unicode and of number syntax, from the standard library:
-- `char::is_alphanumeric`, `is_alphabetic`, `is_whitespace`, and whether `str::parse::<f64>` succeeds.
pub record Syntax : Type 0 where
  pub is_alphanumeric : ℕ → Bool
  pub is_alphabetic : ℕ → Bool
  pub is_whitespace : ℕ → Bool
  pub parses_f64 : Text → Bool

-- `str::to_ascii_lowercase`.
abbrev pub to_lower : ℕ → ℕ
to_lower c = if leb b'A' c && leb c b'Z' then c + 32 else c

abbrev pub lower : Text → Text
lower s = map to_lower s

-- The text without its last character, if that passes a test.
unfoldable pub strip_last : (ℕ → Bool) → Text → Option Text
strip_last p [] = none
strip_last p (c ∷ []) = if p c then some [] else none
strip_last p (c ∷ d ∷ s) = elim (strip_last p (d ∷ s)) [ none ↦ none | some r ↦ some (c ∷ r) ]

-- The text cut before its longest suffix of characters that pass a test.
unfoldable pub split_unit : (ℕ → Bool) → Text → Text × Text
split_unit p [] = ([], [])
split_unit p (c ∷ s) =
    let (number, unit) = split_unit p s in
    elim number [ [] ↦ if p c then ([], c ∷ unit) else (c ∷ [], unit) | d ∷ n ↦ (c ∷ d ∷ n, unit) ]

-- `v != v.trim()`: white space at an end.
unfoldable pub has_outer_space : Syntax → Text → Bool
unfolding strip_last
has_outer_space x [] = false
has_outer_space x (c ∷ s) = x.is_whitespace c || is_some (strip_last x.is_whitespace (c ∷ s))

abbrev is_dashed : Text → Bool
is_dashed [] = true
is_dashed (c ∷ s) = c == b'-'

abbrev is_b : ℕ → Bool
is_b c = (c == b'b') || (c == b'B')

abbrev is_i : ℕ → Bool
is_i c = (c == b'i') || (c == b'I')

ends_with_i : Text → Bool
ends_with_i s = is_some (strip_last (λ c. c == b'i') s)

-- A `b` is a unit only behind a lower-case `i`.
scale_of : Text → Text
unfolding strip_last ends_with_i
scale_of unit =
    let whole : Text = elim (strip_last is_b unit) [
      | none ↦ unit
      | some rest ↦ if ends_with_i rest then rest else unit
    ] in
    unwrap_or (strip_last is_i whole) whole

abbrev scales : List Text
scales = lit "k" ∷ lit "m" ∷ lit "g" ∷ lit "t" ∷ lit "p" ∷ lit "e" ∷ []

abbrev is_empty : Text → Bool
is_empty [] = true
is_empty (c ∷ s) = false

unfoldable pub size_suffix_ok : Syntax → Text → Bool
unfolding has_outer_space split_unit scale_of text_eq
size_suffix_ok x v =
    let (number, unit) = split_unit x.is_alphabetic v in
    if text_eq (lower v) (lit "off")
    then true
    else if is_dashed v || has_outer_space x v
    then false
    else if is_empty unit || not (x.parses_f64 number)
    then true
    else if text_eq (lower unit) (lit "b")
    then true
    else any (text_eq (lower (scale_of unit))) scales

-- `DURATION_UNITS`; the two micro signs are different characters.
abbrev duration_units : List Text
duration_units =
    lit "ns"
    ∷ lit "us"
    ∷ (181 ∷ b's' ∷ [])
    ∷ (956 ∷ b's' ∷ [])
    ∷ lit "ms"
    ∷ lit "s"
    ∷ lit "m"
    ∷ lit "h"
    ∷ lit "d"
    ∷ lit "w"
    ∷ lit "M"
    ∷ lit "y"
    ∷ []

unfoldable pub duration_ok : Syntax → Text → Bool
unfolding split_unit text_eq
duration_ok x v =
    let (number, unit) = split_unit x.is_alphabetic v in
    if text_eq v (lit "off") || is_empty v
    then text_eq v (lit "off")
    else if is_empty unit || not (x.parses_f64 number)
    then true
    else any (text_eq unit) duration_units
