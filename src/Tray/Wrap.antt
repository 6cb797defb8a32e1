-- ===== src/Tray/Wrap.antt =====
-- crates/tray/src/model.rs: `split_to_width` and `wrap`, which break a sentence into menu rows. A text
-- is its characters; which of them are white space is a parameter, as Unicode has it.
pub mod Rows
pub mod Kept
use rclone_vfsmount_tray.Prelude.{
  ℕ, zero, suc, ◌+◌, ◌-◌, ◌*◌, ◌/◌, ◌%◌, ◌^◌, ◌≤◌, ◌<◌, min, max, ◌≡◌, refl, sym, ap, ◌∙◌, subst,
  ◌≢◌, ◌↔◌, ◌⊎◌, inl, inr, Bool, true, false, not, ◌&&◌, ◌||◌, Option, none, some, List, [], ◌∷◌,
  ◌++◌, map, arith, dec_lt, ℕ_discrete, ltb, leb, ◌==◌, if◌then◌else◌, ==_iff, Bool-cases,
  Option-cases, is_some, unwrap_or, is_yes, length, any, all, find, filter, All, length-append,
  length-filter-le, find-eq_some, length-map, filter_map, Text, lit, text_eq, text_eq-eq,
  text_eq_refl, text_eq_iff, has_char, strip_prefix, strip_prefix-append, strip_prefix-eq_some, ℤ,
  pos, negsuc, try_u64, u64_max, add64, sat_add, add64_exact, sat_add-le_max, Map, get, insert,
  remove, contains_key, values, keys, get-insert, get-remove, text_lt, strip_suffix, trim_start,
  all_chars, starts_with, text_eq_comm, strip_suffix-append,
}
use rclone_vfsmount_tray.Core.Mountinfo.{lines}

-- A piece that has ended, unless it is empty.
abbrev flush : Text → List Text
flush [] = []
flush (c ∷ piece) = (c ∷ piece) ∷ []

-- The piece that is being filled, and the characters that are left.
unfoldable pub chop : ℕ → Text → Text → List Text
chop width piece [] = flush piece
chop width piece (c ∷ s) =
    let full = chop width (c ∷ []) s in
    let filling = chop width (piece ++ c ∷ []) s in
    if length piece == width then piece ∷ full else filling

unfoldable pub split_to_width : Text → ℕ → List Text
unfolding chop
split_to_width s width = if leb (length s) width then s ∷ [] else chop width [] s

-- `str::split_whitespace`.
unfoldable pub words : (ℕ → Bool) → Text → Text → List Text
words ws word [] = flush word
words ws word (c ∷ s) =
    let next = words ws [] s in
    let same = words ws (word ++ c ∷ []) s in if ws c then flush word ++ next else same

unfoldable pub fits : ℕ → Text → Text → Bool
fits width line word = leb (length line + 1 + length word) width

-- The last row, with a word after a space.
unfoldable pub join_last : ℕ → List Text → Text → Option (List Text)
unfolding fits
join_last width [] piece = none
join_last width (line ∷ []) piece =
    if fits width line piece then some ((line ++ b' ' ∷ piece) ∷ []) else none
join_last width (line ∷ next ∷ rows) piece = elim (join_last width (next ∷ rows) piece) [
  | none ↦ none
  | some r ↦ some (line ∷ r)
]

-- The body of the innermost loop: whether the source line has a row already, and the rows.
unfoldable pub place : ℕ → Bool → List Text → Text → List Text
unfolding join_last
place width continuing rows piece =
    if continuing
    then unwrap_or (join_last width rows piece) (rows ++ piece ∷ [])
    else rows ++ piece ∷ []

unfoldable pub place_all : ℕ → Bool → List Text → List Text → List Text
place_all width continuing rows [] = rows
place_all width continuing rows (piece ∷ pieces) =
    place_all width true (place width continuing rows piece) pieces

-- The pieces of the words of one source line, in their order.
unfoldable pub pieces : ℕ → List Text → List Text
pieces width [] = []
pieces width (word ∷ ws) = split_to_width word width ++ pieces width ws

unfoldable pub wrap_line : (ℕ → Bool) → ℕ → List Text → Text → List Text
unfolding place_all pieces words
wrap_line ws width rows source = place_all width false rows (pieces width (words ws [] source))

unfoldable pub wrap_lines : (ℕ → Bool) → ℕ → List Text → List Text → List Text
wrap_lines ws width rows [] = rows
wrap_lines ws width rows (source ∷ sources) =
    wrap_lines ws width (wrap_line ws width rows source) sources

-- `truncate`, and the mark on the last row that is left.
unfoldable pub cut : ℕ → List Text → List Text
cut zero rows = []
cut (suc zero) [] = []
cut (suc zero) (line ∷ rows) = (line ++ lit " …") ∷ []
cut (suc (suc n)) [] = []
cut (suc (suc n)) (line ∷ rows) = line ∷ cut (suc n) rows

-- Every row, before the number of them is bounded.
unfoldable pub all_rows : (ℕ → Bool) → Text → ℕ → List Text
unfolding wrap_lines wrap_line
all_rows ws text width = wrap_lines ws (max width 1) [] (lines text)

unfoldable pub wrap : (ℕ → Bool) → Text → ℕ → ℕ → List Text
unfolding all_rows cut
wrap ws text width max_lines =
    let rows = all_rows ws text width in
    if ltb max_lines (length rows) then cut max_lines rows else rows
