-- ===== src/Service/Redact.antt =====
-- crates/service/src/supervisor.rs: `redact_extra_args`, which takes rclone's command line, and a
-- mount's extra arguments, out of rclone's log. `debug` is the `{:?}` of the standard library.
use rclone_vfsmount_tray.Prelude.{
  ℕ, zero, suc, ◌-◌, Bool, true, false, not, ◌||◌, List, [], ◌∷◌, ◌++◌, map, if◌then◌else◌, length,
  filter, Text, lit, starts_with,
}
use rclone_vfsmount_tray.Core.Mountinfo.{lines}

abbrev pub argv_echo : Text
argv_echo = lit "starting with parameters"

abbrev pub argv_withheld : Text
argv_withheld = lit "[rclone's command line withheld]"

abbrev pub redacted : Text
redacted = lit "<redacted>"

-- `str::contains` of a text.
unfoldable pub contains : Text → Text → Bool
unfolding starts_with
contains p [] = starts_with [] p
contains p (c ∷ s) = starts_with (c ∷ s) p || contains p s

-- The loop of `str::replace`, with the number of characters of a match still to skip.
unfoldable pub replace_from : Text → Text → ℕ → Text → Text
unfolding starts_with
replace_from old new n [] = []
replace_from old new zero (c ∷ s) =
    let found = starts_with (c ∷ s) old in
    (if found then new else c ∷ []) ++ replace_from old new (if found then length old - 1 else 0) s
replace_from old new (suc n) (c ∷ s) = replace_from old new n s

-- `str::replace` of a text that is not empty.
unfoldable pub replace : Text → Text → Text → Text
unfolding replace_from
replace old new s = replace_from old new 0 s

unfoldable pub replace_all : (Text → Text) → List Text → Text → Text
unfolding replace
replace_all debug [] line = line
replace_all debug (a ∷ args) line = replace_all debug args (replace (debug a) (debug redacted) line)

abbrev is_blank : Text → Bool
is_blank [] = true
is_blank (c ∷ s) = false

unfoldable pub redact_line : (Text → Text) → List Text → Text → Text
unfolding contains replace_all
redact_line debug args line =
    if contains argv_echo line
    then argv_withheld
    else replace_all debug (filter (λ a. not (is_blank a)) args) line

abbrev join_lines : List Text → Text
join_lines [] = []
join_lines (l ∷ []) = l
join_lines (l ∷ m ∷ ls) = l ++ 10 ∷ join_lines (m ∷ ls)

unfoldable pub redact_extra_args : (Text → Text) → Text → List Text → Text
unfolding redact_line
redact_extra_args debug text extra_args =
    join_lines (map (redact_line debug extra_args) (lines text))
