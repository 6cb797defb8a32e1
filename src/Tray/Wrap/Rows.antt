-- ===== src/Tray/Wrap/Rows.antt =====
-- crates/tray/src/model.rs: how wide the rows of a wrapped sentence are, and how many there are.
use rclone_vfsmount_tray.Prelude.{
  if-holds, ℕ, zero, suc, ◌+◌, ◌≤◌, max, ◌≡◌, sym, subst, inl, inr, Bool, true, false, some, List,
  [], ◌∷◌, ◌++◌, arith, ltb, leb, ◌==◌, if◌then◌else◌, Bool-cases, Option-cases, unwrap_or, length,
  All, length-append, Text, lit,
}
use rclone_vfsmount_tray.Tray.Wrap.{
  flush, chop, split_to_width, words, fits, join_last, place, place_all, pieces, wrap_line,
  wrap_lines, cut, all_rows, wrap,
}
use rclone_vfsmount_tray.Core.Mountinfo.{lines}

-- Every row is at most so wide.
abbrev pub Within : ℕ → List Text → Type 0
Within width = All (λ row. length row ≤ width)

Within-append : (w : ℕ) (xs ys : List Text) → Within w xs → Within w ys → Within w (xs ++ ys)
Within-append w [] ys h k = k
Within-append w (x ∷ xs) ys h k = (h.0, Within-append w xs ys h.1 k)

Within-mono : (v w : ℕ) (xs : List Text) → v ≤ w → Within v xs → Within w xs
Within-mono v w [] le h = tt
Within-mono v w (x ∷ xs) le h = (omega (arith, h.0), Within-mono v w xs le h.1)

flush-Within : (w : ℕ) (s : Text) → length s ≤ w → Within w (flush s)
flush-Within w [] h = tt
flush-Within w (c ∷ s) h = (h, tt)

chop-Within : (w : ℕ) (piece s : Text) → 1 ≤ w → length piece ≤ w → Within w (chop w piece s)
unfolding chop
chop-Within w piece [] wide h = flush-Within w piece h
chop-Within w piece (c ∷ s) wide h =
    if-holds (Within w) (length piece == w) (piece ∷ chop w (c ∷ []) s) (chop w (piece ++ c ∷ []) s)
      (λ e. (h, chop-Within w (c ∷ []) s wide wide))
      (λ e. chop-Within w (piece ++ c ∷ []) s wide (ground (arith, length-append piece (c ∷ []))))

split_to_width-Within : (w : ℕ) (s : Text) → 1 ≤ w → Within w (split_to_width s w)
unfolding split_to_width
split_to_width-Within w s wide =
    if-holds (Within w) (leb (length s) w) (s ∷ []) (chop w [] s) (λ e. (ground (arith, e), tt))
      (λ e. chop-Within w [] s wide (omega arith))

join_last-Within :
    (w : ℕ) (rows : List Text) (piece : Text) {r : List Text}
    → Within w rows
    → join_last w rows piece ≡ some r
    → Within w r
unfolding join_last fits
join_last-Within w [] piece h e = cc
join_last-Within w (line ∷ []) piece h e = ground (arith, length-append line (b' ' ∷ piece))
join_last-Within w (line ∷ next ∷ rows) piece {r} h e =
    elim (Option-cases (join_last w (next ∷ rows) piece)) [
      | inl n ↦ ground arith
      | inr (q, f) ↦ ground (arith, join_last-Within w (next ∷ rows) piece {r = q} h.1 f)
    ]

place-Within :
    (w : ℕ) (continuing : Bool) (rows : List Text) (piece : Text)
    → Within w rows
    → length piece ≤ w
    → Within w (place w continuing rows piece)
unfolding place
place-Within w false rows piece h k = Within-append w rows (piece ∷ []) h (k, tt)
place-Within w true rows piece h k = elim (Option-cases (join_last w rows piece)) [
  | inl n ↦
      subst (λ o. Within w (unwrap_or o (rows ++ piece ∷ []))) (sym n)
        (Within-append w rows (piece ∷ []) h (k, tt))
  | inr (q, f) ↦
      subst (λ o. Within w (unwrap_or o (rows ++ piece ∷ []))) (sym f)
        (join_last-Within w rows piece h f)
]

place_all-Within :
    (w : ℕ) (continuing : Bool) (rows ps : List Text)
    → Within w rows
    → Within w ps
    → Within w (place_all w continuing rows ps)
unfolding place_all
place_all-Within w continuing rows [] h k = h
place_all-Within w continuing rows (p ∷ ps) h k =
    place_all-Within w true (place w continuing rows p) ps (place-Within w continuing rows p h k.0)
      k.1

pieces-Within : (w : ℕ) (ws : List Text) → 1 ≤ w → Within w (pieces w ws)
unfolding pieces
pieces-Within w [] wide = tt
pieces-Within w (x ∷ ws) wide =
    Within-append w (split_to_width x w) (pieces w ws) (split_to_width-Within w x wide)
      (pieces-Within w ws wide)

wrap_lines-Within :
    (ws : ℕ → Bool) (w : ℕ) (rows sources : List Text)
    → 1 ≤ w
    → Within w rows
    → Within w (wrap_lines ws w rows sources)
unfolding wrap_lines wrap_line
wrap_lines-Within ws w rows [] wide h = h
wrap_lines-Within ws w rows (s ∷ sources) wide h =
    wrap_lines-Within ws w (wrap_line ws w rows s) sources wide (
      place_all-Within w false rows (pieces w (words ws [] s)) h
        (pieces-Within w (words ws [] s) wide))

all_rows-Within : (ws : ℕ → Bool) (text : Text) (w : ℕ) → Within (max w 1) (all_rows ws text w)
unfolding all_rows
all_rows-Within ws text w = wrap_lines-Within ws (max w 1) [] (lines text) (omega arith) tt

cut-Within :
    (w n : ℕ) (rows : List Text)
    → Within w rows
    → (length (cut n rows) ≤ n) × Within (w + 2) (cut n rows)
unfolding cut
cut-Within w zero rows h = (omega arith, tt)
cut-Within w (suc zero) [] h = (omega arith, tt)
cut-Within w (suc zero) (line ∷ rows) h =
    (omega arith, (omega (arith, length-append line (lit " …"), h.0), tt))
cut-Within w (suc (suc n)) [] h = (omega arith, tt)
cut-Within w (suc (suc n)) (line ∷ rows) h =
    let (le, rest) = cut-Within w (suc n) rows h.1 in
    (omega (arith, le), (omega (arith, h.0), rest))

-- Whatever the sentence, the width and the number of rows asked for: there are at most that many rows,
-- and none has more characters than the width, which counts as at least one, and the two of the mark
-- of a sentence that was cut.
pub wrap-bounds :
    (ws : ℕ → Bool) (text : Text) (width max_lines : ℕ)
    → (length (wrap ws text width max_lines) ≤ max_lines)
      × Within (max width 1 + 2) (wrap ws text width max_lines)
unfolding wrap
wrap-bounds ws text width max_lines =
    let rows = all_rows ws text width in
    let narrow = all_rows-Within ws text width in
    elim (Bool-cases (ltb max_lines (length rows))) [
      | inl e ↦
          subst
            (λ b.
              let out = if b then cut max_lines rows else rows in
              (length out ≤ max_lines) × Within (max width 1 + 2) out)
            (sym e) (cut-Within (max width 1) max_lines rows narrow)
      | inr e ↦
          subst
            (λ b.
              let out = if b then cut max_lines rows else rows in
              (length out ≤ max_lines) × Within (max width 1 + 2) out)
            (sym e)
            (
              ground (arith, e),
              Within-mono (max width 1) (max width 1 + 2) rows (omega arith) narrow,
            )
    ]
