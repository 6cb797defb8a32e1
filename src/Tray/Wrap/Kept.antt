-- ===== src/Tray/Wrap/Kept.antt =====
-- crates/tray/src/model.rs: nothing of a sentence is lost in wrapping it.
use rclone_vfsmount_tray.Prelude.{
  ℕ, ◌≤◌, max, ◌≡◌, refl, ap, inl, inr, Bool, true, false, not, some, List, [], ◌∷◌, ◌++◌, arith,
  ltb, leb, ◌==◌, if◌then◌else◌, ==_iff, Bool-cases, Option-cases, length, filter, Text,
}
use rclone_vfsmount_tray.Core.Mountinfo.{split, cons_first, trim_cr, end_lines, lines}
use rclone_vfsmount_tray.Tray.Wrap.{
  flush, chop, split_to_width, words, fits, join_last, place, place_all, pieces, wrap_line,
  wrap_lines, all_rows, wrap,
}

-- The rows, one after the other.
abbrev pub run_together : List Text → Text
run_together [] = []
run_together (row ∷ rows) = row ++ run_together rows

append_assoc : (a b c : Text) → (a ++ b) ++ c ≡ a ++ (b ++ c)
append_assoc [] b c = refl
append_assoc (x ∷ a) b c = ap (λ s. x ∷ s) (append_assoc a b c)

append_nil : (a : Text) → a ++ [] ≡ a
append_nil [] = refl
append_nil (x ∷ a) = ap (λ s. x ∷ s) (append_nil a)

run_together-append :
    (xs ys : List Text) → run_together (xs ++ ys) ≡ run_together xs ++ run_together ys
run_together-append [] ys = refl
run_together-append (x ∷ xs) ys =
    cc (run_together-append xs ys, append_assoc x (run_together xs) (run_together ys))

run_together-flush : (s : Text) → run_together (flush s) ≡ s
run_together-flush [] = refl
run_together-flush (c ∷ s) = append_nil (c ∷ s)

chop_lem : (w : ℕ) (piece s : Text) → run_together (chop w piece s) ≡ piece ++ s
unfolding chop
chop_lem w piece [] = cc (run_together-flush piece, append_nil piece)
chop_lem w piece (c ∷ s) = elim (Bool-cases (length piece == w)) [
  | inl e ↦ cc (e, chop_lem w (c ∷ []) s)
  | inr e ↦ cc (e, chop_lem w (piece ++ c ∷ []) s, append_assoc piece (c ∷ []) s)
]

-- The pieces of a word, one after the other, are the word, whatever the width.
pub split_to_width-run_together : (s : Text) (width : ℕ) → run_together (split_to_width s width) ≡ s
unfolding split_to_width
split_to_width-run_together s width = elim (Bool-cases (leb (length s) width)) [
  | inl e ↦ cc (e, append_nil s)
  | inr e ↦ cc (e, chop_lem width [] s)
]

module _ (ws : ℕ → Bool) where
  -- The characters that are not white space.
  abbrev pub ink : Text → Text
  ink = filter (λ c. not (ws c))

  ink-append : (a b : Text) → ink (a ++ b) ≡ ink a ++ ink b
  ink-append [] b = refl
  ink-append (c ∷ a) b = elim (Bool-cases (ws c)) [
    | inl e ↦ cc (e, ink-append a b)
    | inr e ↦ cc (e, ink-append a b)
  ]

  ink_together : List Text → Text
  ink_together rows = ink (run_together rows)

  ink_together-nil : ink_together [] ≡ []
  unfolding ink_together
  ink_together-nil = refl

  ink_together-append :
      (xs ys : List Text) → ink_together (xs ++ ys) ≡ ink_together xs ++ ink_together ys
  unfolding ink_together
  ink_together-append xs ys =
      cc (run_together-append xs ys, ink-append (run_together xs) (run_together ys))

  ink_together-cons : (x : Text) (xs : List Text) → ink_together (x ∷ xs) ≡ ink x ++ ink_together xs
  unfolding ink_together
  ink_together-cons x xs = ink-append x (run_together xs)

  ink_together-one : (x : Text) → ink_together (x ∷ []) ≡ ink x
  unfolding ink_together
  ink_together-one x = ap ink (append_nil x)

  ink_together-flush : (x : Text) → ink_together (flush x) ≡ ink x
  unfolding ink_together
  ink_together-flush x = ap ink (run_together-flush x)

  ink-white : (c : ℕ) → ws c ≡ true → ink (c ∷ []) ≡ []
  ink-white c h = cc h

  split_ink : (x : Text) (w : ℕ) → ink_together (split_to_width x w) ≡ ink x
  unfolding ink_together
  split_ink x w = ap ink (split_to_width-run_together x w)

  words-ink : (word s : Text) → ink_together (words ws word s) ≡ ink word ++ ink s
  unfolding words
  words-ink word [] = cc (ink_together-flush word, append_nil (ink word))
  words-ink word (c ∷ s) = elim (Bool-cases (ws c)) [
    | inl e ↦ cc (
      e,
      ink_together-append (flush word) (words ws [] s),
      ink_together-flush word,
      words-ink [] s,
    )
    | inr e ↦ cc (
      e,
      words-ink (word ++ c ∷ []) s,
      ink-append word (c ∷ []),
      append_assoc (ink word) (c ∷ []) (ink s),
    )
  ]

  pieces-ink : (w : ℕ) (xs : List Text) → ink_together (pieces w xs) ≡ ink_together xs
  unfolding pieces
  pieces-ink w [] = refl
  pieces-ink w (x ∷ xs) = cc (
    ink_together-append (split_to_width x w) (pieces w xs),
    ink_together-cons x xs,
    split_ink x w,
    pieces-ink w xs,
  )

  -- A space is white.
  module _ (space_white : ws b' ' ≡ true) where
    spaced_ink : (line piece : Text) → ink (line ++ b' ' ∷ piece) ≡ ink line ++ ink piece
    spaced_ink line piece = cc (space_white, ink-append line (b' ' ∷ piece))

    join_last-ink :
        (w : ℕ) (rows : List Text) (piece : Text) {r : List Text}
        → join_last w rows piece ≡ some r
        → ink_together r ≡ ink_together rows ++ ink piece
    unfolding join_last
    join_last-ink w [] piece e = cc
    join_last-ink w (line ∷ []) piece {r} e = elim (Bool-cases (fits w line piece)) [
      | inl f ↦ cc (
        e,
        f,
        ink_together-one (line ++ b' ' ∷ piece),
        ink_together-one line,
        spaced_ink line piece,
      )
      | inr f ↦ cc (e, f)
    ]
    join_last-ink w (line ∷ next ∷ rows) piece {r} e =
        elim (Option-cases (join_last w (next ∷ rows) piece)) [
          | inl n ↦ cc (e, n)
          | inr (q, f) ↦ cc (
            e,
            f,
            join_last-ink w (next ∷ rows) piece {r = q} f,
            ink_together-cons line q,
            ink_together-cons line (next ∷ rows),
            append_assoc (ink line) (ink_together (next ∷ rows)) (ink piece),
          )
        ]

    place-ink :
        (w : ℕ) (continuing : Bool) (rows : List Text) (piece : Text)
        → ink_together (place w continuing rows piece) ≡ ink_together rows ++ ink piece
    unfolding place
    place-ink w false rows piece =
        cc (ink_together-append rows (piece ∷ []), ink_together-one piece)
    place-ink w true rows piece = elim (Option-cases (join_last w rows piece)) [
      | inl n ↦ cc (n, ink_together-append rows (piece ∷ []), ink_together-one piece)
      | inr (q, f) ↦ cc (f, join_last-ink w rows piece {r = q} f)
    ]

    place_all-ink :
        (w : ℕ) (continuing : Bool) (rows ps : List Text)
        → ink_together (place_all w continuing rows ps) ≡ ink_together rows ++ ink_together ps
    unfolding place_all
    place_all-ink w continuing rows [] = cc (ink_together-nil, append_nil (ink_together rows))
    place_all-ink w continuing rows (p ∷ ps) = cc (
      place_all-ink w true (place w continuing rows p) ps,
      place-ink w continuing rows p,
      ink_together-cons p ps,
      append_assoc (ink_together rows) (ink p) (ink_together ps),
    )

    wrap_lines-ink :
        (w : ℕ) (rows sources : List Text)
        → ink_together (wrap_lines ws w rows sources) ≡ ink_together rows ++ ink_together sources
    unfolding wrap_lines wrap_line
    wrap_lines-ink w rows [] = cc (ink_together-nil, append_nil (ink_together rows))
    wrap_lines-ink w rows (s ∷ sources) = cc (
      wrap_lines-ink w (wrap_line ws w rows s) sources,
      place_all-ink w false rows (pieces w (words ws [] s)),
      pieces-ink w (words ws [] s),
      words-ink [] s,
      ink_together-cons s sources,
      append_assoc (ink_together rows) (ink s) (ink_together sources),
    )

    -- So are a newline and a carriage return.
    module _ (newline_white : ws 10 ≡ true) (return_white : ws 13 ≡ true) where
      cons_first-ink :
          (c : ℕ) (fs : List Text) → ink_together (cons_first c fs) ≡ ink (c ∷ run_together fs)
      unfolding ink_together
      cons_first-ink c [] = refl
      cons_first-ink c (f ∷ fs) = refl

      ink-cons : (c : ℕ) (a b : Text) → ink a ≡ ink b → ink (c ∷ a) ≡ ink (c ∷ b)
      ink-cons c a b e = ap (λ s. if not (ws c) then c ∷ s else s) e

      split-ink : (s : Text) → ink_together (split 10 s) ≡ ink s
      unfolding split ink_together
      split-ink [] = refl
      split-ink (c ∷ s) = elim (Bool-cases (c == 10)) [
        | inl e ↦ cc (newline_white, (==_iff c 10).0 e, split-ink s)
        | inr e ↦ cc (
          e,
          cons_first-ink c (split 10 s),
          ink-cons c (run_together (split 10 s)) s (split-ink s),
        )
      ]

      trim_cr-ink : (s : Text) → ink (trim_cr s) ≡ ink s
      unfolding trim_cr
      trim_cr-ink [] = refl
      trim_cr-ink (c ∷ []) = elim (Bool-cases (c == 13)) [
        | inl e ↦ cc (return_white, (==_iff c 13).0 e)
        | inr e ↦ cc e
      ]
      trim_cr-ink (c ∷ d ∷ s) = ink-cons c (trim_cr (d ∷ s)) (d ∷ s) (trim_cr-ink (d ∷ s))

      end_lines-ink : (fs : List Text) → ink_together (end_lines fs) ≡ ink_together fs
      unfolding end_lines
      end_lines-ink [] = refl
      end_lines-ink ([] ∷ []) = cc (ink_together-nil, ink_together-one [])
      end_lines-ink ((c ∷ f) ∷ []) = refl
      end_lines-ink (f ∷ g ∷ fs) = cc (
        ink_together-cons (trim_cr f) (end_lines (g ∷ fs)),
        ink_together-cons f (g ∷ fs),
        trim_cr-ink f,
        end_lines-ink (g ∷ fs),
      )

      all_rows-ink : (text : Text) (width : ℕ) → ink_together (all_rows ws text width) ≡ ink text
      unfolding all_rows lines
      all_rows-ink text width = cc (
        wrap_lines-ink (max width 1) [] (lines text),
        ink_together-nil,
        end_lines-ink (split 10 text),
        split-ink text,
      )

-- As long as the rows are not more than asked for, what they hold is what the sentence holds: the same
-- characters in the same order, white space apart. Of the white space it is assumed that a space, a
-- newline and a carriage return are some of it.
pub wrap-ink :
    (ws : ℕ → Bool) (text : Text) (width max_lines : ℕ)
    → ws b' ' ≡ true
    → ws 10 ≡ true
    → ws 13 ≡ true
    → length (all_rows ws text width) ≤ max_lines
    → ink ws (run_together (wrap ws text width max_lines)) ≡ ink ws text
unfolding wrap ink_together
wrap-ink ws text width max_lines space newline return short =
    let whole : ltb max_lines (length (all_rows ws text width)) ≡ false = ground arith in
    cc (whole, all_rows-ink ws space newline return text width)
