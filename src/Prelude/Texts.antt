-- ===== src/Prelude/Texts.antt =====
-- Texts as lists of code points, with equality, prefixes and membership.
use Prim.Native.Char.{code}
use Prim.Native.Nat.{ℕ, suc, ◌+◌}
use Prim.Native.String.{String}
use mathlib.Core.Path.{◌≡◌, refl, ap}
use mathlib.Core.Logic.{◌↔◌, inl, inr}
use mathlib.Core.Bool.{Bool, true, false, ◌&&◌, ◌||◌}
use mathlib.Core.List.{List, [], ◌∷◌, ◌++◌}
use mathlib.Core.Option.{Option, none, some}
use native.Mathlib.Omega.{arith}
use rclone_vfsmount_tray.Prelude.Tests.{◌==◌, if◌then◌else◌, Bool-cases}

abbrev pub Text : Type 0
Text = List ℕ

-- The code points of a literal.
abbrev pub lit : String → Text
lit String.[] = []
lit (String.◌∷◌ c s) = code c ∷ lit s

-- `==` on `str`.
unfoldable pub text_eq : Text → Text → Bool
text_eq [] [] = true
text_eq [] (d ∷ t) = false
text_eq (c ∷ s) [] = false
text_eq (c ∷ s) (d ∷ t) = (c == d) && text_eq s t

pub text_eq-eq : (s t : Text) → text_eq s t ≡ true → s ≡ t
unfolding text_eq
text_eq-eq [] [] h = refl
text_eq-eq [] (d ∷ t) h = cc
text_eq-eq (c ∷ s) [] h = cc
text_eq-eq (c ∷ s) (d ∷ t) h = ground (arith, text_eq-eq s t)

pub text_eq_refl : (s : Text) → text_eq s s ≡ true
unfolding text_eq
text_eq_refl [] = refl
text_eq_refl (c ∷ s) = ground (arith, text_eq_refl s)

pub text_eq_iff : (s t : Text) → (text_eq s t ≡ true) ↔ (s ≡ t)
text_eq_iff s t = (text_eq-eq s t, λ e. cc (e, text_eq_refl s))

-- `str::contains` of one character.
abbrev pub has_char : ℕ → Text → Bool
has_char c [] = false
has_char c (d ∷ s) = (d == c) || has_char c s

-- `str::strip_prefix`.
unfoldable pub strip_prefix : Text → Text → Option Text
strip_prefix [] s = some s
strip_prefix (c ∷ p) [] = none
strip_prefix (c ∷ p) (d ∷ s) = if c == d then strip_prefix p s else none

pub strip_prefix-append : (p s : Text) → strip_prefix p (p ++ s) ≡ some s
unfolding strip_prefix
strip_prefix-append [] s = refl
strip_prefix-append (c ∷ p) s = ground (arith, strip_prefix-append p s)

pub strip_prefix-eq_some : (p s : Text) {r : Text} → strip_prefix p s ≡ some r → s ≡ p ++ r
unfolding strip_prefix
strip_prefix-eq_some [] s h = cc
strip_prefix-eq_some (c ∷ p) [] h = cc
strip_prefix-eq_some (c ∷ p) (d ∷ s) {r} h = ground (arith, strip_prefix-eq_some p s {r = r})

-- `str::strip_suffix`.
unfoldable pub strip_suffix : Text → Text → Option Text
unfolding text_eq
strip_suffix p [] = if text_eq [] p then some [] else none
strip_suffix p (c ∷ s) =
    let rest = strip_suffix p s in
    if text_eq (c ∷ s) p then some [] else elim rest [ none ↦ none | some r ↦ some (c ∷ r) ]

-- `str::trim_start_matches` of one character.
unfoldable pub trim_start : ℕ → Text → Text
trim_start c [] = []
trim_start c (d ∷ s) = if d == c then trim_start c s else d ∷ s

-- Whether every character passes a test.
abbrev pub all_chars : (ℕ → Bool) → Text → Bool
all_chars p [] = true
all_chars p (c ∷ s) = p c && all_chars p s

unfoldable pub starts_with : Text → Text → Bool
unfolding strip_prefix
starts_with s p = elim (strip_prefix p s) [ none ↦ false | some r ↦ true ]

abbrev text_length : Text → ℕ
text_length [] = 0
text_length (c ∷ s) = suc (text_length s)

text_length-append : (s t : Text) → text_length (s ++ t) ≡ text_length s + text_length t
text_length-append [] t = omega arith
text_length-append (c ∷ s) t = omega (arith, text_length-append s t)

longer_ne : (c : ℕ) (s p : Text) → text_eq (c ∷ (s ++ p)) p ≡ false
longer_ne c s p = elim (Bool-cases (text_eq (c ∷ (s ++ p)) p)) [
  | inl e ↦ absurd (omega (arith, ap text_length (text_eq-eq _ p e), text_length-append s p))
  | inr e ↦ e
]

strip_suffix_self : (p : Text) → strip_suffix p p ≡ some []
unfolding strip_suffix
strip_suffix_self [] = refl
strip_suffix_self (c ∷ p) = rw (text_eq_refl (c ∷ p))

pub strip_suffix-append : (s p : Text) → strip_suffix p (s ++ p) ≡ some s
unfolding strip_suffix
strip_suffix-append [] p = strip_suffix_self p
strip_suffix-append (c ∷ s) p = ground (arith, longer_ne c s p, strip_suffix-append s p)

pub text_eq_comm : (s t : Text) → text_eq s t ≡ text_eq t s
text_eq_comm s t = ground (arith, text_eq_iff s t, text_eq_iff t s, text_eq_refl s)
