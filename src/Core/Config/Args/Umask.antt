-- ===== src/Core/Config/Args/Umask.antt =====
-- crates/core/src/config.rs: `canonical_umask` writes the mask that was read.
use rclone_vfsmount_tray.Prelude.{
  ℕ, zero, suc, ◌+◌, ◌-◌, ◌*◌, ◌/◌, ◌%◌, ◌^◌, ◌≤◌, ◌<◌, ◌≡◌, sym, ap, ◌∙◌, subst, some, [], ◌∷◌,
  ◌++◌, arith, dec_lt, Text,
}
use rclone_vfsmount_tray.Core.Config.{
  umask_bits, u128_max, max_umask, octal_digits, from_octal, drop_plus, trim_0o,
}
use rclone_vfsmount_tray.Core.Config.Args.{render, octal, canonical_umask}

octal_digits-snoc :
    (s : Text) (a d : ℕ) {m : ℕ}
    → d < 8
    → m * 8 + d ≤ u128_max
    → octal_digits a s ≡ some m
    → octal_digits a (s ++ ((48 + d) ∷ [])) ≡ some (m * 8 + d)
unfolding octal_digits
octal_digits-snoc [] a d {m} l fits e = ground arith
octal_digits-snoc (c ∷ s) a d {m} l fits e =
    ground (arith, octal_digits-snoc s (a * 8 + (c - 48)) d {m = m} l fits)

render-small : (k n : ℕ) → n < 8 → render (suc k) 8 n ≡ (48 + n) ∷ []
unfolding render
render-small k n l = ground arith

render-large : (k n : ℕ) → 8 ≤ n → render (suc k) 8 n ≡ render k 8 (n / 8) ++ ((48 + n % 8) ∷ [])
unfolding render
render-large k n l = ground arith

last_digit : (n : ℕ) → n / 8 * 8 + n % 8 ≡ n
last_digit n = omega arith

small_digits : (n : ℕ) → n < 8 → octal_digits 0 ((48 + n) ∷ []) ≡ some n
unfolding octal_digits
small_digits n l = ground arith

octal_digits-render :
    (k n : ℕ) → n < 8 ^ suc k → n ≤ u128_max → octal_digits 0 (render (suc k) 8 n) ≡ some n
octal_digits-render zero n l fits =
    ap (octal_digits 0) (render-small zero n (omega arith)) ∙ small_digits n (omega arith)
octal_digits-render (suc k) n l fits = elim (dec_lt n 8) [
  | yes small ↦ ap (octal_digits 0) (render-small (suc k) n small) ∙ small_digits n small
  | no big ↦
      ap (octal_digits 0) (render-large (suc k) n (omega arith))
      ∙ octal_digits-snoc (render (suc k) 8 (n / 8)) 0 (n % 8) {m = n / 8} (omega arith)
          (omega (arith, fits, last_digit n))
          (octal_digits-render k (n / 8) (omega arith) (omega (arith, fits)))
      ∙ ap some (last_digit n)
]

HasHead : Text → Type 0
HasHead s = (c : ℕ) × (r : Text) × (s ≡ c ∷ r) × (c < 111)

HasHead-snoc : (s : Text) (d : ℕ) → HasHead s → HasHead (s ++ d ∷ [])
unfolding HasHead
HasHead-snoc s d (c, r, e, l) = (c, r ++ d ∷ [], ap (λ z. z ++ d ∷ []) e, l)

render-HasHead : (k n : ℕ) → HasHead (render (suc k) 8 n)
unfolding HasHead render
render-HasHead zero n = elim (dec_lt n 8) [
  | yes small ↦ (48 + n, [], render-small zero n small, omega arith)
  | no big ↦ (48 + n % 8, [], render-large zero n (omega arith), omega arith)
]
render-HasHead (suc k) n = elim (dec_lt n 8) [
  | yes small ↦ (48 + n, [], render-small (suc k) n small, omega arith)
  | no big ↦
      subst HasHead (sym (render-large (suc k) n (omega arith)))
        (HasHead-snoc (render (suc k) 8 (n / 8)) (48 + n % 8) (render-HasHead k (n / 8)))
]

umask_bits-cons :
    (c : ℕ) (r : Text) (n : ℕ)
    → c < 111
    → octal_digits 0 (c ∷ r) ≡ some n
    → n ≤ max_umask
    → umask_bits (b'0' ∷ c ∷ r) ≡ some n
unfolding umask_bits octal_digits drop_plus from_octal trim_0o
umask_bits-cons c r n l d m = ground (arith, d)

umask_bits-octal : (n : ℕ) → n ≤ max_umask → umask_bits (b'0' ∷ octal n) ≡ some n
unfolding HasHead octal
umask_bits-octal n m =
    let (c, r, e, l) = render-HasHead 10 n in
    ap (λ s. umask_bits (b'0' ∷ s)) e
    ∙ umask_bits-cons c r n l
        (subst (λ s. octal_digits 0 s ≡ some n) e
          (octal_digits-render 10 n (omega arith) (omega (arith, m))))
        m

-- A mask that validation accepts is handed to rclone in a spelling that is read as the same bits.
pub umask_bits-canonical_umask :
    (s : Text) (n : ℕ)
    → umask_bits s ≡ some n
    → n ≤ max_umask
    → umask_bits (canonical_umask s) ≡ some n
unfolding canonical_umask
umask_bits-canonical_umask s n e m = ground (arith, e, umask_bits-octal n m)
