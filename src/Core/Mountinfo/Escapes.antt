-- ===== src/Core/Mountinfo/Escapes.antt =====
-- crates/core/src/mountinfo.rs: the octal escapes of the kernel are undone.
use rclone_vfsmount_tray.Prelude.{
  ℕ, ◌≡◌, refl, sym, ◌∙◌, inl, inr, false, [], ◌∷◌, ◌++◌, arith, ◌==◌, if◌then◌else◌, Bool-cases,
  Text, lit, has_char,
}
use rclone_vfsmount_tray.Core.Mountinfo.{octal_byte, escaped, decode, unescape_from, unescape}

-- What the kernel writes for one character of a path: proc(5), fs/seq_file.c `mangle_path`.
abbrev pub kernel_char : ℕ → Text
kernel_char c =
    if c == b' '
    then lit "\\040"
    else if c == 9
    then lit "\\011"
    else if c == 10
    then lit "\\012"
    else if c == b'\\'
    then lit "\\134"
    else c ∷ []

abbrev pub kernel_escape : Text → Text
kernel_escape [] = []
kernel_escape (c ∷ s) = kernel_char c ++ kernel_escape s

unescape_from-kernel_escape : (s : Text) → unescape_from 0 (kernel_escape s) ≡ s
unfolding unescape_from decode escaped octal_byte
unescape_from-kernel_escape [] = refl
unescape_from-kernel_escape (c ∷ s) = ground (arith, unescape_from-kernel_escape s)

-- Text with no backslash in it is left as it is by the loop, so the shortcut changes nothing.
unescape_from_plain : (s : Text) → has_char b'\\' s ≡ false → unescape_from 0 s ≡ s
unfolding unescape_from decode
unescape_from_plain [] h = refl
unescape_from_plain (c ∷ s) h = ground (arith, unescape_from_plain s)

-- Every path comes back from the escapes that the kernel writes for it.
pub unescape-kernel_escape : (s : Text) → unescape (kernel_escape s) ≡ s
unfolding unescape
unescape-kernel_escape s = elim (Bool-cases (has_char b'\\' (kernel_escape s))) [
  | inl e ↦ rw e (unescape_from-kernel_escape s)
  | inr e ↦ rw e (sym (unescape_from_plain (kernel_escape s) e) ∙ unescape_from-kernel_escape s)
]

-- The kernel's escapes leave no space in a field.
pub kernel_escape-no_space : (s : Text) → has_char b' ' (kernel_escape s) ≡ false
kernel_escape-no_space [] = refl
kernel_escape-no_space (c ∷ s) = ground (arith, kernel_escape-no_space s)
