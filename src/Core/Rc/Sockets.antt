-- ===== src/Core/Rc/Sockets.antt =====
-- crates/core/src/rc.rs: no two names share a socket file.
use rclone_vfsmount_tray.Prelude.{
  ℕ, ◌≡◌, refl, sym, ap, ◌≢◌, ◌⊎◌, [], ◌∷◌, ◌++◌, arith, Text, strip_suffix, strip_suffix-append,
}
use rclone_vfsmount_tray.Core.Rc.{escape_char, escape_name, socket_file_name}

append_cancel : (s t u : Text) → s ++ u ≡ t ++ u → s ≡ t
append_cancel s t u e =
    cc (sym (strip_suffix-append s u), ap (strip_suffix u) e, strip_suffix-append t u)

escape_char_lem :
    (c : ℕ)
    → ((c ≡ 47) × (escape_char c ≡ 37 ∷ 50 ∷ 70 ∷ []))
      ⊎ ((c ≡ 37) × (escape_char c ≡ 37 ∷ 50 ∷ 53 ∷ []))
      ⊎ ((c ≢ 37) × (escape_char c ≡ c ∷ []))
escape_char_lem c = ground arith

same_char : (c d : ℕ) (s t : Text) → escape_char c ++ s ≡ escape_char d ++ t → (c ≡ d) × (s ≡ t)
same_char c d s t e = ground (arith, escape_char_lem c, escape_char_lem d)

escape_name_injective : (s t : Text) → escape_name s ≡ escape_name t → s ≡ t
unfolding escape_name
escape_name_injective [] [] e = refl
escape_name_injective [] (d ∷ t) e = ground (arith, escape_char_lem d)
escape_name_injective (c ∷ s) [] e = ground (arith, escape_char_lem c)
escape_name_injective (c ∷ s) (d ∷ t) e =
    let (p, q) = same_char c d (escape_name s) (escape_name t) e in
    cc (p, escape_name_injective s t q)

-- Different names have different socket files.
pub socket_file_name_injective : (s t : Text) → socket_file_name s ≡ socket_file_name t → s ≡ t
unfolding socket_file_name
socket_file_name_injective s t e =
    escape_name_injective s t (append_cancel (escape_name s) (escape_name t) _ e)
