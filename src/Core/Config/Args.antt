-- ===== src/Core/Config/Args.antt =====
-- crates/core/src/config.rs: the arguments that rclone is started with.
pub mod Umask
use rclone_vfsmount_tray.Prelude.{
  ℕ, zero, suc, ◌+◌, ◌-◌, ◌*◌, ◌/◌, ◌%◌, ◌^◌, ◌≤◌, ◌<◌, min, max, ◌≡◌, refl, sym, ap, ◌∙◌, subst,
  ◌≢◌, ◌↔◌, ◌⊎◌, inl, inr, Bool, true, false, not, ◌&&◌, ◌||◌, Option, none, some, List, [], ◌∷◌,
  ◌++◌, map, arith, dec_lt, ℕ_discrete, ltb, leb, ◌==◌, if◌then◌else◌, ==_iff, Bool-cases,
  Option-cases, is_some, unwrap_or, is_yes, length, any, all, find, filter, All, length-append,
  length-filter-le, find-eq_some, length-map, filter_map, Text, lit, text_eq, text_eq-eq,
  text_eq_refl, text_eq_iff, has_char, strip_prefix, strip_prefix-append, strip_prefix-eq_some, ℤ,
  pos, negsuc, try_u64, u64_max, add64, sat_add, add64_exact, sat_add-le_max, Map, get, insert,
  remove, contains_key, values, keys, get-insert, get-remove, text_lt, strip_suffix, trim_start,
  all_chars, starts_with, text_eq_comm, strip_suffix-append,
}
use rclone_vfsmount_tray.Core.Models.{CacheMode, off, minimal, writes, full}
use rclone_vfsmount_tray.Core.Config.{Mount, fs_spec, umask_bits, max_umask}

-- The digits of a number, the last of which has this place.
unfoldable pub render : ℕ → ℕ → ℕ → Text
render zero base n = []
render (suc k) base n =
    let rest = render k base (n / base) in
    if ltb n base then (b'0' + n) ∷ [] else rest ++ ((b'0' + n % base) ∷ [])

-- `{:o}` of a number of at most 11 octal digits, as 0o17777777777 has them.
unfoldable pub octal : ℕ → Text
unfolding render
octal n = render 11 8 n

-- `u32::to_string`.
unfoldable pub decimal : ℕ → Text
unfolding render
decimal n = render 10 10 n

unfoldable pub canonical_umask : Text → Text
unfolding umask_bits octal
canonical_umask s = elim (umask_bits s) [
  | none ↦ s
  | some bits ↦ if leb bits max_umask then b'0' ∷ octal bits else s
]

-- The last `--umask` of the extra arguments: a later one is looked for first.
unfoldable pub extra_umask : List Text → Option Text
extra_umask [] = none
extra_umask (a ∷ rest) = elim (extra_umask rest) [
  | some u ↦ some u
  | none ↦ elim (strip_prefix (lit "--umask=") a) [
    | some u ↦ some u
    | none ↦ if text_eq a (lit "--umask") then elim rest [ [] ↦ none | u ∷ _ ↦ some u ] else none
  ]
]

-- `Mount::effective_umask`.
unfoldable pub effective_umask : Mount → Option Text
unfolding extra_umask
effective_umask m = elim (extra_umask m.extra_args) [ some u ↦ some u | none ↦ m.umask ]

-- `CacheMode::as_str`.
abbrev pub mode_text : CacheMode → Text
mode_text off = lit "off"
mode_text minimal = lit "minimal"
mode_text writes = lit "writes"
mode_text full = lit "full"

abbrev flag : Text → Option Text → List Text
flag f none = []
flag f (some v) = f ∷ v ∷ []

unfoldable pub number_text : Option ℕ → Option Text
unfolding decimal
number_text none = none
number_text (some n) = some (decimal n)

unfoldable pub umask_text : Option Text → Option Text
unfolding canonical_umask
umask_text none = none
umask_text (some s) = some (canonical_umask s)

-- `Mount::mount_args`.
unfoldable pub mount_args : Mount → Text → List Text
unfolding fs_spec number_text umask_text
mount_args m rc_socket =
    lit "mount" ∷ fs_spec m ∷ m.mount_point ∷ lit "--vfs-cache-mode" ∷ mode_text m.cache_mode ∷ []
    ++ (flag (lit "--vfs-cache-max-size") m.cache_max_size
        ++ (flag (lit "--vfs-cache-max-age") m.cache_max_age
            ++ ((if m.read_only then lit "--read-only" ∷ [] else [])
                ++ ((if m.allow_other then lit "--allow-other" ∷ [] else [])
                    ++ (flag (lit "--uid") (number_text m.uid)
                        ++ (flag (lit "--gid") (number_text m.gid)
                            ++ (flag (lit "--umask") (umask_text m.umask)
                                ++ (lit "--rc"
                                      ∷ lit "--rc-addr"
                                      ∷ (lit "unix://" ++ rc_socket)
                                      ∷ lit "--rc-no-auth"
                                      ∷ []
                                    ++ m.extra_args))))))))
