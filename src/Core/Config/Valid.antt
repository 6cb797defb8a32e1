-- ===== src/Core/Config/Valid.antt =====
-- crates/core/src/config.rs: what a configuration that passes `validate` is.
use rclone_vfsmount_tray.Prelude.{
  ℕ, Bool, ◌≤◌, ◌≡◌, refl, ◌≢◌, true, false, Option, none, some, List, [], ◌∷◌, ◌++◌, map, arith,
  any, find, All, Text, lit, text_eq, text_eq_refl, text_eq_iff, has_char, all_chars, text_eq_comm,
}
use rclone_vfsmount_tray.Core.Mountinfo.{path_eq, path_eq_comm}
use rclone_vfsmount_tray.Core.Units.{Syntax}
use rclone_vfsmount_tray.Core.Config.{
  Mount, Config, mount, name_char, is_rc_flag, is_absolute, check_mount, check_mounts, check_secs,
  validate, ConfigError, first_error,
}

-- What one entry has to be, on its own.
pub record IsUsable (m : Mount) : Type 0 where
  pub named : m.name ≢ []
  pub not_dot : m.name ≢ lit "."
  pub not_dots : m.name ≢ lit ".."
  pub plain : all_chars name_char m.name ≡ true
  pub no_rc : find is_rc_flag m.extra_args ≡ none
  pub no_colon : has_char b':' m.remote ≡ false
  pub absolute : is_absolute m.mount_point ≡ true

-- No two of these are the same by this test.
abbrev pub Distinct : (Text → Text → Bool) → List Text → Type 0
Distinct same [] = Unit {0}
Distinct same (s ∷ ss) = (any (same s) ss ≡ false) × Distinct same ss

check_mount_lem :
    (x : Syntax) (names points : List Text) (m : Mount)
    → check_mount x names points m ≡ none
    → IsUsable m
      × (any (text_eq m.name) names ≡ false)
      × (any (path_eq m.mount_point) points ≡ false)
unfolding check_mount
check_mount_lem x names points m h =
    ground
      (arith, text_eq_iff m.name [], text_eq_iff m.name (lit "."), text_eq_iff m.name (lit ".."))

-- Each of these passes a test on it against a list of texts.
abbrev Apart : (Text → Text → Bool) → (Mount → Text) → List Text → List Mount → Type 0
Apart same f seen ms = All (λ m. any (same (f m)) seen ≡ false) ms

Apart-tail :
    (same : Text → Text → Bool) (f : Mount → Text) (t : Text) (seen : List Text) (ms : List Mount)
    → ((s r : Text) → same s r ≡ same r s)
    → Apart same f (t ∷ seen) ms
    → Apart same f seen ms × (any (same t) (map f ms) ≡ false)
Apart-tail same f t seen [] comm h = (tt, refl)
Apart-tail same f t seen (m ∷ ms) comm h =
    ground (arith, h.0, Apart-tail same f t seen ms comm h.1, comm t (f m))

first_none : (e f : Option ConfigError) → first_error e f ≡ none → (e ≡ none) × (f ≡ none)
first_none none f h = (refl, h)
first_none (some e) f h = cc

check_secs_lem : (n : ℕ) → check_secs n ≡ none → (1 ≤ n) × (n ≤ 86400)
unfolding check_secs
check_secs_lem n h = ground arith

any_name :
    (a : Text) (before after : List Mount) (m : Mount)
    → any (text_eq a) (map (λ n. n.name) (before ++ m ∷ after)) ≡ false
    → text_eq a m.name ≡ false
any_name a [] after m h = ground arith
any_name a (b ∷ before) after m h = ground (arith, any_name a before after m)

check_mounts_lem :
    (x : Syntax) (names points : List Text) (ms : List Mount)
    → check_mounts x names points ms ≡ none
    → All IsUsable ms
      × (Apart text_eq (λ m. m.name) names ms × Apart path_eq (λ m. m.mount_point) points ms)
      × (Distinct text_eq (map (λ m. m.name) ms) × Distinct path_eq (map (λ m. m.mount_point) ms))
unfolding check_mounts
check_mounts_lem x names points [] h = (tt, (tt, tt), (tt, tt))
check_mounts_lem x names points (m ∷ ms) h =
    let (here, later) = first_none _ _ h in
    let (usable, name, point) = check_mount_lem x names points m here in
    let (us, apart, distinct) = check_mounts_lem x _ _ ms later in
    let (names', fresh) = Apart-tail text_eq (λ n. n.name) m.name names ms text_eq_comm apart.0 in
    let (points', free) =
      Apart-tail path_eq (λ n. n.mount_point) m.mount_point points ms path_eq_comm apart.1 in
    ((usable, us), ((name, names'), (point, points')), ((fresh, distinct.0), (free, distinct.1)))

-- A configuration that passes has, in every entry, a name of letters, digits, dashes, underscores
-- and dots that is not empty and no path component of its own, no flag that adds an rc listener, a
-- remote with no colon and an absolute mount point; no two entries share a name or, compared component
-- by component, a mount point; and both polling intervals lie between a second and a day.
pub validate_lem :
    (x : Syntax) (c : Config)
    → validate x c ≡ none
    → All IsUsable c.mounts
      × Distinct text_eq (map (λ m. m.name) c.mounts)
      × Distinct path_eq (map (λ m. m.mount_point) c.mounts)
      × ((1 ≤ c.poll.active_secs) × (c.poll.active_secs ≤ 86400))
      × ((1 ≤ c.poll.idle_secs) × (c.poll.idle_secs ≤ 86400))
unfolding validate
validate_lem x c h =
    let (_, after_path) = first_none _ _ h in
    let (active, after_active) = first_none _ _ after_path in
    let (idle, entries) = first_none _ _ after_active in
    let (us, _, distinct) = check_mounts_lem x [] [] c.mounts entries in
    (us, distinct.0, distinct.1, check_secs_lem _ active, check_secs_lem _ idle)

skip_others :
    (before after : List Mount) (m : Mount)
    → Distinct text_eq (map (λ n. n.name) (before ++ m ∷ after))
    → find (λ n. text_eq n.name m.name) (before ++ m ∷ after) ≡ some m
skip_others [] after m d = rw (text_eq_refl m.name)
skip_others (a ∷ before) after m d =
    ground (arith, skip_others before after m d.1, any_name a.name before after m d.0)

-- In a configuration that passes, looking up the name of any of its entries finds that entry.
pub validate-mount :
    (x : Syntax) (c : Config) (before after : List Mount) (m : Mount)
    → validate x c ≡ none
    → c.mounts ≡ before ++ m ∷ after
    → mount c m.name ≡ some m
unfolding mount
validate-mount x c before after m h e =
    let d = (validate_lem x c h).1 in rw e (skip_others before after m (rw e at d))
