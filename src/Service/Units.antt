-- ===== src/Service/Units.antt =====
-- crates/service/src/systemd.rs: units as systemd reports them; and `orphan_name` of supervisor.rs,
-- which reads a mount's name back from its unit's.
use rclone_vfsmount_tray.Prelude.{
  ℕ, ◌≡◌, refl, ◌≢◌, Bool, true, false, ◌||◌, Option, none, some, List, [], ◌∷◌, ◌++◌, map, arith,
  if◌then◌else◌, Text, lit, text_eq, text_eq_iff, strip_prefix, strip_prefix-append, strip_suffix,
  all_chars, strip_suffix-append,
}
use rclone_vfsmount_tray.Core.Config.{Mount, unit_prefix, unit_name, slug_char, name_char}

pub data UnitStatus : Type 0 where
  active activating deactivating failed inactive : UnitStatus

unfoldable pub is_serving : UnitStatus → Bool
is_serving active = true
is_serving deactivating = true
is_serving activating = false
is_serving failed = false
is_serving inactive = false

abbrev pub is_inactive : UnitStatus → Bool
is_inactive inactive = true
is_inactive _ = false

abbrev pub is_deactivating : UnitStatus → Bool
is_deactivating deactivating = true
is_deactivating _ = false

-- `Active | Activating`.
abbrev pub is_up : UnitStatus → Bool
is_up active = true
is_up activating = true
is_up _ = false

pub record Serving : Type 0 where
  pub fs_spec : Text
  pub mount_point : Text

pub record LoadedUnit : Type 0 where
  pub name : Text
  pub status : UnitStatus
  pub serving : Option Serving

pub record UnitSpec : Type 0 where
  pub name : Text
  pub description : Text
  pub executable : Text
  pub args : List Text
  pub pre_start : Option (Text × List Text)
  pub umask : ℕ

is_path_component : Text → Bool
is_path_component n = text_eq n [] || text_eq n (lit ".") || text_eq n (lit "..")

unfoldable pub orphan_name : Text → Option Text
unfolding is_path_component
orphan_name unit = elim (strip_prefix unit_prefix unit) [
  | none ↦ none
  | some rest ↦ elim (strip_suffix (lit ".service") rest) [
    | none ↦ none
    | some name ↦ if is_path_component name then none else some name
  ]
]

slug_plain : (n : Text) → all_chars name_char n ≡ true → map slug_char n ≡ n
slug_plain [] h = refl
slug_plain (c ∷ n) h = ground (arith, slug_plain n)

suffix_name : (n : Text) → strip_suffix (lit ".service") (n ++ lit ".service") ≡ some n
suffix_name n = strip_suffix-append n (lit ".service")

prefix_name : (n : Text) → strip_prefix unit_prefix (unit_prefix ++ n) ≡ some n
prefix_name n = strip_prefix-append unit_prefix n

orphan_name_shape :
    (n : Text)
    → n ≢ []
    → n ≢ lit "."
    → n ≢ lit ".."
    → orphan_name (unit_prefix ++ (n ++ lit ".service")) ≡ some n
unfolding orphan_name
orphan_name_shape n ne dot dots = ground (
  arith,
  prefix_name (n ++ lit ".service"),
  suffix_name n,
  text_eq_iff n [],
  text_eq_iff n (lit "."),
  text_eq_iff n (lit ".."),
)

same_name :
    (n k : Text)
    → unit_prefix ++ (n ++ lit ".service") ≡ unit_prefix ++ (k ++ lit ".service")
    → n ≡ k
same_name n k e = cc (
  e,
  prefix_name (n ++ lit ".service"),
  prefix_name (k ++ lit ".service"),
  suffix_name n,
  suffix_name k,
)

-- For a name that `validate` lets through, the name read back from the unit is the mount's own.
pub orphan_name-unit_name :
    (m : Mount)
    → all_chars name_char m.name ≡ true
    → m.name ≢ []
    → m.name ≢ lit "."
    → m.name ≢ lit ".."
    → orphan_name (unit_name m) ≡ some m.name
unfolding unit_name
orphan_name-unit_name m plain ne dot dots =
    rw (slug_plain m.name plain) (orphan_name_shape m.name ne dot dots)

-- Two mounts with names that `validate` lets through have one unit only if they have one name.
pub unit_name_injective :
    (m n : Mount)
    → all_chars name_char m.name ≡ true
    → all_chars name_char n.name ≡ true
    → unit_name m ≡ unit_name n
    → m.name ≡ n.name
unfolding unit_name
unit_name_injective m n pm pn e =
    same_name m.name n.name (rw (slug_plain m.name pm, slug_plain n.name pn) at e)
