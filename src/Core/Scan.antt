-- ===== src/Core/Scan.antt =====
-- crates/core/src/scan.rs: the uploads that are still in a mount's cache on disk.
pub mod Walk
pub mod Ends
pub mod Visits
pub mod Covers
pub mod Found
use rclone_vfsmount_tray.Prelude.{
  ℕ, Bool, not, ◌&&◌, Option, none, some, List, [], ◌∷◌, ◌==◌, Text, sat_add,
}

-- What one walk of a mount's cache found.
pub record DirtyFile : Type 0 where
  pub name : Text
  pub bytes : Option ℕ

pub record CacheScan : Type 0 where
  pub files : List DirtyFile
  pub unreadable : ℕ
  pub truncated : Bool
  pub root_present : Bool

unfoldable pub sum_bytes : List DirtyFile → ℕ → ℕ
sum_bytes [] acc = acc
sum_bytes (f ∷ fs) acc = sum_bytes fs (elim f.bytes [ none ↦ acc | some b ↦ sat_add acc b ])

-- `CacheScan::known_bytes`.
unfoldable pub known_bytes : CacheScan → ℕ
known_bytes s = sum_bytes s.files 0

unfoldable pub is_complete : CacheScan → Bool
is_complete s = (s.unreadable == 0) && not s.truncated
