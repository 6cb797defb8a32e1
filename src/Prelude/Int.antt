-- ===== src/Prelude/Int.antt =====
-- Signed 64-bit values as rclone sends them, and unsigned 64-bit arithmetic.
use Prim.Native.Nat.{ℕ, ◌+◌, ◌%◌, ◌≤◌}
use mathlib.Core.Path.{◌≡◌}
use mathlib.Core.Option.{Option, none, some}
use native.Mathlib.Omega.{arith}
use rclone_vfsmount_tray.Prelude.Tests.{ltb, if◌then◌else◌}

-- `negsuc n` is -(n + 1).
pub data ℤ : Type 0 where
  pos : ℕ → ℤ
  negsuc : ℕ → ℤ

-- `u64::try_from(n).ok()` of an i64.
abbrev pub try_u64 : ℤ → Option ℕ
try_u64 (pos n) = some n
try_u64 (negsuc n) = none

abbrev pub u64_max : ℕ
u64_max = 18446744073709551615

-- `a + b` in a release build, which wraps.
abbrev pub add64 : ℕ → ℕ → ℕ
add64 a b = (a + b) % 18446744073709551616

-- `u64::saturating_add`.
abbrev pub sat_add : ℕ → ℕ → ℕ
sat_add a b = if ltb 18446744073709551615 (a + b) then 18446744073709551615 else a + b

pub add64_exact : (a b : ℕ) → a + b ≤ u64_max → add64 a b ≡ a + b
add64_exact a b h = omega arith

pub sat_add-le_max : (a b : ℕ) → sat_add a b ≤ u64_max
sat_add-le_max a b = ground arith
