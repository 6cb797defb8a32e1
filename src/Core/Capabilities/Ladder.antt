-- ===== src/Core/Capabilities/Ladder.antt =====
-- crates/core/src/capabilities.rs: the ladder of tiers.
use rclone_vfsmount_tray.Prelude.{◌≤◌, ◌≡◌, true, arith, Text, lit}
use rclone_vfsmount_tray.Core.Capabilities.{rank, Capabilities, has, tier}

-- The second rclone registers every command of the first.
abbrev pub Extends : Capabilities → Capabilities → Type 0
Extends c d = (k : Text) → has c k ≡ true → has d k ≡ true

-- An rclone that registers more commands never has a poorer tier.
pub tier_antitone : (c d : Capabilities) → Extends c d → rank (tier d) ≤ rank (tier c)
unfolding tier
tier_antitone c d e = ground (arith, e (lit "core/stats"), e (lit "vfs/queue"), e (lit "vfs/stats"))
