-- ===== src/Core/Capabilities.antt =====
-- crates/core/src/capabilities.rs: which rc commands an rclone registers, and the tier that follows.
-- The set of commands is a list; nothing asks for more than membership and emptiness.
pub mod Ladder
use rclone_vfsmount_tray.Prelude.{
  ℕ, ◌≤◌, Text, lit, text_eq, text_eq_iff, Bool, true, false, ◌||◌, Option, none, some, List, [],
  ◌∷◌, ◌++◌, ◌≡◌, refl, ◌↔◌, any, map, if◌then◌else◌, leb, arith, is_some, ◌⊎◌,
}
use rclone_vfsmount_tray.Core.Rc.{RcError, is_unreachable}
use rclone_vfsmount_tray.Core.Message.{Message, rc_error}

pub data Tier : Type 0 where
  t1 t2 t3 t4 : Tier

pub Tier-discrete : Discrete Tier
Tier-discrete = hlevel

-- The derived order: by declaration.
abbrev pub rank : Tier → ℕ
rank t1 = 1
rank t2 = 2
rank t3 = 3
rank t4 = 4

-- `Ord::min`.
unfoldable pub tier_min : Tier → Tier → Tier
tier_min a b = if leb (rank a) (rank b) then a else b

unfoldable pub meets_the_bar : Tier → Bool
meets_the_bar t2 = true
meets_the_bar t4 = true
meets_the_bar _ = false

unfoldable pub has_per_file_progress : Tier → Bool
has_per_file_progress t1 = true
has_per_file_progress _ = false

unfoldable pub has_in_flight_flag : Tier → Bool
has_in_flight_flag t1 = true
has_in_flight_flag t2 = true
has_in_flight_flag _ = false

pub record Capabilities : Type 0 where
  pub commands : List Text
  pub degraded : Option Message

unfoldable pub from_paths : List Text → Capabilities
from_paths paths = record { commands = paths; degraded = none }

unfoldable pub from_refusal : Message → Capabilities
from_refusal reason = record { commands = []; degraded = some reason }

unfoldable pub degraded_reason : Capabilities → Option Message
degraded_reason c = c.degraded

unfoldable pub has : Capabilities → Text → Bool
has c command = any (λ k. text_eq k command) c.commands

unfoldable pub is_empty : Capabilities → Bool
is_empty c = elim c.commands [ [] ↦ true | _ ∷ _ ↦ false ]

unfoldable pub tier : Capabilities → Tier
tier c =
    if has c (lit "core/stats")
    then t1
    else if has c (lit "vfs/queue")
    then t2
    else if has c (lit "vfs/stats")
    then t3
    else t4

unfoldable pub rc_can_answer_outstanding : Capabilities → Bool
rc_can_answer_outstanding c = has c (lit "vfs/queue")

unfoldable pub can_attribute_exactly : Capabilities → Bool
can_attribute_exactly c = has c (lit "vfs/stats")

unfoldable pub can_force_upload : Capabilities → Bool
can_force_upload c = has c (lit "vfs/queue-set-expiry")

-- What a call to rclone comes back with.
pub data Answer {ℓ} (A : Type ℓ) : Type ℓ where
  ok : A → Answer A
  err : RcError → Answer A

-- `Capabilities::probe`, given what the call of `rc/list` came back with.
unfoldable pub probe : Answer (List Text) → Answer Capabilities
probe (ok paths) = ok (from_paths paths)
probe (err e) = if is_unreachable e then ok (from_refusal (rc_error e)) else err e
