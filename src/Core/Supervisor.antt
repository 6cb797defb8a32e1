-- ===== src/Core/Supervisor.antt =====
-- crates/core/src/supervisor.rs: the states of a mount, and how an operation on one fails.
-- The cause that an error wraps is text.
use rclone_vfsmount_tray.Prelude.{Bool, true, false, Option, Text}
use rclone_vfsmount_tray.Core.Message.{Message}
use rclone_vfsmount_tray.Core.Models.{Pending}

pub data MountState : Type 0 where
  unmounted mounting mounted unmounting : MountState
  failed : Message → MountState
  foreign orphaned : MountState

unfoldable pub is_live : MountState → Bool
is_live mounted = true
is_live foreign = true
is_live orphaned = true
is_live unmounted = false
is_live mounting = false
is_live unmounting = false
is_live (failed reason) = false

unfoldable pub is_managed : MountState → Bool
is_managed foreign = false
is_managed unmounted = true
is_managed mounting = true
is_managed mounted = true
is_managed unmounting = true
is_managed (failed reason) = true
is_managed orphaned = true

pub data SupervisorError : Type 0 where
  unknown_mount : Text → SupervisorError
  bad_mount_point : Text → Text → Option Text → SupervisorError
  rclone_failed : Message → SupervisorError
  pending_uploads : Pending → SupervisorError
  busy : Message → SupervisorError
  supervision : Message → Option Text → SupervisorError
  not_managed : Message → SupervisorError

pub record DiscoveredMount : Type 0 where
  pub name : Text
  pub state : MountState
  pub mount_point : Option Text
