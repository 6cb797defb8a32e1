-- ===== src/Service/Supervisor/States.antt =====
-- crates/service/src/supervisor.rs: `resolve`, `state` and `reconcile`.
pub mod Rows
pub mod Reconciled
use rclone_vfsmount_tray.Prelude.{
  Bool, true, false, not, ◌&&◌, none, some, List, [], ◌∷◌, ◌++◌, map, if◌then◌else◌, any, find,
  Text, text_eq,
}
use rclone_vfsmount_tray.Core.Message.{serving_elsewhere, not_responding, still_served_by}
use rclone_vfsmount_tray.Core.Config.{Mount, unit_name}
use rclone_vfsmount_tray.Core.Mountinfo.{path_eq, MountEntry, is_rclone}
use rclone_vfsmount_tray.Core.Supervisor.{
  MountState, unmounted, mounting, mounted, unmounting, failed as failed_state, foreign, orphaned,
  unknown_mount, DiscoveredMount,
}
use rclone_vfsmount_tray.Service.Units.{
  UnitStatus, active, activating, deactivating, failed, inactive, is_deactivating,
}
use rclone_vfsmount_tray.Service.Host.{Host, M, ◌>>=◌, pure, fail}
use rclone_vfsmount_tray.Service.Supervisor.{
  Target, Settings, mount_config, live_mounts, mounted_at, resolved_point, status_of, is_stale,
}
use rclone_vfsmount_tray.Service.Supervisor.Waiting.{failure_reason}
use rclone_vfsmount_tray.Service.Supervisor.Orphans.{orphans}

-- A row for each orphan whose unit the configuration does not name.
unfoldable pub orphan_rows : List Mount → List Target → List DiscoveredMount
unfolding unit_name
orphan_rows ms [] = []
orphan_rows ms (o ∷ os) =
    if any (λ m. text_eq (unit_name m) o.unit) ms
    then orphan_rows ms os
    else record { name = o.name; state = orphaned; mount_point = some o.point } ∷ orphan_rows ms os

-- A row for each rclone mount at a point that nobody claimed: `foreign_name` is the point.
unfoldable pub foreign_rows : List Text → List MountEntry → List DiscoveredMount
foreign_rows claimed [] = []
foreign_rows claimed (e ∷ es) =
    if is_rclone e && not (any (λ p. path_eq p e.mount_point) claimed)
    then record { name = e.mount_point; state = foreign; mount_point = some e.mount_point }
      ∷ foreign_rows claimed es
    else foreign_rows claimed es

module _ (h : Host) where
  open h use {World}

  -- The table of `resolve`.
  unfoldable pub from_unit :
      Settings → Text → List Target → Text → Bool → UnitStatus → M World MountState
  from_unit c unit found point true active = pure mounted
  from_unit c unit found point true activating = pure mounted
  from_unit c unit found point true deactivating = pure unmounting
  from_unit c unit found point true failed = do
    why ← failure_reason h c unit
    pure (failed_state why)
  from_unit c unit found point true inactive = elim (find (λ o. path_eq o.point point) found) [
    | some o ↦ pure (failed_state (still_served_by point o.unit o.name))
    | none ↦ pure foreign
  ]
  from_unit c unit found point false active = pure mounting
  from_unit c unit found point false activating = pure mounting
  from_unit c unit found point false deactivating = pure unmounting
  from_unit c unit found point false failed = do
    why ← failure_reason h c unit
    pure (failed_state why)
  from_unit c unit found point false inactive = pure unmounted

  -- The rest of `resolve`, once an edited mount point is ruled out.
  unfoldable pub resolve_point :
      Settings → Text → List Target → Text → Bool → UnitStatus → M World MountState
  resolve_point c unit found point live status = do
    stale ← if live then is_stale h point else pure false
    if stale
        then pure (failed_state (not_responding point))
        else from_unit c unit found point live status

  unfoldable pub resolve : Settings → Mount → List Target → M World MountState
  unfolding unit_name
  resolve c m found = do
    point ← resolved_point h m
    live ← mounted_at h point
    status ← status_of h (unit_name m)
    if is_deactivating status
        then resolve_point c (unit_name m) found point live status
        else elim (find (λ o. text_eq o.unit (unit_name m)) found) [
          | some o ↦ pure (failed_state (serving_elsewhere o.unit o.point point m.name))
          | none ↦ resolve_point c (unit_name m) found point live status
        ]

  unfoldable pub state : Settings → Text → M World MountState
  unfolding mount_config
  state c name = do
    found ← orphans h c
    elim (mount_config c name) [
      | some m ↦ resolve c m found
      | none ↦
          if any (λ o. text_eq o.name name) found then pure orphaned else fail (unknown_mount name)
    ]

  -- The first loop of `reconcile`.
  unfoldable pub configured_rows :
      Settings → List Target → List Mount → M World (List DiscoveredMount)
  configured_rows c found [] = pure []
  configured_rows c found (m ∷ ms) = do
    s ← resolve c m found
    rest ← configured_rows c found ms
    pure (record { name = m.name; state = s; mount_point = some m.mount_point } ∷ rest)

  unfoldable pub claimed_points : List Mount → M World (List Text)
  claimed_points [] = pure []
  claimed_points (m ∷ ms) = do p ← resolved_point h m; rest ← claimed_points ms; pure (p ∷ rest)

  unfoldable pub reconcile : Settings → M World (List DiscoveredMount)
  reconcile c = do
    live ← live_mounts h
    found ← orphans h c
    rows ← configured_rows c found c.config.mounts
    claimed ← claimed_points c.config.mounts
    pure (
        rows
        ++ (orphan_rows c.config.mounts found
            ++ foreign_rows (claimed ++ map (λ o. o.point) found) live))
