-- ===== src/Service/Supervisor/Orphans/Unnoted.antt =====
-- crates/service/src/supervisor.rs: looking for orphans does nothing to any unit or mount point.
use rclone_vfsmount_tray.Prelude.{
  refl, Bool, true, not, Option, none, some, List, [], ◌∷◌, if◌then◌else◌, find, Text, text_eq,
}
use rclone_vfsmount_tray.Core.Config.{Mount, unit_prefix}
use rclone_vfsmount_tray.Core.Mountinfo.{path_eq, MountEntry, is_mounted_at}
use rclone_vfsmount_tray.Core.Supervisor.{}
use rclone_vfsmount_tray.Service.Units.{is_serving, Serving, LoadedUnit, orphan_name}
use rclone_vfsmount_tray.Service.Host.{Host, M, ◌>>=◌, pure, ask}
use rclone_vfsmount_tray.Service.Supervisor.{
  Settings, mount_config, live_mounts, resolved, resolved_point, target_of, status_of, is_stale,
}
use rclone_vfsmount_tray.Service.Host.Steps.{Quiet, bind_Quiet, ask-Quiet, if_Quiet, option_Quiet}
use rclone_vfsmount_tray.Service.Supervisor.Orphans.{
  Sweep, configured_unit_holds, configured_points, points_once, consider, sweep_unit, sweep_units,
  orphans, orphan_at, refuse_to_take_over, unmount_target, get_last, is_unedited, Argv,
  serving_argv,
}

module _ (h : Host) where
  open h use {World}

  pub resolved-Quiet : (p : Text) → Quiet (resolved h p)
  unfolding resolved
  resolved-Quiet p s = refl

  pub resolved_point-Quiet : (m : Mount) → Quiet (resolved_point h m)
  unfolding resolved_point
  resolved_point-Quiet m = resolved-Quiet m.mount_point

  pub status_of-Quiet : (unit : Text) → Quiet (status_of h unit)
  unfolding status_of
  status_of-Quiet unit = ask-Quiet (h.unit_status unit)

  pub is_stale-Quiet : (p : Text) → Quiet (is_stale h p)
  unfolding is_stale
  is_stale-Quiet p s = refl

  configured_points-Quiet : (ms : List Mount) → Quiet (configured_points h ms)
  unfolding configured_points
  configured_points-Quiet [] = λ s. refl
  configured_points-Quiet (m ∷ ms) =
      bind_Quiet _ (resolved_point h m) (resolved_point-Quiet m)
        (λ p. bind_Quiet _ (configured_points h ms) (configured_points-Quiet ms) (λ r s. refl))

  holds_at :
      (path point : Text) (later : M World Bool)
      → Quiet later
      → Quiet (do at ← resolved h path; if path_eq at point then pure true else later)
  holds_at path point later q =
      bind_Quiet _ (resolved h path) (resolved-Quiet path)
        (λ at. if_Quiet (path_eq at point) (pure true) later (λ s. refl) q)

  configured_unit_holds-Quiet :
      (ps : List (Text × Text)) (point : Text) (argv : Argv)
      → Quiet (configured_unit_holds h ps point argv)
  unfolding configured_unit_holds
  configured_unit_holds-Quiet [] point argv = λ s. refl
  configured_unit_holds-Quiet ((p, unit) ∷ rest) point argv =
      if_Quiet (not (path_eq p point)) _ _ (configured_unit_holds-Quiet rest point argv) (
        option_Quiet (get_last argv unit) _ _ (configured_unit_holds-Quiet rest point argv) (λ a.
          option_Quiet a (pure true) _ (λ s. refl)
            (λ path. holds_at path point _ (configured_unit_holds-Quiet rest point argv))))

  points_once-Quiet :
      (ms : List Mount) (memo : Option (List (Text × Text))) → Quiet (points_once h ms memo)
  unfolding points_once
  points_once-Quiet ms none = configured_points-Quiet ms
  points_once-Quiet ms (some ps) = λ s. refl

  consider-Quiet :
      (ms : List Mount) (live : List MountEntry) (argv : Argv) (acc : Sweep h) (u : LoadedUnit)
      → (serving : Serving) (name : Text) → Quiet (consider h ms live argv acc u serving name)
  unfolding consider
  consider-Quiet ms live argv (memo, found) u serving name =
      bind_Quiet _ (resolved h serving.mount_point) (resolved-Quiet serving.mount_point) (λ point.
        if_Quiet (not (is_mounted_at live point)) _ _ (λ s. refl)
          (bind_Quiet _ (points_once h ms memo) (points_once-Quiet ms memo) (λ points.
            bind_Quiet _ (configured_unit_holds h points point argv)
              (configured_unit_holds-Quiet points point argv)
              (λ held. if_Quiet held _ _ (λ s. refl) (λ s. refl)))))

  sweep_unit-Quiet :
      (ms : List Mount) (live : List MountEntry) (argv : Argv) (acc : Sweep h) (u : LoadedUnit)
      → Quiet (sweep_unit h ms live argv acc u)
  unfolding sweep_unit
  sweep_unit-Quiet ms live argv acc u =
      if_Quiet (not (is_serving u.status)) _ _ (λ s. refl)
        (option_Quiet u.serving (pure acc) _ (λ s. refl)
          (λ serving.
            option_Quiet (orphan_name u.name) (pure acc) _ (λ s. refl)
              (λ name.
                if_Quiet (is_unedited ms u serving.mount_point) _ _ (λ s. refl)
                  (consider-Quiet ms live argv acc u serving name))))

  sweep_units-Quiet :
      (ms : List Mount) (live : List MountEntry) (argv : Argv) (acc : Sweep h)
      (us : List LoadedUnit)
      → Quiet (sweep_units h ms live argv acc us)
  unfolding sweep_units
  sweep_units-Quiet ms live argv acc [] = λ s. refl
  sweep_units-Quiet ms live argv acc (u ∷ us) =
      bind_Quiet _ (sweep_unit h ms live argv acc u) (sweep_unit-Quiet ms live argv acc u)
        (λ next. sweep_units-Quiet ms live argv next us)

  pub live_mounts-Quiet : Quiet (live_mounts h)
  unfolding live_mounts
  live_mounts-Quiet s = refl

  pub orphans-Quiet : (c : Settings) → Quiet (orphans h c)
  unfolding orphans
  orphans-Quiet c =
      bind_Quiet _ (ask (h.list_units unit_prefix)) (ask-Quiet (h.list_units unit_prefix))
        (λ loaded. bind_Quiet _ (live_mounts h) live_mounts-Quiet (λ live.
          bind_Quiet _ (sweep_units h c.config.mounts live (serving_argv loaded) (none, []) loaded)
            (sweep_units-Quiet c.config.mounts live (serving_argv loaded) (none, []) loaded)
            (λ swept s. refl)))

  orphan_at-Quiet : (c : Settings) (point : Text) → Quiet (orphan_at h c point)
  unfolding orphan_at
  orphan_at-Quiet c point = bind_Quiet _ (orphans h c) (orphans-Quiet c) (λ found s. refl)

  target_of-Quiet : (m : Mount) → Quiet (target_of h m)
  unfolding target_of
  target_of-Quiet m = bind_Quiet _ (resolved_point h m) (resolved_point-Quiet m) (λ p s. refl)

  pub refuse_to_take_over-Quiet :
      (c : Settings) (name point : Text) → Quiet (refuse_to_take_over h c name point)
  unfolding refuse_to_take_over
  refuse_to_take_over-Quiet c name point =
      bind_Quiet _ (orphan_at h c point) (orphan_at-Quiet c point)
        (λ holder. option_Quiet holder (pure tt) _ (λ s. refl) (λ o s. refl))

  -- Finding the target of an unmount is looking only.
  pub unmount_target-Quiet : (c : Settings) (name : Text) → Quiet (unmount_target h c name)
  unfolding unmount_target
  unmount_target-Quiet c name = bind_Quiet _ (orphans h c) (orphans-Quiet c) (λ found.
      option_Quiet (mount_config c name) _ _
        (option_Quiet (find (λ o. text_eq o.name name) found) _ _ (λ s. refl) (λ o s. refl))
        (λ m. bind_Quiet _ (target_of h m) (target_of-Quiet m) (λ target.
          bind_Quiet _ (status_of h target.unit) (status_of-Quiet target.unit) (λ status s. refl))))
