-- ===== src/Examples/Supervision.antt =====
-- A machine with one mount, served by its own unit.
use rclone_vfsmount_tray.Prelude.{
  ℕ, ◌+◌, ◌≡◌, Bool, true, false, none, some, [], ◌∷◌, ◌++◌, refl, arith, Text, lit, List, text_eq,
}
use rclone_vfsmount_tray.Service.Units.{UnitStatus, active, inactive}
use rclone_vfsmount_tray.Service.Host.{Run, success, directory, done, Host, locked, ok}
use rclone_vfsmount_tray.Service.Supervisor.{Target, Settings, default_settings}
use rclone_vfsmount_tray.Service.Supervisor.Waiting.{await_gone, await_unit_gone, await_ready}
use rclone_vfsmount_tray.Service.Supervisor.Waiting.Deadline.{
  IsMonotonic, Ends as WaitEnds, waits_end,
}
use rclone_vfsmount_tray.Service.Supervisor.Unmounting.{find_target, unmount_held, unmount}
use rclone_vfsmount_tray.Service.Supervisor.Unmounting.Order.{seen_free, Lawful}
use rclone_vfsmount_tray.Service.Supervisor.Unmounting.Safety.{unmount_held-Lawful}
use rclone_vfsmount_tray.Service.Supervisor.Unmounting.Request.{Ends, unmount-Lawful}
use rclone_vfsmount_tray.Examples.Files.{photos, two_mounts}
use rclone_vfsmount_tray.Service.Supervisor.{mount_config}
use rclone_vfsmount_tray.Service.Supervisor.Mounting.{mount_by_name}
use rclone_vfsmount_tray.Service.Supervisor.Mounting.Safety.{MountEnds, mount_by_name-Orderly}
use rclone_vfsmount_tray.Core.Mountinfo.{
  lines, unescape, is_mounted_at, parse, parse_line, is_rclone,
}
use rclone_vfsmount_tray.Core.Supervisor.{DiscoveredMount, unmounted, foreign}
use rclone_vfsmount_tray.Service.Supervisor.{
  live_mounts, resolved_point, resolved, mounted_at, status_of,
}
use rclone_vfsmount_tray.Service.Supervisor.Orphans.{orphans, sweep_units}
use rclone_vfsmount_tray.Service.Supervisor.States.{
  reconcile, configured_rows, claimed_points, orphan_rows, foreign_rows, resolve, resolve_point,
  from_unit,
}
use rclone_vfsmount_tray.Service.Supervisor.States.Reconciled.{Reconciled, reconcile_lem}

record Machine : Type 0 where
  clock : ℕ
  live : Bool
  running : Bool

abbrev table : Bool → Text
table true = lit "36 35 0:62 / /mnt/photos rw shared:1 - fuse.rclone gdrive:pics rw"
table false = []

abbrev unit_state : Bool → UnitStatus
unit_state true = active
unit_state false = inactive

-- The kernel gives the point up when it is asked, and a unit starts and stops at once.
abbrev machine : Host
machine = record {
  World = Machine;
  debug = λ s. b'"' ∷ s ++ b'"' ∷ [];
  clock = λ w. w.clock;
  sleep = λ d w. record w { clock = w.clock + d };
  read_mountinfo = λ w. (some (table w.live), w);
  canonicalize = λ p w. (none, w);
  stat = λ p w. (some directory, w);
  metadata = λ p w. (directory, w);
  list_units = λ p w. (done [], w);
  unit_status = λ u w. (done (unit_state w.running), w);
  stop_unit = λ u w. (done tt, record w { running = false; live = false });
  start_transient = λ s w. (done tt, record w { running = true; live = true });
  reset_failed = λ u w. (done tt, w);
  recent_output = λ u w. ([], w);
  fusermount = λ newer p how w. (success, record w { live = false });
  create_dir_all = λ p w. (none, w);
  make_private = λ p w. (none, w);
  remove_socket = λ p w. w;
  current_exe = λ w. (none, w);
  is_file = λ p w. (true, w);
  lock = λ n w. w;
  lock_within = λ d n w. (true, w);
  lock_references = λ n w. (2, w);
}

abbrev serving : Machine
serving = record { clock = 0; live = true; running = true }

abbrev settings : Settings
settings =
    default_settings two_mounts (lit "/usr/bin/rclone") (lit "/run/user/1000/rvt") (lit "/etc/rvt")

abbrev photos_target : Target
photos_target = record {
  name = lit "photos";
  unit = lit "rvt-mount-photos.service";
  point = lit "/mnt/photos";
  fs_spec = lit "gdrive:pics";
}

machine-IsMonotonic : IsMonotonic machine
machine-IsMonotonic = record {
  slept = λ d w. omega arith;
  read = λ w. omega arith;
  asked = λ u w. omega arith;
  looked = λ p w. omega arith;
}

waits_end_example :
    WaitEnds
      (await_gone machine (lit "/mnt/photos") 1000 (record { world = serving; trace = [] })).0
    × WaitEnds
        (await_unit_gone machine
          (lit "/mnt/photos")
          1000
          (record { world = serving; trace = [] })).0
    × WaitEnds (await_ready machine settings photos (record { world = serving; trace = [] })).0
waits_end_example =
    waits_end machine machine-IsMonotonic settings photos (lit "/mnt/photos") 1000
      (record { world = serving; trace = [] })

unmount_held-Lawful_example :
    let (o, s) =
      unmount_held machine settings photos_target false (record { world = serving; trace = [] }) in
    Lawful photos_target false s.trace × (o ≡ ok tt → seen_free (lit "/mnt/photos") s.trace ≡ true)
unmount_held-Lawful_example = unmount_held-Lawful machine settings photos_target false serving

unmount-Lawful_example :
    let (o, s) =
      unmount machine settings (lit "photos") false (record { world = serving; trace = [] }) in
    Ends false
      (find_target machine settings
        (lit "photos")
        (record { world = serving; trace = locked (lit "photos") ∷ [] })).0
      o
      s.trace
unmount-Lawful_example = unmount-Lawful machine settings (lit "photos") false serving

abbrev idle : Machine
idle = record { clock = 0; live = false; running = false }

mount_by_name-Orderly_example :
    let (o, s) =
      mount_by_name machine settings (lit "photos") (record { world = idle; trace = [] }) in
    MountEnds (mount_config settings (lit "photos")) o s.trace
mount_by_name-Orderly_example = mount_by_name-Orderly machine settings (lit "photos") idle

-- The same machine with an rclone mount of somebody else's.
abbrev shared_machine : Host
shared_machine = record machine {
  read_mountinfo = λ w. (some (lit "37 35 0:63 / /srv/x rw shared:2 - fuse.rclone s3: rw"), w);
}

abbrev stopped : Run Machine
stopped = record { world = idle; trace = [] }

abbrev shared_rows : List DiscoveredMount
shared_rows =
    record { name = lit "photos"; state = unmounted; mount_point = some (lit "/mnt/photos") }
    ∷ record { name = lit "music"; state = unmounted; mount_point = some (lit "/mnt/music") }
    ∷ record { name = lit "/srv/x"; state = foreign; mount_point = some (lit "/srv/x") }
    ∷ []

shared_rows_read : (reconcile shared_machine settings stopped).0 ≡ ok shared_rows
unfolding reconcile live_mounts orphans configured_rows claimed_points orphan_rows foreign_rows
    resolve resolve_point from_unit resolved_point resolved mounted_at status_of is_mounted_at parse
    parse_line is_rclone text_eq sweep_units lines unescape
shared_rows_read = refl

reconcile_lem_example : Reconciled shared_machine settings stopped shared_rows
reconcile_lem_example = reconcile_lem shared_machine settings stopped shared_rows shared_rows_read
