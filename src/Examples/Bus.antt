-- ===== src/Examples/Bus.antt =====
-- Mounts and readings on the bus.
use rclone_vfsmount_tray.Prelude.{
  ◌≡◌, refl, inl, inr, true, false, none, some, List, [], ◌∷◌, arith, Bool-cases, Text, lit,
  text_eq, get,
}
use rclone_vfsmount_tray.Core.Message.{named}
use rclone_vfsmount_tray.Core.Capabilities.{t2}
use rclone_vfsmount_tray.Core.Transfer.{TransferState, blank}
use rclone_vfsmount_tray.Core.Ipc.{MountView, TransferView, transfer_view, transfer_of_view}
use rclone_vfsmount_tray.Core.Ipc.Crossing.{transfer_of_view-transfer_view}
use rclone_vfsmount_tray.Service.Registry.{Registry, observe_mounts, pollable_view}
use rclone_vfsmount_tray.Service.Registry.Sweep.{
  last_named, observe_mounts-mounts, Kept, observe_mounts-Kept,
}
use rclone_vfsmount_tray.Service.Registry.Mirror.{Client, apply_all, observe_mounts-mirror}

abbrev a_reading : TransferState
a_reading = record (blank (lit "a") (some t2)) {
  files =
      record {
        name = lit "f";
        size = none;
        in_flight = some true;
        tries = some 2;
        bytes_sent = none;
      }
      ∷ [];
  rate_bytes_per_sec = some 1024;
  degraded_reason = some (named (lit "x"));
}

transfer_of_view-transfer_view_example : transfer_of_view (transfer_view a_reading) ≡ a_reading
transfer_of_view-transfer_view_example = transfer_of_view-transfer_view a_reading

abbrev a_view : TransferView
a_view = record {
  mount = lit "a";
  fidelity = some (lit "t9");
  outstanding_known = true;
  has_progress = false;
  pending_files = 1;
  pending_known_bytes = 10;
  pending_unknown_size_files = 0;
  uploading = none;
  errored_files = none;
  out_of_space = none;
  rate_bytes_per_sec = none;
  files = [];
  degraded_reason = none;
}

abbrev up : Text → MountView
up name = record {
  name = name;
  state = lit "mounted";
  live = true;
  managed = true;
  reason = none;
  mount_point = some name;
  remote = none;
}

abbrev one_mount : Registry
one_mount = record {
  mounts = (lit "a", up (lit "a")) ∷ [];
  transfers = (lit "a", a_view) ∷ [];
  best = none;
}

-- The mount is gone and another one is there.
abbrev next_sweep : List MountView
next_sweep = up (lit "b") ∷ []

observe_mounts-mounts_example :
    get (observe_mounts one_mount next_sweep).0.mounts (lit "a") ≡ last_named next_sweep (lit "a")
observe_mounts-mounts_example = observe_mounts-mounts one_mount next_sweep (lit "a")

one_mount-Kept : Kept one_mount
unfolding get pollable_view text_eq
one_mount-Kept k t h = elim (Bool-cases (text_eq (lit "a") k)) [
  | inl e ↦ (up (lit "a"), ground (arith, e), refl)
  | inr e ↦ ground (arith, h, e)
]

observe_mounts-Kept_example : Kept (observe_mounts one_mount next_sweep).0
observe_mounts-Kept_example = observe_mounts-Kept one_mount next_sweep one_mount-Kept

abbrev a_client : Client
a_client = record { mounts = (lit "a", up (lit "a")) ∷ []; transfers = [] }

observe_mounts-mirror_example :
    get (apply_all a_client (observe_mounts one_mount next_sweep).1).mounts (lit "b")
    ≡ get (observe_mounts one_mount next_sweep).0.mounts (lit "b")
unfolding get
observe_mounts-mirror_example =
    observe_mounts-mirror one_mount next_sweep a_client (inl refl, tt) (λ k. refl) (lit "b")
