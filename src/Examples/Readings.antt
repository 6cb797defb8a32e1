-- ===== src/Examples/Readings.antt =====
-- A queue, a scan and a reading of them.
use rclone_vfsmount_tray.Prelude.{
  ◌≤◌, ◌≡◌, refl, ◌↔◌, true, false, none, some, List, [], ◌∷◌, arith, lit, pos, negsuc, any, map,
}
use rclone_vfsmount_tray.Core.Rc.{timeout}
use rclone_vfsmount_tray.Core.Message.{rc_error}
use rclone_vfsmount_tray.Core.Models.{Transfer, QueueItem, VfsQueue, items, pending}
use rclone_vfsmount_tray.Core.Scan.{CacheScan}
use rclone_vfsmount_tray.Core.Capabilities.{Capabilities, tier, rank, has, t2}
use rclone_vfsmount_tray.Core.Capabilities.Ladder.{tier_antitone, Extends}
use rclone_vfsmount_tray.Core.Transfer.{
  TransferState, from_queue, from_scan, safe_to_unmount, degraded, blank, remaining_bytes,
  with_progress,
}
use rclone_vfsmount_tray.Core.Transfer.Progress.{carries_bytes, with_progress-from_queue}
use rclone_vfsmount_tray.Core.Transfer.Honesty.{of_queue, fallback, IsHonest, Built-IsHonest}
use rclone_vfsmount_tray.Core.Transfer.Totals.{
  known_sizes, unknown_sizes, pending_totals, from_queue-safe_to_unmount, from_scan-safe_to_unmount,
  remaining_bytes-left_to_send,
}

-- One item of 1000 bytes and one of unknown size.
abbrev two_items : List QueueItem
two_items =
    record { name = lit "a"; id = 1; size = pos 1000; tries = 0; uploading = true }
    ∷ record { name = lit "b"; id = 2; size = negsuc 0; tries = 3; uploading = false }
    ∷ []

abbrev two_queued : VfsQueue
two_queued = record { queue = some two_items }

pending_totals_example : pending (record { queue = some two_items }) ≡ record {
  files = 2;
  known_bytes = known_sizes two_items;
  unknown_size_files = unknown_sizes two_items;
}
pending_totals_example = pending_totals two_items (omega arith) (omega arith)

from_queue-safe_to_unmount_example :
    (safe_to_unmount (from_queue (lit "m") two_queued) ≡ true) ↔ (some two_items ≡ some [])
unfolding items
from_queue-safe_to_unmount_example = from_queue-safe_to_unmount (lit "m") two_queued (omega arith)

abbrev unread_scan : CacheScan
unread_scan = record { files = []; unreadable = 1; truncated = false; root_present = true }

from_scan-safe_to_unmount_example :
    (safe_to_unmount (from_scan (lit "m") unread_scan) ≡ true)
    ↔ ((unread_scan.files ≡ []) × (unread_scan.unreadable ≡ 0) × (false ≡ false) × (true ≡ true))
from_scan-safe_to_unmount_example = from_scan-safe_to_unmount (lit "m") unread_scan

-- One file half sent and one of unknown size.
abbrev half_sent : TransferState
half_sent = record (blank (lit "m") (some t2)) {
  pending = record { files = 2; known_bytes = 1000; unknown_size_files = 1 };
  files =
      record {
        name = lit "a";
        size = some 1000;
        in_flight = some true;
        tries = some 0;
        bytes_sent = some 500;
      }
      ∷ record {
        name = lit "b";
        size = none;
        in_flight = some false;
        tries = some 3;
        bytes_sent = some 7;
      }
      ∷ [];
}

remaining_bytes-left_to_send_example : remaining_bytes half_sent ≡ 500
unfolding blank
remaining_bytes-left_to_send_example =
    remaining_bytes-left_to_send half_sent refl (omega arith) (ground arith)

Built-IsHonest_example :
    IsHonest (degraded (from_queue (lit "m") two_queued) (rc_error (timeout (lit "vfs/stats"))))
Built-IsHonest_example =
    Built-IsHonest (fallback (rc_error (timeout (lit "vfs/stats"))) (of_queue (lit "m") two_queued))

abbrev old_rclone : Capabilities
old_rclone = record { commands = lit "vfs/stats" ∷ []; degraded = none }

abbrev new_rclone : Capabilities
new_rclone = record { commands = lit "vfs/queue" ∷ lit "vfs/stats" ∷ []; degraded = none }

old_new : Extends old_rclone new_rclone
unfolding has
old_new k h = ground (arith, h)

tier_antitone_example : rank (tier new_rclone) ≤ rank (tier old_rclone)
tier_antitone_example = tier_antitone old_rclone new_rclone old_new

-- The first file is half sent, and the second is not yet accounted for.
abbrev one_moving : List Transfer
one_moving =
    record {
      name = lit "a";
      size = pos 1000;
      bytes = pos 500;
      group = some (lit "g");
      src_fs = none;
    }
    ∷ record { name = lit "b"; size = negsuc 0; bytes = pos 0; group = none; src_fs = none }
    ∷ []

with_progress-from_queue_example :
    let s = from_queue (lit "m") two_queued in
    let after = with_progress s one_moving in
    (after.pending ≡ s.pending)
    × (after.outstanding_known ≡ s.outstanding_known)
    × (map (λ f. f.name) after.files ≡ map (λ f. f.name) s.files)
    × (map (λ f. f.size) after.files ≡ map (λ f. f.size) s.files)
    × (after.has_progress ≡ any carries_bytes after.files)
with_progress-from_queue_example = with_progress-from_queue (lit "m") two_queued one_moving
