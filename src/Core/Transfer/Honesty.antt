-- ===== src/Core/Transfer/Honesty.antt =====
-- crates/core/src/transfer.rs: the combinations of fields that the constructors never produce.
use rclone_vfsmount_tray.Prelude.{
  ℕ, ◌≡◌, ◌≢◌, true, false, Option, none, some, List, [], arith, Text,
}
use rclone_vfsmount_tray.Core.Message.{Message}
use rclone_vfsmount_tray.Core.Capabilities.{t1, t2, t3}
use rclone_vfsmount_tray.Core.Models.{Transfer, VfsQueue, DiskCache}
use rclone_vfsmount_tray.Core.Scan.{CacheScan}
use rclone_vfsmount_tray.Core.Transfer.{
  TransferState, unmonitored, from_queue, from_stats, from_scan, with_progress, with_cache_health,
  partially_observed, degraded, with_rate,
}

-- What is built by the public constructors and builders, in any order.
pub data Built : TransferState → Type 0 where
  of_queue : (mount : Text) (q : VfsQueue) → Built (from_queue mount q)
  of_stats : (mount : Text) (c : DiskCache) → Built (from_stats mount c)
  of_scan : (mount : Text) (found : CacheScan) → Built (from_scan mount found)
  of_nothing : (mount : Text) (reason : Message) → Built (unmonitored mount reason)
  progressed : {s : TransferState} (ts : List Transfer) → Built s → Built (with_progress s ts)
  healthy : {s : TransferState} (c : DiskCache) → Built s → Built (with_cache_health s c)
  partial : {s : TransferState} (reason : Message) → Built s → Built (partially_observed s reason)
  fallback : {s : TransferState} (reason : Message) → Built s → Built (degraded s reason)
  rated : {s : TransferState} (r : Option ℕ) → Built s → Built (with_rate s r)

pub record IsHonest (s : TransferState) : Type 0 where
  -- A reading that no source stands behind never says that it is the whole story.
  pub sourced : s.fidelity ≡ none → s.outstanding_known ≡ false
  -- Progress is only ever laid over a total that the queue gave.
  pub queue_only : s.has_progress ≡ true → s.fidelity ≡ some t2
  -- `core/stats` alone never gives the total.
  pub never_t1 : s.fidelity ≢ some t1
  -- Counts without sizes claim no bytes and name no file.
  pub counts_only : s.fidelity ≡ some t3 → (s.pending.known_bytes ≡ 0) × (s.files ≡ [])

from_queue-IsHonest : (mount : Text) (q : VfsQueue) → IsHonest (from_queue mount q)
unfolding from_queue
from_queue-IsHonest mount q = ground arith

with_progress-IsHonest :
    (s : TransferState) (ts : List Transfer) → IsHonest s → IsHonest (with_progress s ts)
unfolding with_progress
with_progress-IsHonest s ts h = ground arith

-- Whatever the constructors and builders are applied to, and in whatever order: a reading with no
-- source never claims to be complete, progress goes with a total from the queue, no total is
-- credited to `core/stats`, and a reading of counts alone has no bytes and no files.
pub Built-IsHonest : {s : TransferState} → Built s → IsHonest s
unfolding from_stats from_scan unmonitored with_cache_health partially_observed degraded with_rate
Built-IsHonest (of_queue mount q) = from_queue-IsHonest mount q
Built-IsHonest (of_stats mount c) = ground arith
Built-IsHonest (of_scan mount found) = ground arith
Built-IsHonest (of_nothing mount reason) = ground arith
Built-IsHonest (progressed ts b) = with_progress-IsHonest _ ts (Built-IsHonest b)
Built-IsHonest (healthy c b) = ground (arith, Built-IsHonest b)
Built-IsHonest (partial reason b) = ground (arith, Built-IsHonest b)
Built-IsHonest (fallback reason b) = ground (arith, Built-IsHonest b)
Built-IsHonest (rated r b) = ground (arith, Built-IsHonest b)
