-- ===== src/Service/Poller/Readings.antt =====
-- crates/service/src/poller.rs: each state that a poll makes is a reading of its own mount.
use rclone_vfsmount_tray.Prelude.{◌≡◌, refl, not, Option, List, arith, Text, if-holds}
use rclone_vfsmount_tray.Core.Rc.{RcError, is_unreachable}
use rclone_vfsmount_tray.Core.Message.{Message}
use rclone_vfsmount_tray.Core.Models.{CacheMode, Transfer, VfsQueue, DiskCache}
use rclone_vfsmount_tray.Core.Capabilities.{Answer, ok, err}
use rclone_vfsmount_tray.Core.Scan.{CacheScan}
use rclone_vfsmount_tray.Core.Transfer.{
  TransferState, unmonitored, from_queue, from_stats, from_scan, with_progress, with_cache_health,
  partially_observed, degraded,
}
use rclone_vfsmount_tray.Core.Transfer.Honesty.{
  Built, of_queue, of_stats, of_scan, of_nothing, healthy, partial, fallback,
}
use rclone_vfsmount_tray.Service.Poller.{
  CacheProbe, not_asked, absent, present, Scanned, timed_out, walked, walk_failed, walk_panicked,
  trusts, floor_reason, is_not_found, disk_reading, why_from_disk,
}
use rclone_vfsmount_tray.Service.Poller.Round.{
  QueueRead, reading, blind, lost, broken, counts_alone, read_queue, contradicted, qualify,
}

-- A state that the constructors of readings built, for this mount.
abbrev pub IsReading : Text → TransferState → Type 0
IsReading name s = Built s × (s.mount ≡ name)

pub nothing-IsReading : (name : Text) (m : Message) → IsReading name (unmonitored name m)
unfolding unmonitored
nothing-IsReading name m = (of_nothing name m, refl)

pub queue-IsReading : (name : Text) (q : VfsQueue) → IsReading name (from_queue name q)
unfolding from_queue unmonitored
queue-IsReading name q = (of_queue name q, ground arith)

pub counts-IsReading : (name : Text) (c : DiskCache) → IsReading name (from_stats name c)
unfolding from_stats
counts-IsReading name c = (of_stats name c, refl)

pub partial-IsReading :
    (name : Text) (s : TransferState) (m : Message)
    → IsReading name s
    → IsReading name (partially_observed s m)
unfolding partially_observed
partial-IsReading name s m h = (partial m h.0, h.1)

pub scan-mount : (name : Text) (found : CacheScan) → (from_scan name found).mount ≡ name
unfolding from_scan
scan-mount name found = refl

pub disk_reading-IsReading :
    (name : Text) (e : RcError) (mode : Option CacheMode) (scanned : Scanned)
    → IsReading name (disk_reading name e mode scanned)
unfolding disk_reading degraded
disk_reading-IsReading name e mode timed_out = nothing-IsReading name _
disk_reading-IsReading name e mode (walk_failed reason) = nothing-IsReading name _
disk_reading-IsReading name e mode (walk_panicked reason) = nothing-IsReading name _
disk_reading-IsReading name e mode (walked found) =
    let seen : IsReading name (from_scan name found) =
      (of_scan name found, scan-mount name found) in
    let why = why_from_disk e found mode in
    if-holds (IsReading name) (not found.root_present) _ _ (λ b. nothing-IsReading name _)
      (λ b.
        if-holds (IsReading name) (trusts mode) (degraded (from_scan name found) why)
          (partially_observed (from_scan name found) why) (λ c. (fallback why seen.0, seen.1))
          (λ c. partial-IsReading name (from_scan name found) why seen))

-- What is read of the queue, if there is anything to show.
abbrev pub ReadsOf : Text → QueueRead → Type 0
ReadsOf name (reading s) = IsReading name s
ReadsOf name (blind s) = IsReading name s
ReadsOf name (lost e) = Unit
ReadsOf name (broken e) = Unit

pub counts_alone-ReadsOf :
    (name : Text) (cache : CacheProbe) → ReadsOf name (counts_alone name cache)
unfolding counts_alone
counts_alone-ReadsOf name (present c mode) = counts-IsReading name c
counts_alone-ReadsOf name absent = nothing-IsReading name _
counts_alone-ReadsOf name not_asked = nothing-IsReading name _

pub read_queue-ReadsOf :
    (name : Text) (cache : CacheProbe) (a : Answer VfsQueue)
    → ReadsOf name (read_queue name cache a)
unfolding read_queue
read_queue-ReadsOf name cache (ok q) = queue-IsReading name q
read_queue-ReadsOf name cache (err e) =
    if-holds (ReadsOf name) (is_unreachable e) _ _ (λ f. tt)
      (λ f.
        if-holds (ReadsOf name) (is_not_found e) _ _ (λ g. counts_alone-ReadsOf name cache)
          (λ g. tt))

pub qualify-IsReading :
    (name : Text) (cache : CacheProbe) (s : TransferState)
    → IsReading name s
    → IsReading name (qualify cache s)
unfolding qualify with_cache_health
qualify-IsReading name not_asked s h = partial-IsReading name s _ h
qualify-IsReading name absent s h = partial-IsReading name s _ h
qualify-IsReading name (present c mode) s h =
    let seen : IsReading name (with_cache_health s c) = (healthy c h.0, h.1) in
    if-holds (IsReading name) (trusts mode) (with_cache_health s c)
      (partially_observed (with_cache_health s c) (floor_reason mode)) (λ e. seen)
      (λ e. partial-IsReading name (with_cache_health s c) (floor_reason mode) seen)

pub progress-mount : (s : TransferState) (ts : List Transfer) → (with_progress s ts).mount ≡ s.mount
unfolding with_progress
progress-mount s ts = ground arith

pub contradicted-IsReading :
    (name : Text) (cache : CacheProbe) (s : TransferState)
    → IsReading name s
    → IsReading name (contradicted name cache s)
unfolding contradicted
contradicted-IsReading name not_asked s h = h
contradicted-IsReading name absent s h = h
contradicted-IsReading name (present c mode) s h =
    partial-IsReading name (from_stats name c) _ (counts-IsReading name c)
