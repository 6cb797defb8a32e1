-- ===== src/Core/Transfer/Totals.antt =====
-- crates/core/src/transfer.rs and models.rs: the totals against the files they are taken from.
use rclone_vfsmount_tray.Prelude.{
  ℕ, ◌+◌, ◌-◌, ◌≤◌, ◌≡◌, ◌↔◌, inl, inr, true, false, none, some, List, [], ◌∷◌, arith,
  if◌then◌else◌, Option-cases, is_some, unwrap_or, length, All, Text, try_u64, u64_max, add64,
}
use rclone_vfsmount_tray.Core.Models.{
  QueueItem, VfsQueue, items, Pending, no_pending, add_item, pending_from, pending,
}
use rclone_vfsmount_tray.Core.Scan.{CacheScan}
use rclone_vfsmount_tray.Core.Transfer.{
  TransferFile, TransferState, from_queue, from_scan, safe_to_unmount, remaining_bytes, sum_sent,
}

-- The bytes of the items whose size is known.
abbrev pub known_sizes : List QueueItem → ℕ
known_sizes [] = 0
known_sizes (i ∷ is) = unwrap_or (try_u64 i.size) 0 + known_sizes is

-- How many items have no known size.
abbrev pub unknown_sizes : List QueueItem → ℕ
unknown_sizes [] = 0
unknown_sizes (i ∷ is) = (if is_some (try_u64 i.size) then 0 else 1) + unknown_sizes is

pending_from_lem :
    (p : Pending) (is : List QueueItem)
    → p.files + length is ≤ u64_max
    → p.known_bytes + known_sizes is ≤ u64_max
    → p.unknown_size_files ≤ p.files
    → pending_from p is ≡ record {
      files = p.files + length is;
      known_bytes = p.known_bytes + known_sizes is;
      unknown_size_files = p.unknown_size_files + unknown_sizes is;
    }
unfolding pending_from add_item
pending_from_lem p [] h k u = ground arith
pending_from_lem p (i ∷ is) h k u = ground (arith, pending_from_lem (add_item p i) is)

-- As long as neither the number of items nor their known sizes pass what 64 bits hold, the pending
-- figures of a queue are the number of its items, the sum of the sizes that are known and the number
-- of items whose size is not.
pub pending_totals :
    (is : List QueueItem)
    → length is ≤ u64_max
    → known_sizes is ≤ u64_max
    → pending (record { queue = some is }) ≡ record {
      files = length is;
      known_bytes = known_sizes is;
      unknown_size_files = unknown_sizes is;
    }
unfolding pending
pending_totals is h k = ground (arith, pending_from_lem no_pending is)

-- The count of the items does not depend on their sizes.
pending_from-files :
    (p : Pending) (is : List QueueItem)
    → p.files + length is ≤ u64_max
    → (pending_from p is).files ≡ p.files + length is
unfolding pending_from add_item
pending_from-files p [] h = ground arith
pending_from-files p (i ∷ is) h = ground (arith, pending_from-files (add_item p i) is)

safe_of_some :
    (mount : Text) (is : List QueueItem) (q : VfsQueue)
    → q.queue ≡ some is
    → length (items q) ≤ u64_max
    → (safe_to_unmount (from_queue mount q) ≡ true) ↔ (q.queue ≡ some [])
unfolding from_queue safe_to_unmount items pending
safe_of_some mount [] q e h = ground arith
safe_of_some mount (i ∷ is) q e h = ground (arith, pending_from-files no_pending (i ∷ is))

-- For a queue of no more items than 64 bits count, a reading taken from it says that it is safe to
-- unmount exactly when rclone reported a queue and that queue is empty.
pub from_queue-safe_to_unmount :
    (mount : Text) (q : VfsQueue)
    → length (items q) ≤ u64_max
    → (safe_to_unmount (from_queue mount q) ≡ true) ↔ (q.queue ≡ some [])
unfolding from_queue safe_to_unmount
from_queue-safe_to_unmount mount q h = elim (Option-cases q.queue) [
  | inl e ↦ ground (arith, e)
  | inr (is, e) ↦ safe_of_some mount is q e h
]

-- A reading taken from the cache on disk says that it is safe to unmount exactly when the walk found
-- the tree, read every entry of it, was not cut short, and found no dirty file.
pub from_scan-safe_to_unmount :
    (mount : Text) (found : CacheScan)
    → (safe_to_unmount (from_scan mount found) ≡ true) ↔ (
        (found.files ≡ [])
        × (found.unreadable ≡ 0)
        × (found.truncated ≡ false)
        × (found.root_present ≡ true))
unfolding from_scan safe_to_unmount
from_scan-safe_to_unmount mount found = ground arith

-- The sizes of the files that have one.
abbrev pub file_sizes : List TransferFile → ℕ
file_sizes [] = 0
file_sizes (f ∷ fs) = unwrap_or f.size 0 + file_sizes fs

-- What is left to send of one file of known size.
abbrev pub left_of : TransferFile → ℕ
left_of f = elim f.size [ none ↦ 0 | some n ↦ n - unwrap_or f.bytes_sent 0 ]

abbrev pub left_to_send : List TransferFile → ℕ
left_to_send [] = 0
left_to_send (f ∷ fs) = left_of f + left_to_send fs

-- No more was sent of a file than it holds.
abbrev pub WithinSize : TransferFile → Type 0
WithinSize f = is_some f.size ≡ true → unwrap_or f.bytes_sent 0 ≤ unwrap_or f.size 0

sum_sent_lem :
    (fs : List TransferFile) (acc : ℕ)
    → All WithinSize fs
    → acc + file_sizes fs ≤ u64_max
    → sum_sent fs acc + left_to_send fs ≡ acc + file_sizes fs
unfolding sum_sent
sum_sent_lem [] acc w h = omega arith
sum_sent_lem (f ∷ fs) acc w h = ground (
  arith,
  w.0,
  sum_sent_lem fs acc w.1,
  sum_sent_lem fs (add64 acc (unwrap_or f.bytes_sent 0)) w.1,
)

-- Where the total is the sum of the sizes that are known, fits 64 bits, and no file has sent more
-- than it holds, the remaining bytes are, summed over the files of known size, each file's size less
-- what was sent of it. What was sent of a file of unknown size is not subtracted.
pub remaining_bytes-left_to_send :
    (s : TransferState)
    → s.pending.known_bytes ≡ file_sizes s.files
    → file_sizes s.files ≤ u64_max
    → All WithinSize s.files
    → remaining_bytes s ≡ left_to_send s.files
unfolding remaining_bytes
remaining_bytes-left_to_send s e h w = omega (arith, sum_sent_lem s.files 0 w (omega arith))
