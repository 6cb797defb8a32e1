-- ===== src/Core/Transfer/Progress.antt =====
-- crates/core/src/transfer.rs: what `with_progress` changes.
use rclone_vfsmount_tray.Prelude.{
  ◌≡◌, refl, Bool, none, List, [], ◌∷◌, map, arith, is_some, any, Text,
}
use rclone_vfsmount_tray.Core.Models.{Transfer}
use rclone_vfsmount_tray.Core.Transfer.{
  TransferFile, with_progress, add_progress, gained, from_queue, queued_file,
}
use rclone_vfsmount_tray.Core.Models.{VfsQueue, QueueItem, items}

-- A file with a count of bytes.
abbrev pub carries_bytes : TransferFile → Bool
carries_bytes f = is_some f.bytes_sent

names_kept :
    (ts : List Transfer) (fs : List TransferFile)
    → (map (λ f. f.name) (map (add_progress ts) fs) ≡ map (λ f. f.name) fs)
      × (map (λ f. f.size) (map (add_progress ts) fs) ≡ map (λ f. f.size) fs)
unfolding add_progress
names_kept ts [] = (refl, refl)
names_kept ts (f ∷ fs) = ground (arith, names_kept ts fs)

gained-add_progress :
    (ts : List Transfer) (f : TransferFile)
    → f.bytes_sent ≡ none
    → gained ts f ≡ carries_bytes (add_progress ts f)
unfolding gained add_progress
gained-add_progress ts f e = ground (arith, e)

queued_gained :
    (ts : List Transfer) (i : QueueItem)
    → gained ts (queued_file i) ≡ carries_bytes (add_progress ts (queued_file i))
unfolding queued_file
queued_gained ts i = gained-add_progress ts (queued_file i) refl

gains :
    (ts : List Transfer) (is : List QueueItem)
    → any (gained ts) (map queued_file is)
      ≡ any carries_bytes (map (add_progress ts) (map queued_file is))
gains ts [] = refl
gains ts (i ∷ is) = cc (queued_gained ts i, gains ts is)

-- Laying progress over a reading of a queue keeps its totals, its names and its sizes, and says that
-- there is progress exactly when some file of it then has a count of bytes.
pub with_progress-from_queue :
    (mount : Text) (q : VfsQueue) (ts : List Transfer)
    → let s = from_queue mount q in
      let after = with_progress s ts in
      (after.pending ≡ s.pending)
      × (after.outstanding_known ≡ s.outstanding_known)
      × (map (λ f. f.name) after.files ≡ map (λ f. f.name) s.files)
      × (map (λ f. f.size) after.files ≡ map (λ f. f.size) s.files)
      × (after.has_progress ≡ any carries_bytes after.files)
unfolding from_queue with_progress
with_progress-from_queue mount q ts =
    ground (arith, names_kept ts (map queued_file (items q)), gains ts (items q))
