-- ===== src/Core/Models.antt =====
-- crates/core/src/models.rs and CacheMode of config.rs: what rclone answers over rc, after decoding.
-- Fields that no code here reads (f64 rates and times among them) are left out.
use rclone_vfsmount_tray.Prelude.{
  ℕ, zero, suc, Bool, true, false, ◌&&◌, Option, none, some, List, [], ◌∷◌, ◌==◌, if◌then◌else◌,
  is_some, unwrap_or, filter, Text, lit, text_eq, ℤ, try_u64, add64,
}

pub data CacheMode : Type 0 where
  off minimal writes full : CacheMode

-- `CacheMode::has_writeback`.
unfoldable pub has_writeback : CacheMode → Bool
has_writeback off = false
has_writeback _ = true

-- `CacheMode::all_writes_queued`.
unfoldable pub all_writes_queued : CacheMode → Bool
all_writes_queued writes = true
all_writes_queued full = true
all_writes_queued _ = false

abbrev pub global_stats_group : Text
global_stats_group = lit "global_stats"

pub record Transfer : Type 0 where
  pub name : Text
  pub size : ℤ
  pub bytes : ℤ
  pub group : Option Text
  pub src_fs : Option Text

unfoldable pub has_accounting : Transfer → Bool
has_accounting t = is_some t.group

unfoldable pub is_ungrouped : Transfer → Bool
is_ungrouped t = elim t.group [ none ↦ false | some g ↦ text_eq g global_stats_group ]

-- What follows the first `}:`, if there is one.
unfoldable pub after_tag : Text → Option Text
after_tag [] = none
after_tag (c ∷ []) = none
after_tag (c ∷ d ∷ s) = if (c == b'}') && (d == b':') then some s else after_tag (d ∷ s)

-- `strip_backend_tag`: an overridden backend reads `:name{hash}:path`.
unfoldable pub strip_backend_tag : Text → Text
unfolding after_tag
strip_backend_tag [] = []
strip_backend_tag (c ∷ s) = if c == b':' then unwrap_or (after_tag s) (c ∷ s) else c ∷ s

unfoldable pub belongs_to_cache : Transfer → Text → Bool
belongs_to_cache t [] = false
belongs_to_cache t (c ∷ path) = elim t.src_fs [
  | none ↦ false
  | some src ↦ text_eq (strip_backend_tag src) (c ∷ path)
]

unfoldable pub is_writeback_upload : Transfer → Text → Bool
unfolding is_ungrouped belongs_to_cache
is_writeback_upload t cache_path = is_ungrouped t && belongs_to_cache t cache_path

pub record CoreStats : Type 0 where
  pub transferring : Option (List Transfer)

unfoldable pub transfers_slice : CoreStats → List Transfer
transfers_slice s = unwrap_or s.transferring []

unfoldable pub writeback_uploads : CoreStats → Text → List Transfer
unfolding transfers_slice is_writeback_upload
writeback_uploads s cache_path = filter (λ t. is_writeback_upload t cache_path) (transfers_slice s)

pub record QueueItem : Type 0 where
  pub name : Text
  pub id : ℕ
  pub size : ℤ
  pub tries : ℕ
  pub uploading : Bool

pub record VfsQueue : Type 0 where
  pub queue : Option (List QueueItem)

unfoldable pub items : VfsQueue → List QueueItem
items q = unwrap_or q.queue []

unfoldable pub reported_queue : VfsQueue → Bool
reported_queue q = is_some q.queue

pub record Pending : Type 0 where
  pub files : ℕ
  pub known_bytes : ℕ
  pub unknown_size_files : ℕ

abbrev pub no_pending : Pending
no_pending = record { files = 0; known_bytes = 0; unknown_size_files = 0 }

-- One round of the loop of `VfsQueue::pending`.
unfoldable pub add_item : Pending → QueueItem → Pending
add_item p item = elim (try_u64 item.size) [
  | some bytes ↦ record p { files = add64 p.files 1; known_bytes = add64 p.known_bytes bytes }
  | none ↦ record p { files = add64 p.files 1; unknown_size_files = add64 p.unknown_size_files 1 }
]

unfoldable pub pending_from : Pending → List QueueItem → Pending
pending_from p [] = p
pending_from p (item ∷ rest) = pending_from (add_item p item) rest

-- `VfsQueue::pending`.
unfoldable pub pending : VfsQueue → Pending
unfolding pending_from add_item items
pending q = pending_from no_pending (items q)

unfoldable pub is_exact : Pending → Bool
is_exact p = p.unknown_size_files == 0

pub record DiskCache : Type 0 where
  pub errored_files : ℕ
  pub out_of_space : Bool
  pub path : Text
  pub path_meta : Text
  pub uploads_in_progress : ℕ
  pub uploads_queued : ℕ

-- `opt` is only asked for `CacheMode` as an unsigned number: this is what that finds.
pub record VfsStats : Type 0 where
  pub disk_cache : Option DiskCache
  pub opt_cache_mode : Option ℕ

mode_of : ℕ → Option CacheMode
mode_of zero = some off
mode_of (suc zero) = some minimal
mode_of (suc (suc zero)) = some writes
mode_of (suc (suc (suc zero))) = some full
mode_of (suc (suc (suc (suc n)))) = none

-- `VfsStats::cache_mode`.
unfoldable pub cache_mode : VfsStats → Option CacheMode
unfolding mode_of
cache_mode s = elim s.opt_cache_mode [ none ↦ none | some n ↦ mode_of n ]
