-- ===== src/Core/Transfer.antt =====
-- crates/core/src/transfer.rs: what is outstanding for a mount, and how far that can be trusted.
pub mod Honesty
pub mod Totals
pub mod Progress
pub mod Rate
use rclone_vfsmount_tray.Prelude.{
  ℕ, zero, suc, ◌+◌, ◌-◌, ◌*◌, ◌/◌, ◌%◌, ◌^◌, ◌≤◌, ◌<◌, min, max, ◌≡◌, refl, sym, ap, ◌∙◌, subst,
  ◌≢◌, ◌↔◌, ◌⊎◌, inl, inr, Bool, true, false, not, ◌&&◌, ◌||◌, Option, none, some, List, [], ◌∷◌,
  ◌++◌, map, arith, dec_lt, ℕ_discrete, ltb, leb, ◌==◌, if◌then◌else◌, ==_iff, Bool-cases,
  Option-cases, is_some, unwrap_or, is_yes, length, any, all, find, filter, All, length-append,
  length-filter-le, find-eq_some, length-map, filter_map, Text, lit, text_eq, text_eq-eq,
  text_eq_refl, text_eq_iff, has_char, strip_prefix, strip_prefix-append, strip_prefix-eq_some, ℤ,
  pos, negsuc, try_u64, u64_max, add64, sat_add, add64_exact, sat_add-le_max,
}
use rclone_vfsmount_tray.Core.Message.{Message, no_write_back_queue}
use rclone_vfsmount_tray.Core.Capabilities.{Tier, t1, t2, t3, t4}
use rclone_vfsmount_tray.Core.Models.{
  Transfer, has_accounting, QueueItem, VfsQueue, items, reported_queue, Pending, no_pending,
  pending, DiskCache,
}
use rclone_vfsmount_tray.Core.Scan.{DirtyFile, CacheScan, known_bytes, is_complete}

pub record TransferFile : Type 0 where
  pub name : Text
  pub size : Option ℕ
  pub in_flight : Option Bool
  pub tries : Option ℕ
  pub bytes_sent : Option ℕ

pub record TransferState : Type 0 where
  pub mount : Text
  pub fidelity : Option Tier
  pub outstanding_known : Bool
  pub has_progress : Bool
  pub pending : Pending
  pub uploading : Option ℕ
  pub errored_files : Option ℕ
  pub out_of_space : Option Bool
  pub rate_bytes_per_sec : Option ℕ
  pub files : List TransferFile
  pub degraded_reason : Option Message

-- `TransferState::empty`.
unfoldable pub blank : Text → Option Tier → TransferState
blank mount fidelity = record {
  mount = mount;
  fidelity = fidelity;
  outstanding_known = true;
  has_progress = false;
  pending = no_pending;
  uploading = none;
  errored_files = none;
  out_of_space = none;
  rate_bytes_per_sec = none;
  files = [];
  degraded_reason = none;
}

unfoldable pub unmonitored : Text → Message → TransferState
unfolding blank
unmonitored mount reason = record (blank mount none) {
  outstanding_known = false;
  degraded_reason = some reason;
}

unfoldable pub queued_file : QueueItem → TransferFile
queued_file i = record {
  name = i.name;
  size = try_u64 i.size;
  in_flight = some i.uploading;
  tries = some i.tries;
  bytes_sent = none;
}

unfoldable pub from_queue : Text → VfsQueue → TransferState
unfolding blank unmonitored reported_queue
from_queue mount queue =
    if reported_queue queue
    then record (blank mount (some t2)) {
      pending = pending queue;
      uploading = some (length (filter (λ i. i.uploading) (items queue)));
      files = map queued_file (items queue);
    }
    else unmonitored mount no_write_back_queue

unfoldable pub from_stats : Text → DiskCache → TransferState
unfolding blank
from_stats mount cache =
    let files = add64 cache.uploads_in_progress cache.uploads_queued in
    record (blank mount (some t3)) {
      uploading = some cache.uploads_in_progress;
      errored_files = some cache.errored_files;
      out_of_space = some cache.out_of_space;
      pending = record { files = files; known_bytes = 0; unknown_size_files = files };
    }

unfoldable pub scanned_file : DirtyFile → TransferFile
scanned_file f = record {
  name = f.name;
  size = f.bytes;
  in_flight = none;
  tries = none;
  bytes_sent = none;
}

unfoldable pub from_scan : Text → CacheScan → TransferState
unfolding blank is_complete
from_scan mount found = record (blank mount (some t4)) {
  outstanding_known = is_complete found && found.root_present;
  pending = record {
    files = length found.files;
    known_bytes = known_bytes found;
    unknown_size_files = length (filter (λ f. not (is_some f.bytes)) found.files);
  };
  files = map scanned_file found.files;
}

-- The first transfer of this name that rclone keeps account of.
unfoldable pub matching : List Transfer → Text → Option Transfer
unfolding has_accounting
matching transferring name = find (λ t. text_eq t.name name && has_accounting t) transferring

unfoldable pub add_progress : List Transfer → TransferFile → TransferFile
add_progress transferring f = elim (matching transferring f.name) [
  | none ↦ f
  | some t ↦ record f { bytes_sent = try_u64 t.bytes }
]

-- Whether the loop sets `any` at this file.
unfoldable pub gained : List Transfer → TransferFile → Bool
gained transferring f = elim (matching transferring f.name) [
  | none ↦ false
  | some t ↦ is_some (try_u64 t.bytes)
]

unfoldable pub with_progress : TransferState → List Transfer → TransferState
with_progress s transferring = elim s.fidelity [
  | some t2 ↦ record s {
    files = map (add_progress transferring) s.files;
    has_progress = any (gained transferring) s.files;
  }
  | _ ↦ s
]

unfoldable pub with_cache_health : TransferState → DiskCache → TransferState
with_cache_health s cache = record s {
  errored_files = some cache.errored_files;
  out_of_space = some cache.out_of_space;
}

unfoldable pub partially_observed : TransferState → Message → TransferState
partially_observed s reason = record s { outstanding_known = false; degraded_reason = some reason }

unfoldable pub degraded : TransferState → Message → TransferState
degraded s reason = record s { degraded_reason = some reason }

unfoldable pub with_rate : TransferState → Option ℕ → TransferState
with_rate s bytes_per_sec = record s { rate_bytes_per_sec = bytes_per_sec }

unfoldable pub is_idle : TransferState → Bool
is_idle s = s.outstanding_known && (s.pending.files == 0)

unfoldable pub safe_to_unmount : TransferState → Bool
unfolding is_idle
safe_to_unmount s = is_idle s

unfoldable pub has_byte_total : TransferState → Bool
has_byte_total s = elim s.fidelity [ none ↦ false | some t3 ↦ false | some _ ↦ true ]

-- The bytes already sent, of the files whose size is known.
unfoldable pub sum_sent : List TransferFile → ℕ → ℕ
sum_sent [] acc = acc
sum_sent (f ∷ fs) acc =
    sum_sent fs (elim f.size [
      | none ↦ acc
      | some n ↦ elim f.bytes_sent [ none ↦ acc | some b ↦ add64 acc b ]
    ])

-- `saturating_sub` is the subtraction of ℕ.
unfoldable pub remaining_bytes : TransferState → ℕ
remaining_bytes s = s.pending.known_bytes - sum_sent s.files 0
