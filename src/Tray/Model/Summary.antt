-- ===== src/Tray/Model/Summary.antt =====
-- crates/tray/src/model.rs: the readings that the icon, the tooltip and the menu take from the state.
-- Lines are the parts they are pushed together from; an amount of bytes is left unrendered.
use rclone_vfsmount_tray.Prelude.{
  ℕ, ◌+◌, Bool, true, false, not, ◌&&◌, ◌||◌, Option, none, some, List, [], ◌∷◌, ltb, ◌==◌,
  if◌then◌else◌, is_some, unwrap_or, length, Text, lit, text_eq, sat_add, Map, get, values,
}
use rclone_vfsmount_tray.Core.Capabilities.{t4}
use rclone_vfsmount_tray.Core.Ipc.{MountView}
use rclone_vfsmount_tray.Core.Transfer.{TransferState, has_byte_total, remaining_bytes}
use rclone_vfsmount_tray.Tray.Model.{connecting, down, up, TrayModel}

pub data TrayState : Type 0 where
  connecting_state disconnected attention degraded_state syncing offline idle : TrayState

unfoldable pub icon_name : TrayState → Text
icon_name connecting_state = lit "image-loading"
icon_name disconnected = lit "network-error"
icon_name attention = lit "dialog-warning"
icon_name degraded_state = lit "dialog-question"
icon_name syncing = lit "sync-synchronizing"
icon_name offline = lit "network-offline"
icon_name idle = lit "folder-remote"

unfoldable pub needs_attention : TrayState → Bool
needs_attention attention = true
needs_attention _ = false

unfoldable pub label : TrayState → Text
label connecting_state = lit "Connecting…"
label disconnected = lit "Service unreachable"
label attention = lit "Needs attention"
label degraded_state = lit "State partly unknown"
label syncing = lit "Uploading"
label offline = lit "Nothing mounted"
label idle = lit "Up to date"

-- The counts of rows are `usize` and start at zero, with one step for each row that there is.
pub record Summary : Type 0 where
  pub total : ℕ
  pub live : ℕ
  pub failed : ℕ
  pub unobservable : ℕ
  pub unmanaged : ℕ
  pub files : ℕ
  pub bytes : ℕ
  pub unknown_size_files : ℕ
  pub errored : ℕ
  pub out_of_space : Bool
  pub rate : Option ℕ
  pub remaining : Option ℕ
  pub dirty_on_disk_only : Bool

-- `Summary::default()` with the count of rows; `remaining` starts at zero in the loop.
unfoldable pub summary_start : ℕ → Summary
summary_start total = record {
  total = total;
  live = 0;
  failed = 0;
  unobservable = 0;
  unmanaged = 0;
  files = 0;
  bytes = 0;
  unknown_size_files = 0;
  errored = 0;
  out_of_space = false;
  rate = none;
  remaining = some 0;
  dirty_on_disk_only = false;
}

-- Whether a reading cannot be vouched for.
unfoldable pub is_blind : TransferState → Bool
is_blind t = is_some t.degraded_reason || not t.outstanding_known

-- Whether the bytes that a pending mount has left to send can be told.
unfoldable pub vouched : TransferState → Bool
unfolding has_byte_total
vouched t = has_byte_total t && t.outstanding_known && (t.pending.unknown_size_files == 0)

unfoldable pub add_remaining : Option ℕ → TransferState → Option ℕ
unfolding vouched
add_remaining remaining t = elim remaining [
  | none ↦ none
  | some acc ↦ if vouched t then some (sat_add acc (remaining_bytes t)) else none
]

-- The rest of a round, for a live mount of the service with this reading.
unfoldable pub add_reading : Summary → TransferState → Summary
unfolding is_blind add_remaining
add_reading s t = record s {
  unobservable = if is_blind t then s.unobservable + 1 else s.unobservable;
  files = sat_add s.files t.pending.files;
  bytes = sat_add s.bytes t.pending.known_bytes;
  unknown_size_files = sat_add s.unknown_size_files t.pending.unknown_size_files;
  errored = sat_add s.errored (unwrap_or t.errored_files 0);
  out_of_space = s.out_of_space || unwrap_or t.out_of_space false;
  rate = elim t.rate_bytes_per_sec [
    | none ↦ s.rate
    | some r ↦ some (sat_add (unwrap_or s.rate 0) r)
  ];
  remaining = if ltb 0 t.pending.files then add_remaining s.remaining t else s.remaining;
  dirty_on_disk_only = s.dirty_on_disk_only || elim t.fidelity [ some t4 ↦ true | _ ↦ false ];
}

unfoldable pub count_failed : Summary → MountView → Summary
count_failed s m = if text_eq m.state (lit "failed") then record s { failed = s.failed + 1 } else s

unfoldable pub count_live : Summary → Option TransferState → MountView → Summary
unfolding add_reading
count_live s reading m =
    let serving = record s { live = s.live + 1 } in
    if not m.managed then record serving { unmanaged = s.unmanaged + 1 } else elim reading [
      | none ↦ record serving { unobservable = s.unobservable + 1 }
      | some t ↦ add_reading serving t
    ]

-- One round of the loop of `summary`.
unfoldable pub count_mount : Map TransferState → Summary → MountView → Summary
unfolding count_failed count_live
count_mount transfers s m =
    let counted = count_failed s m in
    if not m.live then counted else count_live counted (get transfers m.name) m

unfoldable pub count_mounts : Map TransferState → Summary → List MountView → Summary
count_mounts transfers s [] = s
count_mounts transfers s (m ∷ ms) = count_mounts transfers (count_mount transfers s m) ms

-- `remaining.filter(|_| s.unobservable == 0)`.
unfoldable pub settle_summary : Summary → Summary
settle_summary s = record s { remaining = if s.unobservable == 0 then s.remaining else none }

-- `TrayModel::summary`.
unfoldable pub summary : TrayModel → Summary
unfolding summary_start count_mounts count_mount settle_summary
summary m =
    settle_summary (count_mounts m.transfers (summary_start (length m.mounts)) (values m.mounts))

-- What `state` makes of the summary.
unfoldable pub summary_state : Summary → TrayState
summary_state s =
    if ltb 0 s.failed || ltb 0 s.errored || s.out_of_space
    then attention
    else if ltb 0 s.unobservable
    then degraded_state
    else if ltb 0 s.files
    then syncing
    else if s.live == s.unmanaged
    then offline
    else idle

-- `TrayModel::state`.
unfoldable pub tray_state : TrayModel → TrayState
unfolding summary_state
tray_state m = elim m.link [
  | connecting ↦ connecting_state
  | down _ ↦ disconnected
  | up _ ↦ summary_state (summary m)
]

-- `TrayModel::headline`.
unfoldable pub headline : TrayModel → Text
unfolding tray_state label
headline m = if (summary m).unmanaged == 0 then label (tray_state m) else elim (tray_state m) [
  | idle ↦ lit "Managed mounts up to date"
  | offline ↦ lit "No managed mounts up"
  | other ↦ label other
]
