-- ===== src/Core/Ipc.antt =====
-- crates/core/src/ipc.rs: the types that cross D-Bus, and their conversions. An error that crosses
-- is its name and the error that its text was made from.
pub mod Crossing
use rclone_vfsmount_tray.Prelude.{
  ℕ, zero, suc, ◌+◌, ◌-◌, ◌*◌, ◌/◌, ◌%◌, ◌^◌, ◌≤◌, ◌<◌, min, max, ◌≡◌, refl, sym, ap, ◌∙◌, subst,
  ◌≢◌, ◌↔◌, ◌⊎◌, inl, inr, Bool, true, false, not, ◌&&◌, ◌||◌, Option, none, some, List, [], ◌∷◌,
  ◌++◌, map, arith, dec_lt, ℕ_discrete, ltb, leb, ◌==◌, if◌then◌else◌, ==_iff, Bool-cases,
  Option-cases, is_some, unwrap_or, is_yes, length, any, all, find, filter, All, length-append,
  length-filter-le, find-eq_some, length-map, filter_map, Text, lit, text_eq, text_eq-eq,
  text_eq_refl, text_eq_iff, has_char, strip_prefix, strip_prefix-append, strip_prefix-eq_some, ℤ,
  pos, negsuc, try_u64, u64_max, add64, sat_add, add64_exact, sat_add-le_max, Map, get, insert,
  remove, contains_key, values, keys, get-insert, get-remove, text_lt,
}
use rclone_vfsmount_tray.Core.Message.{Message, said, Message-discrete}
use rclone_vfsmount_tray.Core.Capabilities.{Tier, t1, t2, t3, t4}
use rclone_vfsmount_tray.Core.Transfer.{TransferFile, TransferState}
use rclone_vfsmount_tray.Core.Supervisor.{
  MountState, unmounted, mounting, mounted, unmounting, failed, foreign, orphaned, is_live,
  is_managed, DiscoveredMount, SupervisorError, unknown_mount, bad_mount_point, rclone_failed,
  pending_uploads, busy, supervision, not_managed,
}

pub data ErrorName : Type 0 where
  unknown_mount_name bad_mount_point_name rclone_failed_name pending_uploads_name : ErrorName
  busy_name supervision_name not_managed_name : ErrorName

pub record IpcError : Type 0 where
  pub name : ErrorName
  pub body : SupervisorError

unfoldable pub error_name : SupervisorError → ErrorName
error_name (unknown_mount name) = unknown_mount_name
error_name (bad_mount_point path reason source) = bad_mount_point_name
error_name (rclone_failed reason) = rclone_failed_name
error_name (pending_uploads p) = pending_uploads_name
error_name (busy detail) = busy_name
error_name (supervision context source) = supervision_name
error_name (not_managed detail) = not_managed_name

unfoldable pub ipc_error : SupervisorError → IpcError
unfolding error_name
ipc_error e = record { name = error_name e; body = e }

pub record MountView : Type 0 where
  pub name : Text
  pub state : Text
  pub live : Bool
  pub managed : Bool
  pub reason : Option Message
  pub mount_point : Option Text
  pub remote : Option Text

unfoldable pub state_name : MountState → Text
state_name unmounted = lit "unmounted"
state_name mounting = lit "mounting"
state_name mounted = lit "mounted"
state_name unmounting = lit "unmounting"
state_name (failed reason) = lit "failed"
state_name foreign = lit "foreign"
state_name orphaned = lit "orphaned"

unfoldable pub state_from_name : Text → Option Message → Option MountState
state_from_name name reason =
    if text_eq name (lit "unmounted")
    then some unmounted
    else if text_eq name (lit "mounting")
    then some mounting
    else if text_eq name (lit "mounted")
    then some mounted
    else if text_eq name (lit "unmounting")
    then some unmounting
    else if text_eq name (lit "failed")
    then some (failed (unwrap_or reason (said [])))
    else if text_eq name (lit "foreign")
    then some foreign
    else if text_eq name (lit "orphaned")
    then some orphaned
    else none

unfoldable pub reason_of : MountState → Option Message
reason_of (failed reason) = some reason
reason_of _ = none

-- `MountView::from(&DiscoveredMount)`. Paths are text, so nothing is lost in rendering one.
unfoldable pub mount_view : DiscoveredMount → MountView
unfolding state_name reason_of is_live is_managed
mount_view m = record {
  name = m.name;
  state = state_name m.state;
  live = is_live m.state;
  managed = is_managed m.state;
  reason = reason_of m.state;
  mount_point = m.mount_point;
  remote = none;
}

pub record TransferFileView : Type 0 where
  pub name : Text
  pub size : Option ℕ
  pub in_flight : Option Bool
  pub tries : Option ℕ
  pub bytes_sent : Option ℕ

unfoldable pub file_view : TransferFile → TransferFileView
file_view f = record {
  name = f.name;
  size = f.size;
  in_flight = f.in_flight;
  tries = f.tries;
  bytes_sent = f.bytes_sent;
}

unfoldable pub file_of_view : TransferFileView → TransferFile
file_of_view f = record {
  name = f.name;
  size = f.size;
  in_flight = f.in_flight;
  tries = f.tries;
  bytes_sent = f.bytes_sent;
}

pub record TransferView : Type 0 where
  pub mount : Text
  pub fidelity : Option Text
  pub outstanding_known : Bool
  pub has_progress : Bool
  pub pending_files : ℕ
  pub pending_known_bytes : ℕ
  pub pending_unknown_size_files : ℕ
  pub uploading : Option ℕ
  pub errored_files : Option ℕ
  pub out_of_space : Option Bool
  pub rate_bytes_per_sec : Option ℕ
  pub files : List TransferFileView
  pub degraded_reason : Option Message

unfoldable pub tier_name : Tier → Text
tier_name t1 = lit "T1"
tier_name t2 = lit "T2"
tier_name t3 = lit "T3"
tier_name t4 = lit "T4"

unfoldable pub tier_from_name : Text → Option Tier
tier_from_name name =
    if text_eq name (lit "T1")
    then some t1
    else if text_eq name (lit "T2")
    then some t2
    else if text_eq name (lit "T3")
    then some t3
    else if text_eq name (lit "T4")
    then some t4
    else none

-- `TransferView::from(&TransferState)`.
unfoldable pub transfer_view : TransferState → TransferView
unfolding tier_name file_view
transfer_view s = record {
  mount = s.mount;
  fidelity = elim s.fidelity [ none ↦ none | some t ↦ some (tier_name t) ];
  outstanding_known = s.outstanding_known;
  has_progress = s.has_progress;
  pending_files = s.pending.files;
  pending_known_bytes = s.pending.known_bytes;
  pending_unknown_size_files = s.pending.unknown_size_files;
  uploading = s.uploading;
  errored_files = s.errored_files;
  out_of_space = s.out_of_space;
  rate_bytes_per_sec = s.rate_bytes_per_sec;
  files = map file_view s.files;
  degraded_reason = s.degraded_reason;
}

-- `TransferState::from(&TransferView)`.
unfoldable pub transfer_of_view : TransferView → TransferState
unfolding tier_from_name file_of_view
transfer_of_view v = record {
  mount = v.mount;
  fidelity = elim v.fidelity [ none ↦ none | some name ↦ tier_from_name name ];
  outstanding_known = v.outstanding_known;
  has_progress = v.has_progress;
  pending = record {
    files = v.pending_files;
    known_bytes = v.pending_known_bytes;
    unknown_size_files = v.pending_unknown_size_files;
  };
  uploading = v.uploading;
  errored_files = v.errored_files;
  out_of_space = v.out_of_space;
  rate_bytes_per_sec = v.rate_bytes_per_sec;
  files = map file_of_view v.files;
  degraded_reason = v.degraded_reason;
}

pub MountView-discrete : Discrete MountView
MountView-discrete = hlevel (ℕ_discrete, Message-discrete)

pub TransferFileView-discrete : Discrete TransferFileView
TransferFileView-discrete = hlevel ℕ_discrete

pub TransferView-discrete : Discrete TransferView
TransferView-discrete = hlevel (ℕ_discrete, Message-discrete, TransferFileView-discrete)
