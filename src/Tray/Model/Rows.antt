-- ===== src/Tray/Model/Rows.antt =====
-- crates/tray/src/model.rs: what one row of the tray says, and how the loop of `summary` gathers it.
use rclone_vfsmount_tray.Prelude.{
  ℕ, ◌+◌, ◌≡◌, refl, Bool, true, false, ◌&&◌, ◌||◌, Option, none, some, List, [], ◌∷◌, arith, ltb,
  if◌then◌else◌, unwrap_or, length, any, filter, lit, text_eq, sat_add, Map, get,
}
use rclone_vfsmount_tray.Core.Ipc.{MountView}
use rclone_vfsmount_tray.Core.Transfer.{TransferState}
use rclone_vfsmount_tray.Tray.Model.Summary.{
  Summary, is_blind, add_reading, count_failed, count_live, count_mount, count_mounts,
}

-- A mount that is up and that the service started.
abbrev pub is_served : MountView → Bool
is_served m = m.live && m.managed

-- What a reading says, of a served mount that has one.
abbrev pub reads : (TransferState → Bool) → Bool → Map TransferState → MountView → Bool
reads test missing transfers m =
    is_served m && elim (get transfers m.name) [ none ↦ missing | some t ↦ test t ]

unfoldable pub has_errors : TransferState → Bool
has_errors t = ltb 0 (unwrap_or t.errored_files 0) || unwrap_or t.out_of_space false

unfoldable pub has_pending : TransferState → Bool
has_pending t = ltb 0 t.pending.files

abbrev pub row_alarms : Map TransferState → MountView → Bool
row_alarms transfers m = text_eq m.state (lit "failed") || reads has_errors false transfers m

abbrev pub row_is_blind : Map TransferState → MountView → Bool
row_is_blind = reads is_blind true

abbrev pub row_is_pending : Map TransferState → MountView → Bool
row_is_pending = reads has_pending false

unfoldable pub alarms : Summary → Bool
alarms s = ltb 0 s.failed || ltb 0 s.errored || s.out_of_space

sat_add_pos : (a b : ℕ) → ltb 0 (sat_add a b) ≡ (ltb 0 a || ltb 0 b)
sat_add_pos a b = ground arith

-- The same of a reading that may be missing, for a mount that is up.
abbrev told : (TransferState → Bool) → Bool → Option TransferState → MountView → Bool
told test missing r m = m.managed && elim r [ none ↦ missing | some t ↦ test t ]

count_live-Gathers :
    (s : Summary) (r : Option TransferState) (m : MountView)
    → (alarms (count_live s r m) ≡ (alarms s || told has_errors false r m))
      × (ltb 0 (count_live s r m).unobservable ≡ (ltb 0 s.unobservable || told is_blind true r m))
      × (ltb 0 (count_live s r m).files ≡ (ltb 0 s.files || told has_pending false r m))
unfolding count_live add_reading alarms has_errors has_pending
count_live-Gathers s none m = ground arith
count_live-Gathers s (some t) m = ground (
  arith,
  sat_add_pos s.errored (unwrap_or t.errored_files 0),
  sat_add_pos s.files t.pending.files,
)

count_live-counts :
    (s : Summary) (r : Option TransferState) (m : MountView)
    → ((count_live s r m).live ≡ s.live + 1)
      × ((count_live s r m).unmanaged ≡ s.unmanaged + (if m.managed then 0 else 1))
unfolding count_live add_reading
count_live-counts s r m = ground arith

count_failed-kept :
    (s : Summary) (m : MountView)
    → (alarms (count_failed s m) ≡ (alarms s || text_eq m.state (lit "failed")))
      × ((count_failed s m).unobservable ≡ s.unobservable)
      × ((count_failed s m).files ≡ s.files)
      × ((count_failed s m).live ≡ s.live)
      × ((count_failed s m).unmanaged ≡ s.unmanaged)
unfolding count_failed alarms
count_failed-kept s m = ground arith

count_mount-alarms :
    (ts : Map TransferState) (s : Summary) (m : MountView)
    → alarms (count_mount ts s m) ≡ (alarms s || row_alarms ts m)
unfolding count_mount
count_mount-alarms ts s m =
    ground (
      arith,
      (count_failed-kept s m).0,
      (count_live-Gathers (count_failed s m) (get ts m.name) m).0,
    )

count_mount-blind :
    (ts : Map TransferState) (s : Summary) (m : MountView)
    → ltb 0 (count_mount ts s m).unobservable ≡ (ltb 0 s.unobservable || row_is_blind ts m)
unfolding count_mount
count_mount-blind ts s m =
    ground (
      arith,
      (count_failed-kept s m).1,
      (count_live-Gathers (count_failed s m) (get ts m.name) m).1,
    )

count_mount-pending :
    (ts : Map TransferState) (s : Summary) (m : MountView)
    → ltb 0 (count_mount ts s m).files ≡ (ltb 0 s.files || row_is_pending ts m)
unfolding count_mount
count_mount-pending ts s m =
    ground (
      arith,
      (count_failed-kept s m).2,
      (count_live-Gathers (count_failed s m) (get ts m.name) m).2,
    )

count_mount-counts :
    (ts : Map TransferState) (s : Summary) (m : MountView)
    → (count_mount ts s m).live + s.unmanaged
      ≡ s.live + (count_mount ts s m).unmanaged + (if is_served m then 1 else 0)
unfolding count_mount
count_mount-counts ts s m =
    ground (arith, count_failed-kept s m, count_live-counts (count_failed s m) (get ts m.name) m)

-- A test of the summary that each round widens by a test of the row.
fold-any :
    (ts : Map TransferState) (test : Summary → Bool) (row : MountView → Bool)
    → ((s : Summary) (m : MountView) → test (count_mount ts s m) ≡ (test s || row m))
    → (s : Summary) (ms : List MountView) → test (count_mounts ts s ms) ≡ (test s || any row ms)
unfolding count_mounts
fold-any ts test row step s [] = ground arith
fold-any ts test row step s (m ∷ ms) =
    ground (arith, step s m, fold-any ts test row step (count_mount ts s m) ms)

pub count_mounts-alarms :
    (ts : Map TransferState) (s : Summary) (ms : List MountView)
    → alarms (count_mounts ts s ms) ≡ (alarms s || any (row_alarms ts) ms)
count_mounts-alarms ts = fold-any ts alarms (row_alarms ts) (count_mount-alarms ts)

pub count_mounts-blind :
    (ts : Map TransferState) (s : Summary) (ms : List MountView)
    → ltb 0 (count_mounts ts s ms).unobservable ≡ (ltb 0 s.unobservable || any (row_is_blind ts) ms)
count_mounts-blind ts =
    fold-any ts (λ s. ltb 0 s.unobservable) (row_is_blind ts) (count_mount-blind ts)

pub count_mounts-pending :
    (ts : Map TransferState) (s : Summary) (ms : List MountView)
    → ltb 0 (count_mounts ts s ms).files ≡ (ltb 0 s.files || any (row_is_pending ts) ms)
count_mounts-pending ts =
    fold-any ts (λ s. ltb 0 s.files) (row_is_pending ts) (count_mount-pending ts)

abbrev pub served_count : List MountView → ℕ
served_count ms = length (filter is_served ms)

pub count_mounts-counts :
    (ts : Map TransferState) (s : Summary) (ms : List MountView)
    → (count_mounts ts s ms).live + s.unmanaged
      ≡ s.live + (count_mounts ts s ms).unmanaged + served_count ms
unfolding count_mounts
count_mounts-counts ts s [] = omega arith
count_mounts-counts ts s (m ∷ ms) =
    ground (arith, count_mount-counts ts s m, count_mounts-counts ts (count_mount ts s m) ms)

pub served_count-any : (ms : List MountView) → ltb 0 (served_count ms) ≡ any is_served ms
served_count-any [] = refl
served_count-any (m ∷ ms) = ground (arith, served_count-any ms)
