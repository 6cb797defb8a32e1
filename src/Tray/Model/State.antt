-- ===== src/Tray/Model/State.antt =====
-- crates/tray/src/model.rs: what the icon says against what the rows say.
use rclone_vfsmount_tray.Prelude.{
  ℕ, ◌+◌, ◌≡◌, refl, ◌≢◌, ◌↔◌, Bool, true, false, not, some, List, [], ◌∷◌, ◌++◌, arith, ltb, ◌==◌,
  if◌then◌else◌, length, any, Map, values,
}
use rclone_vfsmount_tray.Core.Ipc.{MountView}
use rclone_vfsmount_tray.Core.Transfer.{TransferState}
use rclone_vfsmount_tray.Tray.Model.{connecting, down, up, TrayModel}
use rclone_vfsmount_tray.Tray.Model.Summary.{
  TrayState, connecting_state, disconnected, attention, degraded_state, syncing, offline, idle,
  Summary, summary_start, settle_summary, summary, summary_state, tray_state,
}
use rclone_vfsmount_tray.Tray.Model.Lines.{
  pending_line, all_synced, pending_phrase, files_and_bytes, and_possibly_more,
}
use rclone_vfsmount_tray.Tray.Model.Rows.{
  is_served, row_alarms, row_is_blind, row_is_pending, alarms, count_mounts-alarms,
  count_mounts-blind, count_mounts-pending, count_mounts-counts, served_count, served_count-any,
}

-- The loudest of what the rows say, each looked for by itself.
abbrev pub loudest : Map TransferState → List MountView → TrayState
loudest transfers rows =
    if any (row_alarms transfers) rows
    then attention
    else if any (row_is_blind transfers) rows
    then degraded_state
    else if any (row_is_pending transfers) rows
    then syncing
    else if any is_served rows
    then idle
    else offline

-- What the icon says without a link, and with one.
abbrev pub shown : TrayModel → TrayState
shown m = elim m.link [
  | connecting ↦ connecting_state
  | down _ ↦ disconnected
  | up _ ↦ loudest m.transfers (values m.mounts)
]

summary_tests :
    (m : TrayModel)
    → (alarms (summary m) ≡ any (row_alarms m.transfers) (values m.mounts))
      × (ltb 0 (summary m).unobservable ≡ any (row_is_blind m.transfers) (values m.mounts))
      × (ltb 0 (summary m).files ≡ any (row_is_pending m.transfers) (values m.mounts))
      × ((summary m).live ≡ (summary m).unmanaged + served_count (values m.mounts))
unfolding summary settle_summary summary_start alarms
summary_tests m =
    let start = summary_start (length m.mounts) in
    let rows = values m.mounts in
    (
      count_mounts-alarms m.transfers start rows,
      count_mounts-blind m.transfers start rows,
      count_mounts-pending m.transfers start rows,
      omega (arith, count_mounts-counts m.transfers start rows),
    )

abbrev tests_state : Bool → Bool → Bool → Bool → TrayState
tests_state alarm blind pending none_served =
    if alarm
    then attention
    else if blind
    then degraded_state
    else if pending
    then syncing
    else if none_served
    then offline
    else idle

summary_state-tests :
    (s : Summary)
    → summary_state s
      ≡ tests_state (alarms s) (ltb 0 s.unobservable) (ltb 0 s.files) (s.live == s.unmanaged)
unfolding summary_state alarms
summary_state-tests s = refl

none_served :
    (m : TrayModel)
    → ((summary m).live == (summary m).unmanaged) ≡ not (any is_served (values m.mounts))
none_served m = ground (arith, (summary_tests m).3, served_count-any (values m.mounts))

tests_swap :
    (a b p served : Bool)
    → tests_state a b p (not served) ≡ (
        if a
        then attention
        else if b
        then degraded_state
        else if p
        then syncing
        else if served
        then idle
        else offline)
tests_swap a b p served = ground arith

summary_state-loudest :
    (m : TrayModel) → summary_state (summary m) ≡ loudest m.transfers (values m.mounts)
summary_state-loudest m =
    let (a, b, p, c) = summary_tests m in
    let rows = values m.mounts in
    cc (
      summary_state-tests (summary m),
      a,
      b,
      p,
      none_served m,
      tests_swap (any (row_alarms m.transfers) rows) (any (row_is_blind m.transfers) rows)
          (any (row_is_pending m.transfers) rows) (any is_served rows),
    )

-- Whatever the model holds: without a link the icon says nothing of the mounts; with one it needs
-- attention exactly if a mount failed or a served one reports errors or a full cache, else it is
-- degraded exactly if a served mount has no reading that can be vouched for, else it is syncing exactly
-- if one has files pending, else it is idle exactly if some mount of the service is served.
pub tray_state_lem : (m : TrayModel) → tray_state m ≡ shown m
unfolding tray_state
tray_state_lem m = ground (arith, summary_state-loudest m)

phrase_first :
    (files bytes unknown : ℕ)
    → (pending_phrase files bytes unknown ≢ all_synced ∷ [])
      × (pending_phrase files bytes unknown ++ and_possibly_more ∷ [] ≢ all_synced ∷ [])
unfolding pending_phrase files_and_bytes
phrase_first files bytes unknown = ground arith

synced_line :
    (s : Summary)
    → (pending_line s ≡ some (all_synced ∷ [])) ↔ (
        ((s.live == s.unmanaged) ≡ false)
        × (ltb 0 s.unobservable ≡ false)
        × (ltb 0 s.files ≡ false))
unfolding pending_line
synced_line s = ground (arith, phrase_first s.files s.bytes s.unknown_size_files)

-- The line on uploads is that all is synced exactly if some mount of the service is
-- served, every one that is served has a reading that can be vouched for, and none of them has a file
-- pending.
pub pending_line-all_synced :
    (m : TrayModel)
    → (pending_line (summary m) ≡ some (all_synced ∷ [])) ↔ (
        (any is_served (values m.mounts) ≡ true)
        × (any (row_is_blind m.transfers) (values m.mounts) ≡ false)
        × (any (row_is_pending m.transfers) (values m.mounts) ≡ false))
pending_line-all_synced m =
    ground (arith, synced_line (summary m), (summary_tests m).1, (summary_tests m).2, none_served m)
