-- ===== src/Core/Ipc/Crossing.antt =====
-- crates/core/src/ipc.rs: what crosses the bus arrives as it was sent.
use rclone_vfsmount_tray.Prelude.{
  ◌≡◌, refl, ◌↔◌, inl, inr, true, Option, some, List, [], ◌∷◌, map, arith, Option-cases, is_some,
  Text, lit, text_eq, text_eq_iff,
}
use rclone_vfsmount_tray.Core.Message.{Message}
use rclone_vfsmount_tray.Core.Capabilities.{Tier, t1, t2, t3, t4}
use rclone_vfsmount_tray.Core.Transfer.{TransferFile, TransferState}
use rclone_vfsmount_tray.Core.Supervisor.{
  MountState, unmounted, mounting, mounted, unmounting, failed, foreign, orphaned,
}
use rclone_vfsmount_tray.Core.Ipc.{
  state_name, state_from_name, reason_of, TransferFileView, file_view, file_of_view, TransferView,
  tier_name, tier_from_name, transfer_view, transfer_of_view,
}

-- A mount's state is read back, from its name and its reason, as the state that was sent.
pub state_from_name-state_name :
    (s : MountState) → state_from_name (state_name s) (reason_of s) ≡ some s
unfolding state_from_name state_name reason_of text_eq
state_from_name-state_name unmounted = refl
state_from_name-state_name mounting = refl
state_from_name-state_name mounted = refl
state_from_name-state_name unmounting = refl
state_from_name-state_name (failed reason) = refl
state_from_name-state_name foreign = refl
state_from_name-state_name orphaned = refl

-- A name that is understood is the name of the state that it is read as, whatever reason is with it.
pub state_name-state_from_name :
    (name : Text) (reason : Option Message) (s : MountState)
    → state_from_name name reason ≡ some s
    → state_name s ≡ name
unfolding state_from_name state_name
state_name-state_from_name name reason s h = ground (
  arith,
  text_eq_iff name (lit "unmounted"),
  text_eq_iff name (lit "mounting"),
  text_eq_iff name (lit "mounted"),
  text_eq_iff name (lit "unmounting"),
  text_eq_iff name (lit "failed"),
  text_eq_iff name (lit "foreign"),
  text_eq_iff name (lit "orphaned"),
)

tier_from_name-tier_name : (t : Tier) → tier_from_name (tier_name t) ≡ some t
unfolding tier_from_name tier_name text_eq
tier_from_name-tier_name t1 = refl
tier_from_name-tier_name t2 = refl
tier_from_name-tier_name t3 = refl
tier_from_name-tier_name t4 = refl

tier_name-tier_from_name :
    (name : Text) (t : Tier) → tier_from_name name ≡ some t → tier_name t ≡ name
unfolding tier_from_name tier_name
tier_name-tier_from_name name t h = ground (
  arith,
  text_eq_iff name (lit "T1"),
  text_eq_iff name (lit "T2"),
  text_eq_iff name (lit "T3"),
  text_eq_iff name (lit "T4"),
)

files_of_views : (fs : List TransferFile) → map file_of_view (map file_view fs) ≡ fs
unfolding file_of_view file_view
files_of_views [] = refl
files_of_views (f ∷ fs) = ground (arith, files_of_views fs)

views_of_files : (fs : List TransferFileView) → map file_view (map file_of_view fs) ≡ fs
unfolding file_of_view file_view
views_of_files [] = refl
views_of_files (f ∷ fs) = ground (arith, views_of_files fs)

-- A reading that is put on the bus and rebuilt by a client is the reading that was sent, file list,
-- tier, reason and every figure included.
pub transfer_of_view-transfer_view : (s : TransferState) → transfer_of_view (transfer_view s) ≡ s
unfolding transfer_of_view transfer_view
transfer_of_view-transfer_view s = elim (Option-cases s.fidelity) [
  | inl e ↦ ground (arith, files_of_views s.files)
  | inr (t, e) ↦ ground (arith, files_of_views s.files, tier_from_name-tier_name t)
]

known_or_not :
    (v : TransferView) (name : Text)
    → v.fidelity ≡ some name
    → (transfer_view (transfer_of_view v) ≡ v)
      ↔ ((n : Text) → v.fidelity ≡ some n → is_some (tier_from_name n) ≡ true)
unfolding transfer_of_view transfer_view
known_or_not v name e = elim (Option-cases (tier_from_name name)) [
  | inl unknown ↦ (λ h. ground arith, λ h. ground (arith, h name e))
  | inr (t, known) ↦ (
    λ h n f. ground arith,
    λ h. ground (arith, views_of_files v.files, tier_name-tier_from_name name t),
  )
]

-- A view is rebuilt without loss exactly when it names no tier or one that this build knows.
pub transfer_view-transfer_of_view :
    (v : TransferView)
    → (transfer_view (transfer_of_view v) ≡ v)
      ↔ ((name : Text) → v.fidelity ≡ some name → is_some (tier_from_name name) ≡ true)
unfolding transfer_of_view transfer_view
transfer_view-transfer_of_view v = elim (Option-cases v.fidelity) [
  | inl e ↦ (λ _ name f. cc (e, f), λ _. ground (arith, views_of_files v.files))
  | inr (name, e) ↦ known_or_not v name e
]
