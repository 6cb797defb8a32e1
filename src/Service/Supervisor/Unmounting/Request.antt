-- ===== src/Service/Supervisor/Unmounting/Request.antt =====
-- crates/service/src/supervisor.rs: a whole request to unmount, from the lock on.
use rclone_vfsmount_tray.Prelude.{
  ◌≡◌, refl, sym, subst, ◌≢◌, ◌⊎◌, inl, inr, Bool, true, false, List, [], ◌∷◌, arith, if◌then◌else◌,
  Text, text_eq,
}
use rclone_vfsmount_tray.Core.Supervisor.{
  SupervisorError, unknown_mount, bad_mount_point, busy, supervision, rclone_failed, not_managed,
  pending_uploads,
}
use rclone_vfsmount_tray.Service.Host.{
  Host, Event, locked, Outcome, ok, err, stuck, Run, M, carry_on, fail, note,
}
use rclone_vfsmount_tray.Service.Supervisor.{Target, Settings, take_lock}
use rclone_vfsmount_tray.Service.Supervisor.Orphans.{unmount_target}
use rclone_vfsmount_tray.Service.Supervisor.Unmounting.Order.{seen_free, Lawful, nothing_known}
use rclone_vfsmount_tray.Service.Supervisor.Unmounting.Stages.{Stage, carry_on_lem}
use rclone_vfsmount_tray.Service.Supervisor.Unmounting.Checks.{if_Stage}
use rclone_vfsmount_tray.Service.Supervisor.Unmounting.Releases.{freed_known}
use rclone_vfsmount_tray.Service.Supervisor.Unmounting.Safety.{unmount_held-Stage, outcome_free}
use rclone_vfsmount_tray.Service.Supervisor.Unmounting.{redirect, drop_lock, find_target, unmount}
use rclone_vfsmount_tray.Service.Supervisor.Orphans.Unnoted.{unmount_target-Quiet}

-- Nothing was done that an unmount of any target may not do.
abbrev Idle : List Event → Type 0
Idle es = (t : Target) (force : Bool) → Lawful t force es

-- How a request ends: on no target, with nothing done, or on the target that was found.
abbrev pub Ends : Bool → Outcome Target → Outcome (Unit {0}) → List Event → Type 0
Ends force found o es =
    (Idle es × (o ≢ ok tt))
    ⊎ ((t : Target) × (found ≡ ok t)
        × Lawful t force es
        × (o ≡ ok tt → seen_free t.point es ≡ true))

module _ (h : Host) where
  open h use {World}

  drop_lock-Idle :
      (name : Text) (e : SupervisorError) (s : Run World)
      → Idle s.trace
      → Idle (drop_lock h name e s).1.trace
  unfolding drop_lock
  drop_lock-Idle name (unknown_mount n) s p t force = ground (arith, p t force)
  drop_lock-Idle name (bad_mount_point x y z) s p t force = p t force
  drop_lock-Idle name (rclone_failed x) s p t force = p t force
  drop_lock-Idle name (pending_uploads x) s p t force = p t force
  drop_lock-Idle name (busy x) s p t force = p t force
  drop_lock-Idle name (supervision x y) s p t force = p t force
  drop_lock-Idle name (not_managed x) s p t force = p t force

  dropped_Idle :
      (e : SupervisorError) (r : Outcome (Unit {0}) × Run World)
      → Idle r.1.trace
      → let q : Outcome Target × Run World = carry_on r (λ _. fail e) in Idle q.1.trace
  dropped_Idle e (ok tt, s) p = p
  dropped_Idle e (err f, s) p = p
  dropped_Idle e (stuck, s) p = p

  found_Idle :
      (name : Text) (r : Outcome Target × Run World)
      → Idle r.1.trace
      → let q : Outcome Target × Run World = elim r.0 [
        | ok t ↦ r
        | stuck ↦ r
        | err e ↦ carry_on (drop_lock h name e r.1) (λ _. fail e)
      ] in
        Idle q.1.trace
  found_Idle name (ok t, s) p = p
  found_Idle name (stuck, s) p = p
  found_Idle name (err e, s) p = dropped_Idle e (drop_lock h name e s) (drop_lock-Idle name e s p)

  find_target-Idle :
      (c : Settings) (name : Text) (s : Run World)
      → Idle s.trace
      → Idle (find_target h c name s).1.trace
  unfolding find_target
  find_target-Idle c name s p =
      found_Idle name (unmount_target h c name s)
        (subst Idle (sym (unmount_target-Quiet h c name s)) p)

  locked_Stage :
      (t : Target) (force got : Bool) (name : Text) (e : SupervisorError)
      → let m : M World (Unit {0}) = if got then note (locked name) else fail e in
        Stage t force nothing_known m (λ _. nothing_known)
  locked_Stage t force true name e s p = ground (arith, p)
  locked_Stage t force false name e s p = ground (arith, p)

  redirect-Stage :
      (t : Target) (force : Bool) (name : Text)
      → Stage t force nothing_known (redirect h name t) (λ _. nothing_known)
  unfolding redirect
  redirect-Stage t force name =
      if_Stage h t force nothing_known (λ _. nothing_known) (text_eq t.name name) _ _ (λ _ s p. p)
        (λ _ s p. locked_Stage t force _ t.name _ _ p)

  acted :
      (force : Bool) (f : Target → M World (Unit {0})) (r : Outcome Target × Run World)
      → Idle r.1.trace
      → ((t : Target) → Stage t force nothing_known (f t) (λ _. freed_known h t force))
      → Ends force r.0 (carry_on r f).0 (carry_on r f).1.trace
  acted force f (ok t, s) p each =
      let (law, free) = outcome_free h t force (f t s).0 _ (each t s (ground (arith, p t force))) in
      inr (t, refl, law, free)
  acted force f (err e, s) p each = inl (p, ground arith)
  acted force f (stuck, s) p each = inl (p, ground arith)

-- A request to unmount either fails before it finds a target, and then it stopped, started,
-- released and cleared nothing, or it acts on the target that was found, within the order that an
-- unmount of that target has; and it succeeds only if it found one and the mount table was seen
-- without its mount point.
pub unmount-Lawful :
    (h : Host) (c : Settings) (name : Text) (force : Bool) (w : h.World)
    → let (o, s) = unmount h c name force (record { world = w; trace = [] }) in
      Ends force
        (find_target h c name (record { world = h.lock name w; trace = locked name ∷ [] })).0
        o
        s.trace
unfolding unmount take_lock
unmount-Lawful h c name force w =
    acted h force _
      (find_target h c name (record { world = h.lock name w; trace = locked name ∷ [] }))
      (find_target-Idle h c name _ (λ t force. ground arith))
      (λ t s p.
        carry_on_lem t force _ (λ _. nothing_known) (λ _. freed_known h t force) _
          (λ _. unmount_held-Stage h t force c) (redirect-Stage h t force name s p))
