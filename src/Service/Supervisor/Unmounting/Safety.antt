-- ===== src/Service/Supervisor/Unmounting/Safety.antt =====
-- crates/service/src/supervisor.rs: the order in which `unmount` acts on its target.
use rclone_vfsmount_tray.Prelude.{
  ◌≡◌, refl, Bool, true, false, not, ◌&&◌, List, [], arith, if◌then◌else◌,
}
use rclone_vfsmount_tray.Core.Message.{named}
use rclone_vfsmount_tray.Core.Supervisor.{not_managed}
use rclone_vfsmount_tray.Service.Units.{UnitStatus, is_inactive}
use rclone_vfsmount_tray.Service.Host.{Host, Event, Outcome, ok, err, stuck, ◌>>◌, pure, fail}
use rclone_vfsmount_tray.Service.Supervisor.{Target, Settings, mounted_at, status_of}
use rclone_vfsmount_tray.Service.Supervisor.Unmounting.{before_stop, stop_and_finish, unmount_held}
use rclone_vfsmount_tray.Service.Supervisor.Unmounting.Order.{
  seen_free, Lawful, Known, nothing_known, Has, Leaves,
}
use rclone_vfsmount_tray.Service.Supervisor.Unmounting.Stages.{
  Stage, carry_on_lem, bind_Stage, if_free, mounted_at-Stage, status_of-Stage,
}
use rclone_vfsmount_tray.Service.Supervisor.Unmounting.Checks.{if_Stage, fail_lem}
use rclone_vfsmount_tray.Service.Supervisor.Unmounting.Releases.{
  freed_known, before_stop-Stage, stop_and_finish-Stage,
}

module _ (h : Host) (t : Target) (force : Bool) where
  open h use {World}

  abbrev looked : Bool → Known
  looked live = record { may_stop = true; free = not live; told = false }

  acting_Stage :
      (c : Settings) (status : UnitStatus) (live mine : Bool)
      → Stage t force
          (if_free h t force nothing_known live)
          (do
            if live then before_stop h t force status (force && mine) else pure tt
            stop_and_finish h c t live mine (force && mine))
          (λ _. freed_known h t force)
  acting_Stage c status true mine = λ s p.
      carry_on_lem t force _ (λ _. looked true) (λ _. freed_known h t force) _
        (λ _.
          stop_and_finish-Stage h t force c true mine (force && mine) false (λ e. ground (arith, e))
            (λ e. ground (arith, e)))
        (before_stop-Stage h t force nothing_known status (force && mine) (λ e. ground (arith, e)) s
          p)
  acting_Stage c status false mine = λ s p.
      stop_and_finish-Stage h t force c false mine (force && mine) true (λ e. refl)
        (λ e. ground (arith, e)) s p

  free_lem :
      (live b : Bool)
      → (not live && b) ≡ true
      → (es : List Event) → Has t force (if_free h t force nothing_known live) es
      → Has t force (freed_known h t force) es
  free_lem false b e es p = ground (arith, p)
  free_lem true b e es p = ground (arith, e)

  decided_Stage :
      (c : Settings) (status : UnitStatus) (live mine : Bool)
      → Stage t force
          (if_free h t force nothing_known live)
          (if live && not mine && not force
            then fail (not_managed (named t.name))
            else if not live && not mine
            then pure tt
            else (do
              if live then before_stop h t force status (force && mine) else pure tt
              stop_and_finish h c t live mine (force && mine)))
          (λ _. freed_known h t force)
  decided_Stage c status live mine =
      if_Stage h t force _ (λ _. freed_known h t force) (live && not mine && not force) _ _
        (λ e s p. fail_lem h t force _ s.trace p)
        (λ _.
          if_Stage h t force _ (λ _. freed_known h t force) (not live && not mine) _ _
            (λ e s p. free_lem live (not mine) e s.trace p) (λ _. acting_Stage c status live mine))

  pub unmount_held-Stage :
      (c : Settings)
      → Stage t force nothing_known (unmount_held h c t force) (λ _. freed_known h t force)
  unfolding unmount_held
  unmount_held-Stage c =
      bind_Stage t force _ (if_free h t force nothing_known) (λ _. freed_known h t force)
        nothing_known (mounted_at h t.point) (mounted_at-Stage h t force nothing_known)
        (λ live.
          bind_Stage t force _ (λ _. if_free h t force nothing_known live)
            (λ _. freed_known h t force) _ (status_of h t.unit) (status_of-Stage h t force _ t.unit)
            (λ status. decided_Stage c status live (not (is_inactive status))))

  pub outcome_free :
      (o : Outcome (Unit {0})) (es : List Event)
      → Leaves t force (λ _. freed_known h t force) o es
      → Lawful t force es × (o ≡ ok tt → seen_free t.point es ≡ true)
  outcome_free (ok tt) es p = (p.0, λ _. p.2 refl)
  outcome_free (err e) es p = (p.0, λ q. ground (arith, q))
  outcome_free stuck es p = (p.0, λ q. ground (arith, q))

-- Whatever the host answers, an unmount of a target does only what its order allows: without
-- `force` it stops the unit only after the kernel gave the mount point up or the mount table was
-- seen without it, and never detaches; with `force` it detaches only after the unit was told to
-- stop; it clears the unit only after the mount table was seen without the point; it starts nothing
-- and touches no other unit or point. When it succeeds, the mount table was seen without the point.
pub unmount_held-Lawful :
    (h : Host) (c : Settings) (t : Target) (force : Bool) (w : h.World)
    → let (o, s) = unmount_held h c t force (record { world = w; trace = [] }) in
      Lawful t force s.trace × (o ≡ ok tt → seen_free t.point s.trace ≡ true)
unmount_held-Lawful h c t force w =
    outcome_free h t force _ _
      (unmount_held-Stage h t force c (record { world = w; trace = [] }) (ground arith))
