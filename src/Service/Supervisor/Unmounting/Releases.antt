-- ===== src/Service/Supervisor/Unmounting/Releases.antt =====
-- crates/service/src/supervisor.rs: what `unmount` does to a target, and in which order.
use rclone_vfsmount_tray.Prelude.{◌≡◌, refl, Bool, true, false, not, List, arith, if◌then◌else◌}
use rclone_vfsmount_tray.Core.Message.{still_mounted}
use rclone_vfsmount_tray.Core.Supervisor.{SupervisorError, busy}
use rclone_vfsmount_tray.Service.Units.{UnitStatus}
use rclone_vfsmount_tray.Service.Host.{
  refuse, detach, Host, Event, M, ◌>>=◌, ◌>>◌, pure, fail, Tried, fine, failed_with, attempt,
}
use rclone_vfsmount_tray.Service.Supervisor.{
  Target, Settings, mounted_at, release_point, refused, clear,
}
use rclone_vfsmount_tray.Service.Supervisor.Waiting.{await_gone}
use rclone_vfsmount_tray.Service.Supervisor.Unmounting.{
  probe_release, before_stop, stop_target, settle, release_again, finish, stop_and_finish,
}
use rclone_vfsmount_tray.Service.Supervisor.Unmounting.Order.{Known, Has}
use rclone_vfsmount_tray.Service.Supervisor.Unmounting.Stages.{
  Stage, carry_on_lem, bind_Stage, weaken_Stage, if_free, mounted_at-Stage, if_fine, refuse_Stage,
  detach_Stage, stop-Stage, clear-Stage, if_gone, await_gone-Stage,
}
use rclone_vfsmount_tray.Service.Supervisor.Unmounting.Checks.{
  fail_lem, settle-Stage, check_source-Stage,
}

module _ (h : Host) (t : Target) (force : Bool) where
  open h use {World}

  asked_once_Stage :
      (k : Known) (may_detach live : Bool) (e : SupervisorError)
      → (may_detach ≡ true → force ≡ true)
      → let m : M World (Unit {0}) =
          if not live then pure tt else if may_detach then pure tt else fail (refused t.point e) in
        Stage t force (if_free h t force k live) m (λ _. record k { may_stop = true })
  asked_once_Stage k true true e f s p = ground (arith, f refl)
  asked_once_Stage k false true e f s p = ground arith
  asked_once_Stage k true false e f s p = ground arith
  asked_once_Stage k false false e f s p = ground arith

  asked_Stage :
      (k : Known) (may_detach : Bool) (tried : Tried)
      → (may_detach ≡ true → force ≡ true)
      → let m : M World (Unit {0}) = elim tried [
        | fine ↦ pure tt
        | failed_with e ↦ (do
          live ← mounted_at h t.point
          if not live then pure tt else if may_detach then pure tt else fail (refused t.point e))
      ] in
        Stage t force (if_fine h t force k tried) m (λ _. record k { may_stop = true })
  asked_Stage k may_detach fine f = λ s p. p
  asked_Stage k may_detach (failed_with e) f =
      bind_Stage t force _ (if_free h t force k) (λ _. record k { may_stop = true }) k
        (mounted_at h t.point) (mounted_at-Stage h t force k)
        (λ live. asked_once_Stage k may_detach live e f)

  probe_release-Stage :
      (k : Known) (may_detach : Bool)
      → (may_detach ≡ true → force ≡ true)
      → Stage t force k (probe_release h t may_detach) (λ _. record k { may_stop = true })
  unfolding probe_release
  probe_release-Stage k may_detach f =
      bind_Stage t force _ (if_fine h t force k) (λ _. record k { may_stop = true }) k
        (attempt (release_point h t.point refuse)) (refuse_Stage h t force k)
        (λ tried. asked_Stage k may_detach tried f)

  pub before_stop-Stage :
      (k : Known) (status : UnitStatus) (may_detach : Bool)
      → (may_detach ≡ true → force ≡ true)
      → Stage t force k
          (before_stop h t force status may_detach)
          (λ _. record k { may_stop = true })
  unfolding before_stop
  before_stop-Stage k status may_detach f s p =
      carry_on_lem t force _ (λ _. k) (λ _. record k { may_stop = true }) _
        (λ _. probe_release-Stage k may_detach f) (check_source-Stage h t force k status s p)

  -- The unit is stopped, and the point is free if that is what is answered.
  abbrev stopped_known : Bool → Known
  stopped_known true = record { may_stop = true; free = true; told = true }
  stopped_known false = record { may_stop = true; free = false; told = true }

  gone_lem :
      (free b : Bool) (es : List Event)
      → Has t force (if_gone h t force (record { may_stop = true; free = free; told = true }) b) es
      → Has t force (stopped_known b) es
  gone_lem free true es p = p
  gone_lem free false es p = ground (arith, p)

  stop_target-Stage :
      (c : Settings) (live free : Bool)
      → (live ≡ false → free ≡ true)
      → Stage t force
          (record { may_stop = true; free = free; told = false })
          (stop_target h c t live)
          stopped_known
  unfolding stop_target
  stop_target-Stage c false free f s p =
      carry_on_lem t force _ (λ _. record { may_stop = true; free = free; told = true })
        stopped_known _ (λ _ r q. ground (arith, f refl, q)) (stop-Stage h t force _ refl s p)
  stop_target-Stage c true free f s p =
      carry_on_lem t force _ (λ _. record { may_stop = true; free = free; told = true })
        stopped_known _
        (λ _.
          weaken_Stage t force (if_gone h t force _) stopped_known _
            (await_gone h t.point c.gone_timeout) (gone_lem free)
            (await_gone-Stage h t force _ c.gone_timeout))
        (stop-Stage h t force _ refl s p)

  -- Where a detach is allowed, force was asked for and the unit was told to stop.
  abbrev MayDetach : Bool → Known → Type 0
  MayDetach may_detach k = may_detach ≡ true → (force ≡ true) × (k.told ≡ true)

  asked_again_Stage :
      (k : Known) (may_detach : Bool) (tried : Tried)
      → MayDetach may_detach k
      → let m : M World (Unit {0}) = elim tried [
        | fine ↦ pure tt
        | failed_with e ↦
            if not may_detach then fail (refused t.point e) else release_point h t.point detach
      ] in
        Stage t force (if_fine h t force k tried) m (λ _. k)
  asked_again_Stage k may_detach fine f = λ s p. ground (arith, p)
  asked_again_Stage k true (failed_with e) f = detach_Stage h t force k (f refl).0 (f refl).1
  asked_again_Stage k false (failed_with e) f = λ s p. fail_lem h t force k s.trace p

  release_again-Stage :
      (k : Known) (may_detach : Bool)
      → MayDetach may_detach k
      → Stage t force k (release_again h t may_detach) (λ _. k)
  unfolding release_again
  release_again-Stage k may_detach f =
      bind_Stage t force _ (if_fine h t force k) (λ _. k) k
        (attempt (release_point h t.point refuse)) (refuse_Stage h t force k)
        (λ tried. asked_again_Stage k may_detach tried f)

  abbrev pub freed_known : Known
  freed_known = record { may_stop = false; free = true; told = false }

  cleared_Stage :
      (k : Known) (gone : Bool)
      → let m : M World (Unit {0}) =
          if gone then clear h t.unit else fail (busy (still_mounted t.point)) in
        Stage t force (if_gone h t force k gone) m (λ _. freed_known)
  cleared_Stage k true =
      weaken_Stage t force (λ _. if_gone h t force k true) (λ _. freed_known) _ (clear h t.unit)
        (λ _ fs p. ground (arith, p)) (clear-Stage h t force _ refl)
  cleared_Stage k false = λ s p. fail_lem h t force k s.trace p

  finish_live_Stage :
      (k : Known) (may_detach live : Bool)
      → MayDetach may_detach k
      → let m : M World (Unit {0}) = if not live then pure tt else (do
        release_again h t may_detach
        gone ← await_gone h t.point 10000
        if gone then clear h t.unit else fail (busy (still_mounted t.point))) in
        Stage t force (if_free h t force k live) m (λ _. freed_known)
  finish_live_Stage k may_detach false f = λ s p. ground (arith, p)
  finish_live_Stage k may_detach true f = λ s p.
      carry_on_lem t force _ (λ _. k) (λ _. freed_known) _
        (λ _.
          bind_Stage t force _ (if_gone h t force k) (λ _. freed_known) k
            (await_gone h t.point 10000) (await_gone-Stage h t force k 10000) (cleared_Stage k))
        (release_again-Stage k may_detach f s p)

  finish-Stage :
      (k : Known) (may_detach : Bool)
      → MayDetach may_detach k
      → Stage t force k (finish h t may_detach) (λ _. freed_known)
  unfolding finish
  finish-Stage k may_detach f =
      bind_Stage t force _ (if_free h t force k) (λ _. freed_known) k (mounted_at h t.point)
        (mounted_at-Stage h t force k) (λ live. finish_live_Stage k may_detach live f)

  freed_Stage :
      (c : Settings) (may_detach freed : Bool)
      → (may_detach ≡ true → force ≡ true)
      → Stage t force
          (stopped_known freed)
          (if freed then settle h c t else finish h t may_detach)
          (λ _. freed_known)
  freed_Stage c may_detach true f =
      weaken_Stage t force (λ _. stopped_known true) (λ _. freed_known) _ (settle h c t)
        (λ _ fs p. ground (arith, p)) (settle-Stage h t force c _ refl)
  freed_Stage c may_detach false f =
      finish-Stage (stopped_known false) may_detach (λ e. (f e, refl))

  pub stop_and_finish-Stage :
      (c : Settings) (live mine may_detach free : Bool)
      → (live ≡ false → free ≡ true)
      → (may_detach ≡ true → (force ≡ true) × (mine ≡ true))
      → Stage t force
          (record { may_stop = true; free = free; told = false })
          (stop_and_finish h c t live mine may_detach)
          (λ _. freed_known)
  unfolding stop_and_finish
  stop_and_finish-Stage c live true may_detach free e f =
      bind_Stage t force _ stopped_known (λ _. freed_known) _ (stop_target h c t live)
        (stop_target-Stage c live free e) (λ freed. freed_Stage c may_detach freed (λ q. (f q).0))
  stop_and_finish-Stage c live false may_detach free e f =
      finish-Stage _ may_detach (λ q. ground (arith, f q))
