-- ===== src/Service/Supervisor/Unmounting/Checks.antt =====
-- crates/service/src/supervisor.rs: what `unmount` does to a target, and in which order.
use rclone_vfsmount_tray.Prelude.{
  ℕ, zero, suc, ◌/◌, ◌≡◌, refl, inl, inr, Bool, true, false, not, ◌&&◌, Option, none, some, List,
  arith, leb, if◌then◌else◌, Bool-cases, Text, text_eq,
}
use rclone_vfsmount_tray.Core.Message.{shutting_down, serving_other_source}
use rclone_vfsmount_tray.Core.Mountinfo.{MountEntry}
use rclone_vfsmount_tray.Core.Supervisor.{supervision, not_managed}
use rclone_vfsmount_tray.Service.Units.{UnitStatus, is_serving}
use rclone_vfsmount_tray.Service.Host.{Host, Event, ok, err, M, ◌>>=◌, pure, fail}
use rclone_vfsmount_tray.Service.Supervisor.{
  Target, Settings, poll_interval, live_mounts, resolved, status_of,
}
use rclone_vfsmount_tray.Service.Supervisor.Waiting.{await_unit_gone, unit_gone_by, is_over}
use rclone_vfsmount_tray.Service.Supervisor.Orphans.{argv_point}
use rclone_vfsmount_tray.Service.Supervisor.Unmounting.{established, check_source, settle}
use rclone_vfsmount_tray.Service.Supervisor.Unmounting.Order.{Known, nothing_known, Has}
use rclone_vfsmount_tray.Service.Supervisor.Unmounting.Stages.{
  Stage, carry_on_lem, bind_Stage, status_of-Stage, clear-Stage,
}

module _ (h : Host) (t : Target) (force : Bool) where
  open h use {World}

  pub if_Stage :
      {A : Type 0} (k : Known) (g : A → Known) (b : Bool) (m n : M World A)
      → (b ≡ true → Stage t force k m g)
      → (b ≡ false → Stage t force k n g)
      → Stage t force k (if b then m else n) g
  if_Stage k g true m n on off = on refl
  if_Stage k g false m n on off = off refl

  pub fail_lem : (k : Known) (es : List Event) → Has t force k es → Has t force nothing_known es
  fail_lem k es p = ground (arith, p)

  look_unit_again :
      (k : Known) (unit : Text) (timeout deadline : ℕ) (rest : M World (Unit {0}))
      → Stage t force k rest (λ _. k)
      → (status : UnitStatus)
      → Stage t force k
          (λ r.
            if is_over status
            then (ok tt, r)
            else if leb deadline (h.clock r.world)
            then (err (supervision (shutting_down unit (timeout / 1000)) none), r)
            else rest r)
          (λ _. k)
  look_unit_again k unit timeout deadline rest later status r p =
      elim (Bool-cases (is_over status)) [
        | inl e ↦ ground (arith, p)
        | inr e ↦ elim (Bool-cases (leb deadline (h.clock r.world))) [
          | inl q ↦ ground (arith, p)
          | inr q ↦ ground (arith, later r p)
        ]
      ]

  unit_gone_by-Stage :
      (n : ℕ) (k : Known) (unit : Text) (timeout deadline : ℕ)
      → Stage t force k (unit_gone_by h n unit timeout deadline) (λ _. k)
  unfolding unit_gone_by
  unit_gone_by-Stage zero k unit timeout deadline s p = ground (arith, p)
  unit_gone_by-Stage (suc n) k unit timeout deadline s p =
      carry_on_lem t force _ (λ _. k) (λ _. k) (status_of h unit s)
        (look_unit_again k unit timeout deadline
          (λ r.
            unit_gone_by h n unit timeout deadline
              (record r { world = h.sleep poll_interval r.world }))
          (λ r q. unit_gone_by-Stage n k unit timeout deadline _ q))
        (status_of-Stage h t force k unit s p)

  pub settle-Stage :
      (c : Settings) (k : Known) → k.free ≡ true → Stage t force k (settle h c t) (λ _. k)
  unfolding settle await_unit_gone
  settle-Stage c k f s p =
      carry_on_lem t force _ (λ _. k) (λ _. k) _ (λ _. clear-Stage h t force k f)
        (unit_gone_by-Stage _ k t.unit _ _ s p)

  argv_point-Stage : (k : Known) (unit : Text) → Stage t force k (argv_point h unit) (λ _. k)
  unfolding argv_point resolved
  argv_point-Stage k unit s p = ground (arith, p)

  established-Stage :
      (k : Known) (status : UnitStatus) → Stage t force k (established h t status) (λ _. k)
  unfolding established
  established-Stage k status =
      if_Stage k (λ _. k) (is_serving status) _ _
        (λ _.
          bind_Stage t force _ (λ _. k) (λ _. k) k (argv_point h t.unit) (argv_point-Stage k t.unit)
            (λ at s p. p))
        (λ _ s p. p)

  refuse_source_Stage :
      (k : Known) (e : MountEntry) (held : Bool)
      → let m : M World (Unit {0}) =
          if held
          then pure tt
          else fail (not_managed (serving_other_source t.name t.point e.source t.fs_spec)) in
        Stage t force k m (λ _. k)
  refuse_source_Stage k e true s p = p
  refuse_source_Stage k e false s p = fail_lem k s.trace p

  source_Stage :
      (k : Known) (status : UnitStatus) (found : Option MountEntry)
      → let m : M World (Unit {0}) = elim found [
        | none ↦ pure tt
        | some e ↦
            if not force && not (text_eq e.source t.fs_spec)
            then (do
              held ← established h t status
              if held
                  then pure tt
                  else fail (not_managed (serving_other_source t.name t.point e.source t.fs_spec)))
            else pure tt
      ] in
        Stage t force k m (λ _. k)
  source_Stage k status none = λ s p. p
  source_Stage k status (some e) =
      if_Stage k (λ _. k) (not force && not (text_eq e.source t.fs_spec)) _ _
        (λ _.
          bind_Stage t force _ (λ _. k) (λ _. k) k (established h t status)
            (established-Stage k status) (refuse_source_Stage k e))
        (λ _ s p. p)

  pub check_source-Stage :
      (k : Known) (status : UnitStatus) → Stage t force k (check_source h t force status) (λ _. k)
  unfolding check_source live_mounts
  check_source-Stage k status s p = source_Stage k status _ _ p
