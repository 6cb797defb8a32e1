-- ===== src/Service/Supervisor/Mounting/Safety.antt =====
-- crates/service/src/supervisor.rs: the order in which `mount` acts.
use rclone_vfsmount_tray.Prelude.{
  ◌≡◌, refl, ◌≢◌, ◌⊎◌, inl, inr, true, Option, none, some, List, [], arith, if◌then◌else◌, find,
  Text, text_eq, text_eq_refl,
}
use rclone_vfsmount_tray.Core.Message.{leftover_unit}
use rclone_vfsmount_tray.Core.Config.{Mount, unit_name}
use rclone_vfsmount_tray.Core.Supervisor.{unknown_mount, not_managed}
use rclone_vfsmount_tray.Service.Units.{is_deactivating, is_up}
use rclone_vfsmount_tray.Service.Host.{
  Host, Event, Outcome, ok, err, stuck, Run, M, carry_on, ◌>>=◌, ◌>>◌, pure, fail,
}
use rclone_vfsmount_tray.Service.Supervisor.{
  Target, Settings, mount_config, status_of, start, clear, take_lock,
}
use rclone_vfsmount_tray.Service.Host.Steps.{
  if_Quiet, Step, bind_Step, quiet_Step, if_Step, Post, then_Step,
}
use rclone_vfsmount_tray.Service.Supervisor.Waiting.{await_unit_gone, await_ready}
use rclone_vfsmount_tray.Service.Supervisor.Orphans.{orphans}
use rclone_vfsmount_tray.Service.Supervisor.Orphans.Unnoted.{status_of-Quiet}
use rclone_vfsmount_tray.Service.Supervisor.Mounting.{
  Next, already_up, start_it, pre_start_hook, prepare_runtime_dir, prepare_mount_point,
  refuse_edited, look_first, unit_spec, start_unit, prepare_and_start, mount_it,
}
use rclone_vfsmount_tray.Service.Supervisor.Mounting.Starts.{
  seen_mounted, was_cleared, Orderly, Up, await_unit_gone-Quiet, kept, await_ready-Step,
}
use rclone_vfsmount_tray.Service.Supervisor.Mounting.{unknown, mount_by_name}
use rclone_vfsmount_tray.Service.Supervisor.Mounting.Looks.{
  prepare_runtime_dir-Quiet, prepare_mount_point-Quiet, pre_start_hook-Quiet, refuse_edited-Quiet,
  unknown-Quiet, look_first-Step, Decided,
}

module _ (h : Host) (m : Mount) where
  open h use {World}

  abbrev Cleared : List Event → Type 0
  Cleared es = Orderly m es × (was_cleared (unit_name m) es ≡ true)

  clear-Step : Step (Orderly m) (Orderly m) (clear h (unit_name m)) (λ _. Cleared)
  unfolding clear
  clear-Step s l = ground (arith, text_eq_refl (unit_name m))

  start-Step :
      (c : Settings) (hook : Option (Text × List Text))
      → Step (Orderly m) Cleared (start h (unit_spec c m hook)) (λ _. Orderly m)
  unfolding start unit_spec
  start-Step c hook s l = ground arith

  start_unit-Step : (c : Settings) → Step (Orderly m) (Orderly m) (start_unit h c m) (λ _. Up m)
  unfolding start_unit
  start_unit-Step c s l =
      then_Step (Orderly m) (Orderly m) Cleared (λ _. Up m) (clear h (unit_name m))
        (pre_start_hook h c m.name >>= λ hook. start h (unit_spec c m hook) >> await_ready h c m)
        clear-Step
        (bind_Step (Orderly m) (λ hook. start h (unit_spec c m hook) >> await_ready h c m)
          (λ _. Cleared) (λ _. Up m) Cleared (pre_start_hook h c m.name)
          (quiet_Step (Orderly m) Cleared (pre_start_hook h c m.name) (λ fs k. k.0)
            (pre_start_hook-Quiet h c m.name))
          (λ hook.
            then_Step (Orderly m) Cleared (Orderly m) (λ _. Up m) (start h (unit_spec c m hook))
              (await_ready h c m) (start-Step c hook) (await_ready-Step h m c)))
        _ l

  prepare_and_start-Step :
      (c : Settings) → Step (Orderly m) (Orderly m) (prepare_and_start h c m) (λ _. Up m)
  unfolding prepare_and_start
  prepare_and_start-Step c =
      then_Step (Orderly m) (Orderly m) (Orderly m) (λ _. Up m)
        (prepare_mount_point h m.mount_point) _
        (kept h m (prepare_mount_point h m.mount_point) (prepare_mount_point-Quiet h m.mount_point))
        (then_Step (Orderly m) (Orderly m) (Orderly m) (λ _. Up m) (prepare_runtime_dir h c) _
          (kept h m (prepare_runtime_dir h c) (prepare_runtime_dir-Quiet h c))
          (bind_Step (Orderly m) _ (λ _. Orderly m) (λ _. Up m) (Orderly m)
            (status_of h (unit_name m))
            (kept h m (status_of h (unit_name m)) (status_of-Quiet h (unit_name m)))
            (λ status.
              if_Step (Orderly m) (Orderly m) (λ _. Up m) (is_up status) _ _
                (λ _. await_ready-Step h m c)
                (λ _.
                  then_Step (Orderly m) (Orderly m) (Orderly m) (λ _. Up m)
                    (if is_deactivating status
                      then await_unit_gone h (unit_name m) c.unit_gone_timeout
                      else pure tt)
                    (start_unit h c m)
                    (kept h m
                      (if is_deactivating status
                        then await_unit_gone h (unit_name m) c.unit_gone_timeout
                        else pure tt)
                      (if_Quiet (is_deactivating status)
                        (await_unit_gone h (unit_name m) c.unit_gone_timeout) (pure tt)
                        (await_unit_gone-Quiet h m (unit_name m) c.unit_gone_timeout) (λ s. refl)))
                    (start_unit-Step c)))))

  Decided-Step :
      (c : Settings) (next : Next)
      → let f : M World (Unit {0}) = elim next [
        | already_up ↦ pure tt
        | start_it ↦ prepare_and_start h c m
      ] in
        Step (Orderly m) (Decided h m next) f (λ _. Up m)
  Decided-Step c already_up = λ s l. l
  Decided-Step c start_it = prepare_and_start-Step c

  lock-Step : Step (Orderly m) (Orderly m) (take_lock h m.name) (λ _. Orderly m)
  unfolding take_lock
  lock-Step s l = (refl, l)

  mount_it-Step : (c : Settings) → Step (Orderly m) (Orderly m) (mount_it h c m) (λ _. Up m)
  unfolding mount_it
  mount_it-Step c =
      then_Step (Orderly m) (Orderly m) (Orderly m) (λ _. Up m) (take_lock h m.name) _ lock-Step
        (then_Step (Orderly m) (Orderly m) (Orderly m) (λ _. Up m) (refuse_edited h c m) _
          (kept h m (refuse_edited h c m) (refuse_edited-Quiet h c m))
          (bind_Step (Orderly m) _ (Decided h m) (λ _. Up m) (Orderly m) (look_first h c m)
            (look_first-Step h m c) (Decided-Step c)))

  Up-outcome :
      (o : Outcome (Unit {0})) (es : List Event)
      → Post (Orderly m) (λ _. Up m) o es
      → Orderly m es × (o ≡ ok tt → seen_mounted es ≡ true)
  Up-outcome (ok tt) es l = (l.0, λ _. l.1)
  Up-outcome (err e) es l = (l, λ q. ground (arith, q))
  Up-outcome stuck es l = (l, λ q. ground (arith, q))

nobody_started :
    {W : Type 0} (name : Text) (r : Outcome (List Target) × Run W)
    → let q : Outcome (Unit {0}) × Run W = carry_on r (λ found.
      elim (find (λ o. text_eq o.name name) found) [
        | none ↦ fail (unknown_mount name)
        | some o ↦ fail (not_managed (leftover_unit name o.unit))
      ]) in
      q.0 ≢ ok tt
nobody_started name (ok found, s) = ground arith
nobody_started name (err e, s) = ground arith
nobody_started name (stuck, s) = ground arith

unknown_fails :
    (h : Host) (c : Settings) (name : Text) (s : Run h.World) → (unknown h c name s).0 ≢ ok tt
unfolding unknown
unknown_fails h c name s = nobody_started name (orphans h c s)

-- How a request to mount ends: with nothing done, where no entry has the name, or on that entry.
abbrev pub MountEnds : Option Mount → Outcome (Unit {0}) → List Event → Type 0
MountEnds found o es =
    ((found ≡ none) × (es ≡ []) × (o ≢ ok tt))
    ⊎ ((m : Mount) × (found ≡ some m) × Orderly m es × (o ≡ ok tt → seen_mounted es ≡ true))

found_ends :
    (h : Host) (c : Settings) (name : Text) (found : Option Mount) (w : h.World)
    → let f : M h.World (Unit {0}) = elim found [
      | none ↦ unknown h c name
      | some m ↦ mount_it h c m
    ] in
      let r = f (record { world = w; trace = [] }) in MountEnds found r.0 r.1.trace
found_ends h c name none w =
    inl (refl, unknown-Quiet h c name (record { world = w; trace = [] }), unknown_fails h c name _)
found_ends h c name (some m) w =
    let (law, up) =
      Up-outcome h m _ _ (mount_it-Step h m c (record { world = w; trace = [] }) tt) in
    inr (m, refl, law, up)

-- A request to mount a name that no entry has fails and does nothing to any unit or point. For an
-- entry, whatever the host answers, it never stops a unit and never detaches; it releases a mount
-- point only after the mount table was seen with it; it starts only the entry's own unit, and only
-- after clearing it; and when it succeeds, the mount table was seen with a mount at a point that
-- the request asked about.
pub mount_by_name-Orderly :
    (h : Host) (c : Settings) (name : Text) (w : h.World)
    → let (o, s) = mount_by_name h c name (record { world = w; trace = [] }) in
      MountEnds (mount_config c name) o s.trace
unfolding mount_by_name
mount_by_name-Orderly h c name w = found_ends h c name (mount_config c name) w
