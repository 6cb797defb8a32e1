-- ===== src/Service/Supervisor/Mounting/Looks.antt =====
-- crates/service/src/supervisor.rs: what `mount` looks at before it starts a unit.
use rclone_vfsmount_tray.Prelude.{
  ◌≡◌, refl, true, Option, some, List, ◌∷◌, arith, if◌then◌else◌, find, Text, lit, text_eq,
}
use rclone_vfsmount_tray.Core.Message.{runtime_directory}
use rclone_vfsmount_tray.Core.Config.{Mount, unit_name}
use rclone_vfsmount_tray.Core.Supervisor.{SupervisorError, bad_mount_point, supervision}
use rclone_vfsmount_tray.Service.Units.{
  UnitStatus, active, activating, deactivating, failed, inactive, is_serving, is_deactivating,
}
use rclone_vfsmount_tray.Service.Host.{
  refuse, Exit, success, refusal, no_program, not_run, Host, Event, released, M, ◌>>◌, pure,
}
use rclone_vfsmount_tray.Service.Supervisor.{
  Settings, mounted_at, resolved_point, status_of, is_stale, release_point, exit_error,
  run_fusermount, is_success,
}
use rclone_vfsmount_tray.Service.Host.Steps.{
  Quiet, bind_Quiet, if_Quiet, option_Quiet, Step, bind_Step, quiet_Step, if_Step, Post, then_Step,
}
use rclone_vfsmount_tray.Service.Supervisor.Waiting.{await_unit_gone}
use rclone_vfsmount_tray.Service.Supervisor.Orphans.{orphans, refuse_to_take_over}
use rclone_vfsmount_tray.Service.Supervisor.Orphans.Unnoted.{
  resolved_point-Quiet, status_of-Quiet, is_stale-Quiet, orphans-Quiet, refuse_to_take_over-Quiet,
}
use rclone_vfsmount_tray.Service.Supervisor.Mounting.{
  Next, already_up, start_it, pre_start_hook, prepare_runtime_dir, prepare_mount_point,
  refuse_edited, by_status, clear_stale, occupied, look_first, or_fail,
}
use rclone_vfsmount_tray.Service.Supervisor.Mounting.Starts.{
  seen_live, seen_mounted, Orderly, Up, Looked, mounted_at-Step, await_unit_gone-Quiet, kept,
}
use rclone_vfsmount_tray.Service.Supervisor.Mounting.{unknown}

module _ (h : Host) where
  open h use {World}

  or_fail-Quiet :
      (f : Text → SupervisorError) (g : World → Option Text × World) → Quiet (or_fail h f g)
  or_fail-Quiet f g s = ground arith

  pub prepare_runtime_dir-Quiet : (c : Settings) → Quiet (prepare_runtime_dir h c)
  unfolding prepare_runtime_dir
  prepare_runtime_dir-Quiet c =
      bind_Quiet
        (λ _.
          or_fail h (λ e. supervision (runtime_directory c.runtime_dir e) (some e))
            (h.make_private c.runtime_dir))
        (or_fail h (λ e. supervision (runtime_directory c.runtime_dir e) (some e))
          (h.create_dir_all c.runtime_dir))
        (or_fail-Quiet _ _) (λ _. or_fail-Quiet _ _)

  pub prepare_mount_point-Quiet : (path : Text) → Quiet (prepare_mount_point h path)
  unfolding prepare_mount_point
  prepare_mount_point-Quiet path s = ground (
    arith,
    or_fail-Quiet (λ e. bad_mount_point path (lit "could not be created") (some e))
        (h.create_dir_all path) (record s { world = (h.metadata path s.world).1 }),
  )

  pub pre_start_hook-Quiet : (c : Settings) (name : Text) → Quiet (pre_start_hook h c name)
  unfolding pre_start_hook
  pre_start_hook-Quiet c name s = ground arith

  pub refuse_edited-Quiet : (c : Settings) (m : Mount) → Quiet (refuse_edited h c m)
  unfolding refuse_edited
  refuse_edited-Quiet c m =
      bind_Quiet _ (status_of h (unit_name m)) (status_of-Quiet h (unit_name m)) (λ status.
        if_Quiet (is_deactivating status) _ _ (λ s. refl)
          (bind_Quiet _ (orphans h c) (orphans-Quiet h c) (λ found.
            option_Quiet (find (λ o. text_eq o.unit (unit_name m)) found) (pure tt) _ (λ s. refl)
              (λ o s. refl))))

  pub unknown-Quiet : (c : Settings) (name : Text) → Quiet (unknown h c name)
  unfolding unknown
  unknown-Quiet c name =
      bind_Quiet _ (orphans h c) (orphans-Quiet h c) (λ found.
        option_Quiet (find (λ o. text_eq o.name name) found) _ _ (λ s. refl) (λ o s. refl))

module _ (h : Host) (m : Mount) where
  open h use {World}

  -- What is left to do decides what is known.
  abbrev pub Decided : Next → List Event → Type 0
  Decided already_up = Up m
  Decided start_it = Orderly m

  abbrev Live : Text → List Event → Type 0
  Live p es = Orderly m es × (seen_live p es ≡ true) × (seen_mounted es ≡ true)

  by_status-Step :
      (c : Settings) (p : Text) (status : UnitStatus)
      → Step (Orderly m) (Live p) (by_status h c m p status) Decided
  unfolding by_status
  by_status-Step c p active = λ s l. (l.0, l.2)
  by_status-Step c p activating = λ s l. (l.0, l.2)
  by_status-Step c p deactivating = λ s l.
      then_Step (Orderly m) (Orderly m) (Orderly m) Decided
        (await_unit_gone h (unit_name m) c.unit_gone_timeout) (pure start_it)
        (kept h m (await_unit_gone h (unit_name m) c.unit_gone_timeout)
          (await_unit_gone-Quiet h m (unit_name m) c.unit_gone_timeout))
        (λ r k. k) s l.0
  by_status-Step c p failed = λ s l. l.0
  by_status-Step c p inactive = λ s l. l.0

  refused_end :
      (p : Text) (last : Exit) (es : List Event)
      → Live p es
      → Post
          (Orderly m)
          (λ _. Orderly m)
          (exit_error p last)
          (released p refuse (is_success last) ∷ es)
  unfolding exit_error
  refused_end p success es l = (l.1, l.0)
  refused_end p (refusal x) es l = (l.1, l.0)
  refused_end p no_program es l = (l.1, l.0)
  refused_end p (not_run x) es l = (l.1, l.0)

  refuse-Step : (p : Text) → Step (Orderly m) (Live p) (release_point h p refuse) (λ _. Orderly m)
  unfolding release_point
  refuse-Step p s l = refused_end p (run_fusermount h p refuse s.world).0 s.trace l

  keep_Live :
      {A : Type 0} (p : Text) (f : M World A) → Quiet f → Step (Orderly m) (Live p) f (λ _. Live p)
  keep_Live p f q = quiet_Step (Orderly m) (Live p) f (λ fs l. l.0) q

  clear_stale-Step :
      (c : Settings) (p : Text) → Step (Orderly m) (Live p) (clear_stale h c m p) Decided
  unfolding clear_stale
  clear_stale-Step c p =
      then_Step (Orderly m) (Live p) (Live p) Decided (refuse_to_take_over h c m.name p)
        (release_point h p refuse >> pure start_it)
        (keep_Live p (refuse_to_take_over h c m.name p) (refuse_to_take_over-Quiet h c m.name p))
        (then_Step (Orderly m) (Live p) (Orderly m) Decided (release_point h p refuse)
          (pure start_it) (refuse-Step p) (λ q j. j))

  served-Step :
      (c : Settings) (p : Text) (status : UnitStatus)
      → Step
          (Orderly m)
          (Live p)
          (do
            if is_serving status then pure tt else refuse_to_take_over h c m.name p
            by_status h c m p status)
          Decided
  served-Step c p status =
      then_Step (Orderly m) (Live p) (Live p) Decided
        (if is_serving status then pure tt else refuse_to_take_over h c m.name p)
        (by_status h c m p status)
        (keep_Live p (if is_serving status then pure tt else refuse_to_take_over h c m.name p)
          (if_Quiet (is_serving status) _ _ (λ r. refl) (refuse_to_take_over-Quiet h c m.name p)))
        (by_status-Step c p status)

  occupied-Step : (c : Settings) (p : Text) → Step (Orderly m) (Live p) (occupied h c m p) Decided
  unfolding occupied
  occupied-Step c p =
      bind_Step (Orderly m) _ (λ _. Live p) Decided (Live p) (is_stale h p)
        (keep_Live p (is_stale h p) (is_stale-Quiet h p))
        (λ stale.
          if_Step (Orderly m) (Live p) Decided stale _ _ (λ _. clear_stale-Step c p)
            (λ _.
              bind_Step (Orderly m) _ (λ _. Live p) Decided (Live p) (status_of h (unit_name m))
                (keep_Live p (status_of h (unit_name m)) (status_of-Quiet h (unit_name m)))
                (served-Step c p)))

  pub look_first-Step : (c : Settings) → Step (Orderly m) (Orderly m) (look_first h c m) Decided
  unfolding look_first
  look_first-Step c =
      bind_Step (Orderly m) _ (λ _. Orderly m) Decided (Orderly m) (resolved_point h m)
        (kept h m (resolved_point h m) (resolved_point-Quiet h m))
        (λ p.
          bind_Step (Orderly m) _ (Looked h m p) Decided (Orderly m) (mounted_at h p)
            (mounted_at-Step h m p)
            (λ live.
              if_Step (Orderly m) (Looked h m p live) Decided live _ _
                (λ e s l. occupied-Step c p s (l.0, (l.1 e).0, (l.1 e).1)) (λ e s l. l.0)))
