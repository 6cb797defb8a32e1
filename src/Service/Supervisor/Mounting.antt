-- ===== src/Service/Supervisor/Mounting.antt =====
-- crates/service/src/supervisor.rs: `mount`, and `prepare_for_start`, which systemd runs before every
-- start of a unit.
pub mod Starts
pub mod Looks
pub mod Safety
use rclone_vfsmount_tray.Prelude.{
  ℕ, zero, suc, ◌+◌, ◌-◌, ◌*◌, ◌/◌, ◌%◌, ◌^◌, ◌≤◌, ◌<◌, min, max, ◌≡◌, refl, sym, ap, ◌∙◌, subst,
  ◌≢◌, ◌↔◌, ◌⊎◌, inl, inr, Bool, true, false, not, ◌&&◌, ◌||◌, Option, none, some, List, [], ◌∷◌,
  ◌++◌, map, arith, dec_lt, ℕ_discrete, ltb, leb, ◌==◌, if◌then◌else◌, ==_iff, Bool-cases,
  Option-cases, is_some, unwrap_or, is_yes, length, any, all, find, filter, All, length-append,
  length-filter-le, find-eq_some, length-map, filter_map, Text, lit, text_eq, text_eq-eq,
  text_eq_refl, text_eq_iff, has_char, strip_prefix, strip_prefix-append, strip_prefix-eq_some, ℤ,
  pos, negsuc, try_u64, u64_max, add64, sat_add, add64_exact, sat_add-le_max, Map, get, insert,
  remove, contains_key, values, keys, get-insert, get-remove, text_lt, strip_suffix, trim_start,
  all_chars, starts_with, text_eq_comm, strip_suffix-append,
}
use rclone_vfsmount_tray.Core.Message.{
  Message, said, logged_nothing, runtime_directory, could_not_unmount, running_fusermount, in_use,
  did_not_start, shutting_down, still_held_by, serving_elsewhere, not_responding, still_served_by,
  leftover_unit, still_serving, mounted_by_other, gave_up_waiting, named, serving_other_source,
  still_mounted,
}
use rclone_vfsmount_tray.Core.Config.{Mount, Config, mount, unit_name, fs_spec, unit_prefix}
use rclone_vfsmount_tray.Core.Mountinfo.{MountEntry, parse, is_mounted_at, is_rclone}
use rclone_vfsmount_tray.Core.Supervisor.{
  MountState, unmounted, mounting, mounted, unmounting, foreign, orphaned, SupervisorError,
  unknown_mount, bad_mount_point, busy, supervision, rclone_failed, not_managed, DiscoveredMount,
}
use rclone_vfsmount_tray.Service.Units.{
  UnitStatus, active, activating, deactivating, failed, inactive, is_serving, is_inactive,
  is_deactivating, is_up, Serving, LoadedUnit, UnitSpec, orphan_name,
}
use rclone_vfsmount_tray.Service.Host.{
  Release, refuse, detach, Exit, success, refusal, no_program, not_run, Stat, directory, other_file,
  not_found, not_connected, stat_error, Reply, done, fault, Host, Event, saw, released, stopped,
  started, cleared, locked, forgot_lock, Outcome, ok, err, stuck, Run, M, carry_on, ◌>>=◌, ◌>>◌,
  pure, fail, Tried, fine, failed_with, attempt, call, ask, note, act,
}
use rclone_vfsmount_tray.Service.Supervisor.{
  Target, Settings, poll_interval, mount_config, live_mounts, mounted_at, resolved, resolved_point,
  target_of, status_of, is_stale, release_point, refused, stop, start, clear, take_lock,
}
use rclone_vfsmount_tray.Core.Rc.{socket_file_name}
use rclone_vfsmount_tray.Core.Config.Args.{mount_args}
use rclone_vfsmount_tray.Service.Supervisor.Waiting.{await_unit_gone, await_ready}
use rclone_vfsmount_tray.Service.Supervisor.Orphans.{orphans, refuse_to_take_over}

-- `Path::join` of one component.
unfoldable pub socket_path : Text → Text → Text
unfolding socket_file_name
socket_path runtime_dir name = runtime_dir ++ (b'/' ∷ socket_file_name name)

-- How `ENOTCONN` renders.
abbrev not_connected_text : Text
not_connected_text = lit "Transport endpoint is not connected (os error 107)"

-- Whether `mount` goes on to start a unit.
pub data Next : Type 0 where
  already_up start_it : Next

unfoldable pub unit_spec : Settings → Mount → Option (Text × List Text) → UnitSpec
unfolding unit_name fs_spec socket_path mount_args
unit_spec c m pre_start = record {
  name = unit_name m;
  description = lit "rclone mount " ++ (fs_spec m ++ (lit " at " ++ m.mount_point));
  executable = c.rclone;
  args = mount_args m (socket_path c.runtime_dir m.name);
  pre_start = pre_start;
  umask = 18;
}

module _ (h : Host) where
  open h use {World}

  unfoldable pub pre_start_hook : Settings → Text → M World (Option (Text × List Text))
  pre_start_hook c name = do
    found ← call h.current_exe
    elim found [
      | none ↦ pure none
      | some exe ↦ (do
        there ← call (h.is_file exe)
        pure (
            if not there || is_some (strip_suffix (lit " (deleted)") exe)
            then none
            else some (
              exe,
              lit "--config" ∷ c.config_path ∷ lit "prepare-mount" ∷ lit "--name" ∷ name ∷ [],
            )))
    ]

  -- A call that may fail with an error of the operating system's.
  abbrev pub or_fail : (Text → SupervisorError) → (World → Option Text × World) → M World (Unit {0})
  or_fail f g = do e ← call g; elim e [ none ↦ pure tt | some t ↦ fail (f t) ]

  unfoldable pub prepare_runtime_dir : Settings → M World (Unit {0})
  prepare_runtime_dir c = do
    or_fail (λ e. supervision (runtime_directory c.runtime_dir e) (some e))
        (h.create_dir_all c.runtime_dir)
    or_fail (λ e. supervision (runtime_directory c.runtime_dir e) (some e))
        (h.make_private c.runtime_dir)

  unfoldable pub prepare_mount_point : Text → M World (Unit {0})
  prepare_mount_point path = do
    found ← call (h.metadata path)
    elim found [
      | directory ↦ pure tt
      | other_file ↦ fail (bad_mount_point path (lit "exists but is not a directory") none)
      | not_found ↦
          or_fail (λ e. bad_mount_point path (lit "could not be created") (some e))
            (h.create_dir_all path)
      | not_connected ↦
          fail (bad_mount_point path (lit "could not be inspected") (some not_connected_text))
      | stat_error e ↦ fail (bad_mount_point path (lit "could not be inspected") (some e))
    ]

  -- What `mount` says where no mount is configured under the name.
  unfoldable pub unknown : Settings → Text → M World (Unit {0})
  unknown c name = do
    found ← orphans h c
    elim (find (λ o. text_eq o.name name) found) [
      | none ↦ fail (unknown_mount name)
      | some o ↦ fail (not_managed (leftover_unit name o.unit))
    ]

  -- The unit of this entry must not be serving another path.
  unfoldable pub refuse_edited : Settings → Mount → M World (Unit {0})
  unfolding unit_name
  refuse_edited c m = do
    status ← status_of h (unit_name m)
    if is_deactivating status then pure tt else (do
      found ← orphans h c
      elim (find (λ o. text_eq o.unit (unit_name m)) found) [
        | none ↦ pure tt
        | some o ↦ fail (not_managed (still_serving m.name o.unit o.point))
      ])

  -- Something live is at the point.
  unfoldable pub by_status : Settings → Mount → Text → UnitStatus → M World Next
  unfolding unit_name
  by_status c m point active = pure already_up
  by_status c m point activating = pure already_up
  by_status c m point deactivating = do
    await_unit_gone h (unit_name m) c.unit_gone_timeout
    pure start_it
  by_status c m point failed = pure start_it
  by_status c m point inactive = fail (not_managed (mounted_by_other m.name point))

  unfoldable pub clear_stale : Settings → Mount → Text → M World Next
  clear_stale c m point = do
    refuse_to_take_over h c m.name point
    release_point h point refuse
    pure start_it

  unfoldable pub occupied : Settings → Mount → Text → M World Next
  unfolding unit_name
  occupied c m point = do
    stale ← is_stale h point
    if stale then clear_stale c m point else (do
      status ← status_of h (unit_name m)
      if is_serving status then pure tt else refuse_to_take_over h c m.name point
      by_status c m point status)

  unfoldable pub look_first : Settings → Mount → M World Next
  look_first c m = do
    point ← resolved_point h m
    live ← mounted_at h point
    if live then occupied c m point else pure start_it

  unfoldable pub start_unit : Settings → Mount → M World (Unit {0})
  unfolding unit_name socket_path unit_spec
  start_unit c m = do
    act (h.remove_socket (socket_path c.runtime_dir m.name))
    clear h (unit_name m)
    hook ← pre_start_hook c m.name
    start h (unit_spec c m hook)
    await_ready h c m

  unfoldable pub prepare_and_start : Settings → Mount → M World (Unit {0})
  unfolding unit_name
  prepare_and_start c m = do
    prepare_mount_point m.mount_point
    prepare_runtime_dir c
    status ← status_of h (unit_name m)
    if is_up status then await_ready h c m else (do
      if is_deactivating status
          then await_unit_gone h (unit_name m) c.unit_gone_timeout
          else pure tt
      start_unit c m)

  unfoldable pub mount_it : Settings → Mount → M World (Unit {0})
  mount_it c m = do
    take_lock h m.name
    refuse_edited c m
    next ← look_first c m
    elim next [ already_up ↦ pure tt | start_it ↦ prepare_and_start c m ]

  unfoldable pub mount_by_name : Settings → Text → M World (Unit {0})
  unfolding mount_config
  mount_by_name c name = elim (mount_config c name) [
    | none ↦ unknown c name
    | some m ↦ mount_it c m
  ]

  -- The mount point is released only if it is live and answers `ENOTCONN`.
  unfoldable pub prepare_for_start : Settings → Text → M World (Unit {0})
  unfolding mount_config socket_path
  prepare_for_start c name = elim (mount_config c name) [
    | none ↦ fail (unknown_mount name)
    | some m ↦ (do
      act (h.remove_socket (socket_path c.runtime_dir name))
      point ← resolved_point h m
      live ← mounted_at h point
      stale ← is_stale h point
      if live && stale then release_point h point refuse else pure tt)
  ]
