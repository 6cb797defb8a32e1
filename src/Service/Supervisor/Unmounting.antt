-- ===== src/Service/Supervisor/Unmounting.antt =====
-- crates/service/src/supervisor.rs: `unmount`, in the stages that the code has. Every stage acts on
-- the target that was found for the request.
pub mod Order
pub mod Stages
pub mod Checks
pub mod Releases
pub mod Safety
pub mod Request
use rclone_vfsmount_tray.Prelude.{
  ℕ, zero, suc, ◌+◌, ◌-◌, ◌*◌, ◌/◌, ◌%◌, ◌^◌, ◌≤◌, ◌<◌, min, max, ◌≡◌, refl, sym, ap, ◌∙◌, subst,
  ◌≢◌, ◌↔◌, ◌⊎◌, inl, inr, Bool, true, false, not, ◌&&◌, ◌||◌, Option, none, some, List, [], ◌∷◌,
  ◌++◌, map, arith, dec_lt, ℕ_discrete, ltb, leb, ◌==◌, if◌then◌else◌, ==_iff, Bool-cases,
  Option-cases, is_some, unwrap_or, is_yes, length, any, all, find, filter, All, length-append,
  length-filter-le, find-eq_some, length-map, filter_map, Text, lit, text_eq, text_eq-eq,
  text_eq_refl, text_eq_iff, has_char, strip_prefix, strip_prefix-append, strip_prefix-eq_some, ℤ,
  pos, negsuc, try_u64, u64_max, add64, sat_add, add64_exact, sat_add-le_max, Map, get, insert,
  remove, contains_key, values, keys, get-insert, get-remove, text_lt, strip_suffix, trim_start,
  all_chars, starts_with, text_eq_comm, strip_suffix-append,
}
use rclone_vfsmount_tray.Core.Message.{
  Message, said, logged_nothing, runtime_directory, could_not_unmount, running_fusermount, in_use,
  did_not_start, shutting_down, still_held_by, serving_elsewhere, not_responding, still_served_by,
  leftover_unit, still_serving, mounted_by_other, gave_up_waiting, named, serving_other_source,
  still_mounted,
}
use rclone_vfsmount_tray.Core.Config.{Mount, Config, mount, unit_name, fs_spec, unit_prefix}
use rclone_vfsmount_tray.Core.Mountinfo.{path_eq, MountEntry, parse, is_mounted_at, is_rclone}
use rclone_vfsmount_tray.Core.Supervisor.{
  MountState, unmounted, mounting, mounted, unmounting, foreign, orphaned, SupervisorError,
  unknown_mount, bad_mount_point, busy, supervision, rclone_failed, not_managed, DiscoveredMount,
}
use rclone_vfsmount_tray.Service.Units.{
  UnitStatus, active, activating, deactivating, failed, inactive, is_serving, is_inactive,
  is_deactivating, is_up, Serving, LoadedUnit, UnitSpec, orphan_name,
}
use rclone_vfsmount_tray.Service.Host.{
  Release, refuse, detach, Exit, success, refusal, no_program, not_run, Stat, directory, other_file,
  not_found, not_connected, stat_error, Reply, done, fault, Host, Event, saw, released, stopped,
  started, cleared, locked, forgot_lock, Outcome, ok, err, stuck, Run, M, carry_on, ◌>>=◌, ◌>>◌,
  pure, fail, Tried, fine, failed_with, attempt, call, ask, note, act,
}
use rclone_vfsmount_tray.Service.Supervisor.{
  Target, Settings, poll_interval, mount_config, live_mounts, mounted_at, resolved, resolved_point,
  target_of, status_of, is_stale, release_point, refused, stop, start, clear, take_lock,
}
use rclone_vfsmount_tray.Service.Supervisor.Waiting.{await_gone, await_unit_gone}
use rclone_vfsmount_tray.Service.Supervisor.Orphans.{unmount_target, argv_point}

abbrev pub redirect_lock_wait : ℕ
redirect_lock_wait = 300000

module _ (h : Host) where
  open h use {World}

  -- Whether the unit's own arguments name this very point, asked only while it serves.
  unfoldable pub established : Target → UnitStatus → M World Bool
  established t status =
      if is_serving status
      then (do
        at ← argv_point h t.unit
        pure (elim at [ none ↦ false | some p ↦ path_eq p t.point ]))
      else pure false

  -- What is mounted at the point has to be what the unit was started for.
  unfoldable pub check_source : Target → Bool → UnitStatus → M World (Unit {0})
  check_source t force status = do
    live ← live_mounts h
    elim (find (λ e. is_rclone e && path_eq e.mount_point t.point) live) [
      | none ↦ pure tt
      | some e ↦
          if not force && not (text_eq e.source t.fs_spec)
          then (do
            held ← established t status
            if held
                then pure tt
                else fail (not_managed (serving_other_source t.name t.point e.source t.fs_spec)))
          else pure tt
    ]

  -- The kernel decides, before rclone is signalled.
  unfoldable pub probe_release : Target → Bool → M World (Unit {0})
  probe_release t may_detach = do
    tried ← attempt (release_point h t.point refuse)
    elim tried [
      | fine ↦ pure tt
      | failed_with e ↦ (do
        live ← mounted_at h t.point
        if not live then pure tt else if may_detach then pure tt else fail (refused t.point e))
    ]

  unfoldable pub before_stop : Target → Bool → UnitStatus → Bool → M World (Unit {0})
  before_stop t force status may_detach = do check_source t force status; probe_release t may_detach

  -- Stop the unit; whether the point was released by that, or nothing was there.
  unfoldable pub stop_target : Settings → Target → Bool → M World Bool
  stop_target c t live = do
    stop h t.unit
    if live then await_gone h t.point c.gone_timeout else pure true

  -- The unit's name is not free until systemd is done with it.
  unfoldable pub settle : Settings → Target → M World (Unit {0})
  settle c t = do await_unit_gone h t.unit c.unit_gone_timeout; clear h t.unit

  unfoldable pub release_again : Target → Bool → M World (Unit {0})
  release_again t may_detach = do
    tried ← attempt (release_point h t.point refuse)
    elim tried [
      | fine ↦ pure tt
      | failed_with e ↦
          if not may_detach then fail (refused t.point e) else release_point h t.point detach
    ]

  -- What is left where no unit was stopped, or stopping it left the point mounted.
  unfoldable pub finish : Target → Bool → M World (Unit {0})
  finish t may_detach = do
    live ← mounted_at h t.point
    if not live then pure tt else (do
      release_again t may_detach
      gone ← await_gone h t.point 10000
      if gone then clear h t.unit else fail (busy (still_mounted t.point)))

  unfoldable pub stop_and_finish : Settings → Target → Bool → Bool → Bool → M World (Unit {0})
  stop_and_finish c t live mine may_detach =
      if mine
      then (do freed ← stop_target c t live; if freed then settle c t else finish t may_detach)
      else finish t may_detach

  -- `unmount` on its target, under the locks.
  unfoldable pub unmount_held : Settings → Target → Bool → M World (Unit {0})
  unmount_held c t force = do
    live ← mounted_at h t.point
    status ← status_of h t.unit
    let mine = not (is_inactive status)
    if live && not mine && not force
        then fail (not_managed (named t.name))
        else if not live && not mine
        then pure tt
        else (do
          if live then before_stop t force status (force && mine) else pure tt
          stop_and_finish c t live mine (force && mine))

  -- A name that resolves to nothing keeps no lock, unless somebody waits for it.
  unfoldable pub drop_lock : Text → SupervisorError → M World (Unit {0})
  drop_lock name (unknown_mount n) = do
    references ← call (h.lock_references name)
    if references == 2 then note (forgot_lock name) else pure tt
  drop_lock name e = pure tt

  unfoldable pub find_target : Settings → Text → M World Target
  find_target c name s = elim (unmount_target h c name s).0 [
    | ok t ↦ unmount_target h c name s
    | stuck ↦ unmount_target h c name s
    | err e ↦ carry_on (drop_lock name e (unmount_target h c name s).1) (λ _. fail e)
  ]

  -- A target under another name has a lock of its own.
  unfoldable pub redirect : Text → Target → M World (Unit {0})
  redirect name t = if text_eq t.name name then pure tt else (do
    got ← call (h.lock_within redirect_lock_wait t.name)
    if got then note (locked t.name) else fail (busy (gave_up_waiting name t.unit t.name)))

  unfoldable pub unmount : Settings → Text → Bool → M World (Unit {0})
  unmount c name force = do
    take_lock h name
    t ← find_target c name
    redirect name t
    unmount_held c t force
