-- ===== src/Service/Supervisor/Waiting.antt =====
-- crates/service/src/supervisor.rs: the loops that wait for a mount point and for a unit. A round
-- looks, then sleeps a poll interval; the fuel is the rounds that fit before the deadline and two.
pub mod Deadline
use rclone_vfsmount_tray.Prelude.{
  ℕ, zero, suc, ◌+◌, ◌-◌, ◌*◌, ◌/◌, ◌%◌, ◌^◌, ◌≤◌, ◌<◌, min, max, ◌≡◌, refl, sym, ap, ◌∙◌, subst,
  ◌≢◌, ◌↔◌, ◌⊎◌, inl, inr, Bool, true, false, not, ◌&&◌, ◌||◌, Option, none, some, List, [], ◌∷◌,
  ◌++◌, map, arith, dec_lt, ℕ_discrete, ltb, leb, ◌==◌, if◌then◌else◌, ==_iff, Bool-cases,
  Option-cases, is_some, unwrap_or, is_yes, length, any, all, find, filter, All, length-append,
  length-filter-le, find-eq_some, length-map, filter_map, Text, lit, text_eq, text_eq-eq,
  text_eq_refl, text_eq_iff, has_char, strip_prefix, strip_prefix-append, strip_prefix-eq_some, ℤ,
  pos, negsuc, try_u64, u64_max, add64, sat_add, add64_exact, sat_add-le_max, Map, get, insert,
  remove, contains_key, values, keys, get-insert, get-remove, text_lt, strip_suffix, trim_start,
  all_chars, starts_with, text_eq_comm, strip_suffix-append,
}
use rclone_vfsmount_tray.Core.Message.{
  Message, said, logged_nothing, runtime_directory, could_not_unmount, running_fusermount, in_use,
  did_not_start, shutting_down, still_held_by, serving_elsewhere, not_responding, still_served_by,
  leftover_unit, still_serving, mounted_by_other, gave_up_waiting, named, serving_other_source,
  still_mounted,
}
use rclone_vfsmount_tray.Core.Config.{Mount, Config, mount, unit_name, fs_spec, unit_prefix}
use rclone_vfsmount_tray.Core.Mountinfo.{MountEntry, parse, is_mounted_at, is_rclone}
use rclone_vfsmount_tray.Core.Supervisor.{
  MountState, unmounted, mounting, mounted, unmounting, foreign, orphaned, SupervisorError,
  unknown_mount, bad_mount_point, busy, supervision, rclone_failed, not_managed, DiscoveredMount,
}
use rclone_vfsmount_tray.Service.Units.{
  UnitStatus, active, activating, deactivating, failed, inactive, is_serving, is_inactive,
  is_deactivating, is_up, Serving, LoadedUnit, UnitSpec, orphan_name,
}
use rclone_vfsmount_tray.Service.Host.{
  Release, refuse, detach, Exit, success, refusal, no_program, not_run, Stat, directory, other_file,
  not_found, not_connected, stat_error, Reply, done, fault, Host, Event, saw, released, stopped,
  started, cleared, locked, forgot_lock, Outcome, ok, err, stuck, Run, M, carry_on, ◌>>=◌, ◌>>◌,
  pure, fail, Tried, fine, failed_with, attempt, call, ask, note, act,
}
use rclone_vfsmount_tray.Service.Supervisor.{
  Target, Settings, poll_interval, mount_config, live_mounts, mounted_at, resolved, resolved_point,
  target_of, status_of, is_stale, release_point, refused, stop, start, clear, take_lock,
}
use rclone_vfsmount_tray.Service.Redact.{redact_extra_args}

-- The rounds of a wait of this many milliseconds.
abbrev pub rounds : ℕ → ℕ
rounds timeout = suc (suc (timeout / 250))

abbrev pub is_over : UnitStatus → Bool
is_over inactive = true
is_over failed = true
is_over _ = false

abbrev pub is_failed : UnitStatus → Bool
is_failed failed = true
is_failed _ = false

module _ (h : Host) where
  open h use {World}

  -- `await_gone` from its loop on.
  unfoldable pub gone_by : ℕ → Text → ℕ → M World Bool
  gone_by zero point deadline s = (stuck, s)
  gone_by (suc n) point deadline s =
      let rest = λ (r : Run World).
        gone_by n point deadline (record r { world = h.sleep poll_interval r.world }) in
      carry_on (mounted_at h point s) (λ live r.
        if not live
        then (ok true, r)
        else if leb deadline (h.clock r.world)
        then (ok false, r)
        else rest r)

  unfoldable pub await_gone : Text → ℕ → M World Bool
  await_gone point timeout s = gone_by (rounds timeout) point (h.clock s.world + timeout) s

  unfoldable pub unit_gone_by : ℕ → Text → ℕ → ℕ → M World (Unit {0})
  unit_gone_by zero unit timeout deadline s = (stuck, s)
  unit_gone_by (suc n) unit timeout deadline s =
      let rest = λ (r : Run World).
        unit_gone_by n unit timeout deadline (record r { world = h.sleep poll_interval r.world }) in
      carry_on (status_of h unit s) (λ status r.
        if is_over status
        then (ok tt, r)
        else if leb deadline (h.clock r.world)
        then (err (supervision (shutting_down unit (timeout / 1000)) none), r)
        else rest r)

  unfoldable pub await_unit_gone : Text → ℕ → M World (Unit {0})
  await_unit_gone unit timeout s =
      unit_gone_by (rounds timeout) unit timeout (h.clock s.world + timeout) s

  -- The arguments of the mount whose unit this is.
  unfoldable pub extra_args_of : Settings → Text → List Text
  unfolding unit_name
  extra_args_of c unit = elim (find (λ m. text_eq (unit_name m) unit) c.config.mounts) [
    | none ↦ []
    | some m ↦ m.extra_args
  ]

  unfoldable pub failure_reason : Settings → Text → M World Message
  failure_reason c unit = do
    out ← call (h.recent_output unit)
    pure (elim out [
      | [] ↦ logged_nothing unit
      | x ∷ xs ↦ said (redact_extra_args h.debug (x ∷ xs) (extra_args_of c unit))
    ])

  -- `await_ready` from its loop on.
  unfoldable pub ready_by : ℕ → Settings → Mount → Text → ℕ → M World (Unit {0})
  ready_by zero c m point deadline s = (stuck, s)
  ready_by (suc n) c m point deadline s =
      let rest = λ (r : Run World).
        ready_by n c m point deadline (record r { world = h.sleep poll_interval r.world }) in
      carry_on (mounted_at h point s) (λ live r.
        if live
        then (ok tt, r)
        else carry_on (status_of h (unit_name m) r) (λ status q.
          if is_failed status
          then carry_on (failure_reason c (unit_name m) q) (λ why. fail (rclone_failed why))
          else if leb deadline (h.clock q.world)
          then carry_on (failure_reason c (unit_name m) q) (λ why.
            fail (rclone_failed (did_not_start m.mount_point (c.ready_timeout / 1000) why)))
          else rest q))

  unfoldable pub await_ready : Settings → Mount → M World (Unit {0})
  await_ready c m s =
      carry_on (resolved_point h m s) (λ point r.
        ready_by (rounds c.ready_timeout) c m point (h.clock s.world + c.ready_timeout) r)
