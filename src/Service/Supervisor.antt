-- ===== src/Service/Supervisor.antt =====
-- crates/service/src/supervisor.rs: the calls of the supervisor that the operations are made of.
-- Logging is left out. Paths are text.
pub mod Waiting
pub mod Orphans
pub mod States
pub mod Unmounting
pub mod Mounting
use rclone_vfsmount_tray.Prelude.{
  ℕ, zero, suc, ◌+◌, ◌-◌, ◌*◌, ◌/◌, ◌%◌, ◌^◌, ◌≤◌, ◌<◌, min, max, ◌≡◌, refl, sym, ap, ◌∙◌, subst,
  ◌≢◌, ◌↔◌, ◌⊎◌, inl, inr, Bool, true, false, not, ◌&&◌, ◌||◌, Option, none, some, List, [], ◌∷◌,
  ◌++◌, map, arith, dec_lt, ℕ_discrete, ltb, leb, ◌==◌, if◌then◌else◌, ==_iff, Bool-cases,
  Option-cases, is_some, unwrap_or, is_yes, length, any, all, find, filter, All, length-append,
  length-filter-le, find-eq_some, length-map, filter_map, Text, lit, text_eq, text_eq-eq,
  text_eq_refl, text_eq_iff, has_char, strip_prefix, strip_prefix-append, strip_prefix-eq_some, ℤ,
  pos, negsuc, try_u64, u64_max, add64, sat_add, add64_exact, sat_add-le_max, Map, get, insert,
  remove, contains_key, values, keys, get-insert, get-remove, text_lt, strip_suffix, trim_start,
  all_chars, starts_with, text_eq_comm, strip_suffix-append,
}
use rclone_vfsmount_tray.Core.Message.{
  Message, said, logged_nothing, runtime_directory, could_not_unmount, running_fusermount, in_use,
}
use rclone_vfsmount_tray.Core.Config.{Mount, Config, mount, unit_name, fs_spec}
use rclone_vfsmount_tray.Core.Mountinfo.{MountEntry, parse, is_mounted_at}
use rclone_vfsmount_tray.Core.Supervisor.{
  SupervisorError, unknown_mount, bad_mount_point, busy, supervision,
}
use rclone_vfsmount_tray.Service.Units.{UnitStatus, LoadedUnit, UnitSpec}
use rclone_vfsmount_tray.Service.Host.{
  Release, refuse, detach, Exit, success, refusal, no_program, not_run, Stat, directory, other_file,
  not_found, not_connected, stat_error, Reply, Host, Event, saw, released, stopped, started,
  cleared, locked, forgot_lock, Outcome, ok, err, stuck, Run, M, carry_on, ◌>>=◌, ◌>>◌, pure, fail,
  Tried, fine, failed_with, attempt, call, ask, note, act,
}

-- The unit that an operation acts on, and what is needed to act on it.
pub record Target : Type 0 where
  pub name : Text
  pub unit : Text
  pub point : Text
  pub fs_spec : Text

pub record Settings : Type 0 where
  pub config : Config
  pub rclone : Text
  pub runtime_dir : Text
  pub config_path : Text
  -- In milliseconds.
  pub ready_timeout : ℕ
  pub gone_timeout : ℕ
  pub unit_gone_timeout : ℕ

abbrev pub default_settings : Config → Text → Text → Text → Settings
default_settings config rclone runtime_dir config_path = record {
  config = config;
  rclone = rclone;
  runtime_dir = runtime_dir;
  config_path = config_path;
  ready_timeout = 45000;
  gone_timeout = 30000;
  unit_gone_timeout = 35000;
}

abbrev pub poll_interval : ℕ
poll_interval = 250

unfoldable pub mount_config : Settings → Text → Option Mount
unfolding mount
mount_config c name = mount c.config name

unfoldable pub exit_error : Text → Exit → Outcome (Unit {0})
exit_error point success = ok tt
exit_error point (refusal stderr) = err (busy (could_not_unmount point stderr))
exit_error point no_program = err (supervision (running_fusermount point []) (some []))
exit_error point (not_run e) = err (supervision (running_fusermount point e) (some e))

-- What to do about it, added to a refusal of the kernel's.
unfoldable pub refused : Text → SupervisorError → SupervisorError
refused point (busy reason) = busy (in_use reason point)
refused point e = e

abbrev pub is_success : Exit → Bool
is_success success = true
is_success _ = false

module _ (h : Host) where
  open h use {World}

  -- Every mount that the kernel lists; none, if the list cannot be read.
  unfoldable pub live_mounts : M World (List MountEntry)
  live_mounts s =
      let (text, w) = h.read_mountinfo s.world in
      (ok (elim text [ none ↦ [] | some t ↦ parse t ]), record s { world = w })

  -- Whether an rclone mount is at a point now, which is noted.
  unfoldable pub mounted_at : Text → M World Bool
  mounted_at point = do
    live ← live_mounts
    note (saw point (is_mounted_at live point))
    pure (is_mounted_at live point)

  -- A path as the kernel will report it.
  unfoldable pub resolved : Text → M World Text
  resolved raw = do found ← call (h.canonicalize raw); pure (unwrap_or found raw)

  unfoldable pub resolved_point : Mount → M World Text
  unfolding resolved
  resolved_point m = resolved m.mount_point

  unfoldable pub target_of : Mount → M World Target
  unfolding unit_name fs_spec
  target_of m = do
    point ← resolved_point m
    pure (record { name = m.name; unit = unit_name m; point = point; fs_spec = fs_spec m })

  unfoldable pub status_of : Text → M World UnitStatus
  status_of unit = ask (h.unit_status unit)

  -- A dead daemon answers `ENOTCONN`; a probe that does not answer is not that case.
  unfoldable pub is_stale : Text → M World Bool
  is_stale point = do
    found ← call (h.stat point)
    pure (elim found [ none ↦ false | some st ↦ elim st [ not_connected ↦ true | _ ↦ false ] ])

  -- `fusermount` where there is no `fusermount3`.
  or_older : Text → Release → Exit × World → Exit × World
  or_older point how (no_program, w) = h.fusermount false point how w
  or_older point how (success, w) = (success, w)
  or_older point how (refusal stderr, w) = (refusal stderr, w)
  or_older point how (not_run e, w) = (not_run e, w)

  unfoldable pub run_fusermount : Text → Release → World → Exit × World
  unfolding or_older
  run_fusermount point how w = or_older point how (h.fusermount true point how w)

  unfoldable pub release_point : Text → Release → M World (Unit {0})
  unfolding exit_error
  release_point point how = do
    last ← call (run_fusermount point how)
    note (released point how (is_success last))
    λ s. (exit_error point last, s)

  unfoldable pub stop : Text → M World (Unit {0})
  stop unit = do note (stopped unit); ask (h.stop_unit unit)

  unfoldable pub start : UnitSpec → M World (Unit {0})
  start spec = do note (started spec.name); ask (h.start_transient spec)

  unfoldable pub clear : Text → M World (Unit {0})
  clear unit = do note (cleared unit); ask (h.reset_failed unit)

  unfoldable pub take_lock : Text → M World (Unit {0})
  take_lock name = do note (locked name); act (h.lock name)
