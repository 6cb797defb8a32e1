-- ===== src/Service/Supervisor/Orphans.antt =====
-- crates/service/src/supervisor.rs: the sweep for units of ours that serve a path which the
-- configuration does not put them at, and what the operations make of it.
pub mod Unnoted
use rclone_vfsmount_tray.Prelude.{
  ℕ, zero, suc, ◌+◌, ◌-◌, ◌*◌, ◌/◌, ◌%◌, ◌^◌, ◌≤◌, ◌<◌, min, max, ◌≡◌, refl, sym, ap, ◌∙◌, subst,
  ◌≢◌, ◌↔◌, ◌⊎◌, inl, inr, Bool, true, false, not, ◌&&◌, ◌||◌, Option, none, some, List, [], ◌∷◌,
  ◌++◌, map, arith, dec_lt, ℕ_discrete, ltb, leb, ◌==◌, if◌then◌else◌, ==_iff, Bool-cases,
  Option-cases, is_some, unwrap_or, is_yes, length, any, all, find, filter, All, length-append,
  length-filter-le, find-eq_some, length-map, filter_map, Text, lit, text_eq, text_eq-eq,
  text_eq_refl, text_eq_iff, has_char, strip_prefix, strip_prefix-append, strip_prefix-eq_some, ℤ,
  pos, negsuc, try_u64, u64_max, add64, sat_add, add64_exact, sat_add-le_max, Map, get, insert,
  remove, contains_key, values, keys, get-insert, get-remove, text_lt, strip_suffix, trim_start,
  all_chars, starts_with, text_eq_comm, strip_suffix-append,
}
use rclone_vfsmount_tray.Core.Message.{
  Message, said, logged_nothing, runtime_directory, could_not_unmount, running_fusermount, in_use,
  did_not_start, shutting_down, still_held_by, serving_elsewhere, not_responding, still_served_by,
  leftover_unit, still_serving, mounted_by_other, gave_up_waiting, named, serving_other_source,
  still_mounted,
}
use rclone_vfsmount_tray.Core.Config.{Mount, Config, mount, unit_name, fs_spec, unit_prefix}
use rclone_vfsmount_tray.Core.Mountinfo.{path_eq, MountEntry, parse, is_mounted_at, is_rclone}
use rclone_vfsmount_tray.Core.Supervisor.{
  MountState, unmounted, mounting, mounted, unmounting, foreign, orphaned, SupervisorError,
  unknown_mount, bad_mount_point, busy, supervision, rclone_failed, not_managed, DiscoveredMount,
}
use rclone_vfsmount_tray.Service.Units.{
  UnitStatus, active, activating, deactivating, failed, inactive, is_serving, is_inactive,
  is_deactivating, is_up, Serving, LoadedUnit, UnitSpec, orphan_name,
}
use rclone_vfsmount_tray.Service.Host.{
  Release, refuse, detach, Exit, success, refusal, no_program, not_run, Stat, directory, other_file,
  not_found, not_connected, stat_error, Reply, done, fault, Host, Event, saw, released, stopped,
  started, cleared, locked, forgot_lock, Outcome, ok, err, stuck, Run, M, carry_on, ◌>>=◌, ◌>>◌,
  pure, fail, Tried, fine, failed_with, attempt, call, ask, note, act,
}
use rclone_vfsmount_tray.Service.Supervisor.{
  Target, Settings, poll_interval, mount_config, live_mounts, mounted_at, resolved, resolved_point,
  target_of, status_of, is_stale, release_point, refused, stop, start, clear, take_lock,
}

-- Where each serving unit's arguments put it, unresolved; the last entry of a name counts.
abbrev pub Argv : Type 0
Argv = List (Text × Option Text)

unfoldable pub serving_argv : List LoadedUnit → Argv
unfolding is_serving
serving_argv [] = []
serving_argv (u ∷ us) =
    if is_serving u.status
    then (u.name, elim u.serving [ none ↦ none | some s ↦ some s.mount_point ]) ∷ serving_argv us
    else serving_argv us

-- The last value under a key, as collecting into a `HashMap` leaves it.
unfoldable pub get_last {ℓ} : {A : Type ℓ} → List (Text × A) → Text → Option A
get_last [] k = none
get_last ((j, a) ∷ m) k = elim (get_last m k) [
  | some b ↦ some b
  | none ↦ if text_eq j k then some a else none
]

-- `ours`: the mount point of each entry of the configuration, under its unit.
unfoldable pub ours : List Mount → List (Text × Text)
unfolding unit_name
ours [] = []
ours (m ∷ ms) = (unit_name m, m.mount_point) ∷ ours ms

-- Whether an entry's unit is listed at the very path that its arguments give.
unfoldable pub is_unedited : List Mount → LoadedUnit → Text → Bool
unfolding ours get_last
is_unedited ms u point = elim (get_last (ours ms) u.name) [
  | none ↦ false
  | some p ↦ path_eq p point
]

module _ (h : Host) where
  open h use {World}

  -- Whether a configured mount at this point has its own unit holding it.
  unfoldable pub configured_unit_holds : List (Text × Text) → Text → Argv → M World Bool
  unfolding get_last
  configured_unit_holds [] point argv = pure false
  configured_unit_holds ((p, unit) ∷ rest) point argv =
      let later = configured_unit_holds rest point argv in
      if not (path_eq p point) then later else elim (get_last argv unit) [
        | none ↦ later
        | some a ↦ elim a [
          | none ↦ pure true
          | some path ↦ (do at ← resolved h path; if path_eq at point then pure true else later)
        ]
      ]

  -- Every configured point, resolved, with its unit.
  unfoldable pub configured_points : List Mount → M World (List (Text × Text))
  unfolding unit_name
  configured_points [] = pure []
  configured_points (m ∷ ms) = do
    p ← resolved_point h m
    rest ← configured_points ms
    pure ((p, unit_name m) ∷ rest)

  -- What the sweep carries: the configured points, once they are needed, and the orphans found.
  abbrev pub Sweep : Type 0
  Sweep = Option (List (Text × Text)) × List Target

  unfoldable pub points_once :
      List Mount → Option (List (Text × Text)) → M World (List (Text × Text))
  points_once ms none = configured_points ms
  points_once ms (some ps) = pure ps

  -- One serving unit whose arguments could be read.
  unfoldable pub consider :
      List Mount → List MountEntry → Argv → Sweep → LoadedUnit → Serving → Text → M World Sweep
  consider ms live argv (memo, found) u serving name = do
    point ← resolved h serving.mount_point
    if not (is_mounted_at live point) then pure (memo, found) else do
      points ← points_once ms memo
      held ← configured_unit_holds points point argv
      if held
          then pure (some points, found)
          else pure (
            some points,
            found
                ++ record { name = name; unit = u.name; point = point; fs_spec = serving.fs_spec }
                  ∷ [],
          )

  -- One round of the sweep's loop.
  unfoldable pub sweep_unit :
      List Mount → List MountEntry → Argv → Sweep → LoadedUnit → M World Sweep
  unfolding is_unedited
  sweep_unit ms live argv acc u = if not (is_serving u.status) then pure acc else elim u.serving [
    | none ↦ pure acc
    | some serving ↦ elim (orphan_name u.name) [
      | none ↦ pure acc
      | some name ↦
          if is_unedited ms u serving.mount_point
          then pure acc
          else consider ms live argv acc u serving name
    ]
  ]

  unfoldable pub sweep_units :
      List Mount → List MountEntry → Argv → Sweep → List LoadedUnit → M World Sweep
  sweep_units ms live argv acc [] = pure acc
  sweep_units ms live argv acc (u ∷ us) = do
    next ← sweep_unit ms live argv acc u
    sweep_units ms live argv next us

  unfoldable pub orphans : Settings → M World (List Target)
  orphans c = do
    loaded ← ask (h.list_units unit_prefix)
    live ← live_mounts h
    swept ← sweep_units c.config.mounts live (serving_argv loaded) (none, []) loaded
    pure swept.1

  -- Where a unit mounted, from its arguments.
  unfoldable pub argv_point : Text → M World (Option Text)
  argv_point unit = do
    loaded ← ask (h.list_units unit_prefix)
    elim (find (λ u. text_eq u.name unit) loaded) [
      | none ↦ pure none
      | some u ↦ elim u.serving [
        | none ↦ pure none
        | some s ↦ (do point ← resolved h s.mount_point; pure (some point))
      ]
    ]

  unfoldable pub orphan_at : Settings → Text → M World (Option Target)
  orphan_at c point = do found ← orphans c; pure (find (λ o. path_eq o.point point) found)

  unfoldable pub refuse_to_take_over : Settings → Text → Text → M World (Unit {0})
  refuse_to_take_over c name point = do
    holder ← orphan_at c point
    elim holder [
      | none ↦ pure tt
      | some o ↦ fail (not_managed (still_held_by name point o.unit o.name))
    ]

  -- Which unit a request to unmount has to act on.
  unfoldable pub unmount_target : Settings → Text → M World Target
  unfolding mount_config
  unmount_target c name = do
    found ← orphans c
    elim (mount_config c name) [
      | none ↦ elim (find (λ o. text_eq o.name name) found) [
        | none ↦ fail (unknown_mount name)
        | some o ↦ pure o
      ]
      | some m ↦ (do
        target ← target_of h m
        status ← status_of h target.unit
        pure (
            if is_serving status
            then unwrap_or (find (λ o. text_eq o.unit target.unit) found) target
            else unwrap_or (find (λ o. path_eq o.point target.point) found) target))
    ]
