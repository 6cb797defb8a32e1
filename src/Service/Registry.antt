-- ===== src/Service/Registry.antt =====
-- crates/service/src/registry.rs: what the service believes about its mounts, and what a client has
-- not been told. A method returns the new registry and the changes to publish.
pub mod Sweep
pub mod Mirror
use rclone_vfsmount_tray.Prelude.{
  ℕ, zero, suc, ◌+◌, ◌-◌, ◌*◌, ◌/◌, ◌%◌, ◌^◌, ◌≤◌, ◌<◌, min, max, ◌≡◌, refl, sym, ap, ◌∙◌, subst,
  ◌≢◌, ◌↔◌, ◌⊎◌, inl, inr, Bool, true, false, not, ◌&&◌, ◌||◌, Option, none, some, List, [], ◌∷◌,
  ◌++◌, map, arith, dec_lt, ℕ_discrete, ltb, leb, ◌==◌, if◌then◌else◌, ==_iff, Bool-cases,
  Option-cases, is_some, unwrap_or, is_yes, length, any, all, find, filter, All, length-append,
  length-filter-le, find-eq_some, length-map, filter_map, Text, lit, text_eq, text_eq-eq,
  text_eq_refl, text_eq_iff, has_char, strip_prefix, strip_prefix-append, strip_prefix-eq_some, ℤ,
  pos, negsuc, try_u64, u64_max, add64, sat_add, add64_exact, sat_add-le_max, Map, get, insert,
  remove, contains_key, values, keys, get-insert, get-remove, text_lt,
}
use rclone_vfsmount_tray.Core.Message.{
  Message, started_outside, no_configuration, not_polled_yet, not_serving, not_swept_yet,
}
use rclone_vfsmount_tray.Core.Capabilities.{Tier, tier_min, Tier-discrete}
use rclone_vfsmount_tray.Core.Transfer.{unmonitored}
use rclone_vfsmount_tray.Core.Supervisor.{MountState, mounted, foreign, orphaned}
use rclone_vfsmount_tray.Core.Ipc.{
  MountView, TransferView, transfer_view, state_name, state_from_name, MountView-discrete,
  TransferView-discrete,
}

pub data Change : Type 0 where
  mount_changed : MountView → Change
  removed : Text → Change
  transfer_changed : TransferView → Change
  capability_tier : Change

pub record Registry : Type 0 where
  pub mounts : Map MountView
  pub transfers : Map TransferView
  pub best : Option Tier

unfoldable pub new : Registry
new = record { mounts = []; transfers = []; best = none }

unfoldable pub pollable_view : MountView → Bool
unfolding state_name
pollable_view view = text_eq view.state (state_name mounted)

-- `why_not_polled`.
unfoldable pub why_not_polled : MountView → Message
why_not_polled mount = elim (state_from_name mount.state mount.reason) [
  | none ↦ not_serving
  | some s ↦ elim s [
    | foreign ↦ started_outside
    | orphaned ↦ no_configuration
    | mounted ↦ not_polled_yet
    | _ ↦ not_serving
  ]
]

unfoldable pub nothing_to_say : MountView → TransferView
unfolding unmonitored transfer_view
nothing_to_say mount = transfer_view (unmonitored mount.name (why_not_polled mount))

unfoldable pub no_sweep_yet : Text → TransferView
no_sweep_yet name = transfer_view (unmonitored name not_swept_yet)

-- What the loop of a sweep carries: the readings, what is published, and the mounts seen.
pub record Sweeping : Type 0 where
  pub transfers : Map TransferView
  pub changes : List Change
  pub seen : Map MountView

-- `self.mounts.get(&view.name) != Some(&view)`.
unfoldable pub differs : Map MountView → MountView → Bool
differs mounts view = elim (get mounts view.name) [
  | none ↦ true
  | some old ↦ not (is_yes (MountView-discrete old view))
]

-- Whether this round of the loop drops a reading.
unfoldable pub drops : Map TransferView → MountView → Bool
drops transfers view = not (pollable_view view) && contains_key transfers view.name

-- One round of the first loop of `observe_mounts`.
unfoldable pub observe_one : Map MountView → Sweeping → MountView → Sweeping
unfolding differs drops
observe_one mounts s view =
    let dropped = drops s.transfers view in
    let told =
      if dropped then s.changes ++ transfer_changed (nothing_to_say view) ∷ [] else s.changes in
    record {
      transfers = if pollable_view view then s.transfers else remove s.transfers view.name;
      changes = if differs mounts view then told ++ mount_changed view ∷ [] else told;
      seen = insert s.seen view.name view;
    }

unfoldable pub observe_all : Map MountView → Sweeping → List MountView → Sweeping
observe_all mounts s [] = s
observe_all mounts s (view ∷ views) = observe_all mounts (observe_one mounts s view) views

-- One round of the second loop: a name that the sweep did not find goes, with its reading.
unfoldable pub forget_one : Sweeping → Text → Sweeping
forget_one s name =
    if contains_key s.seen name
    then s
    else record s { transfers = remove s.transfers name; changes = s.changes ++ removed name ∷ [] }

unfoldable pub forget_missing : List Text → Sweeping → Sweeping
forget_missing [] s = s
forget_missing (name ∷ names) s = forget_missing names (forget_one s name)

unfoldable pub observe_mounts : Registry → List MountView → Registry × List Change
unfolding observe_all observe_one forget_missing forget_one
observe_mounts r found =
    let start : Sweeping = record { transfers = r.transfers; changes = []; seen = [] } in
    let s = forget_missing (keys r.mounts) (observe_all r.mounts start found) in
    (record r { mounts = s.seen; transfers = s.transfers }, s.changes)

unfoldable pub observe_transfer : Registry → TransferView → Registry × Option Change
observe_transfer r view =
    let store = record r { transfers = insert r.transfers view.mount view } in
    elim (get r.transfers view.mount) [
      | none ↦ (store, some (transfer_changed view))
      | some old ↦
          if is_yes (TransferView-discrete old view)
          then (r, none)
          else (store, some (transfer_changed view))
    ]

unfoldable pub note_tier : Registry → Tier → Registry × Option Change
note_tier r t =
    let best : Tier = elim r.best [ none ↦ t | some seen ↦ tier_min seen t ] in
    let changed : Registry × Option Change =
      (record r { best = some best }, some capability_tier) in
    elim r.best [
      | none ↦ changed
      | some old ↦ if is_yes (Tier-discrete best old) then (r, none) else changed
    ]

unfoldable pub all_mounts : Registry → List MountView
all_mounts r = values r.mounts

unfoldable pub mount_named : Registry → Text → Option MountView
mount_named r name = get r.mounts name

unfoldable pub transfer_named : Registry → Text → Option TransferView
transfer_named r name = get r.transfers name

-- `Registry::pollable`.
unfoldable pub pollable : Registry → List Text
pollable r = map (λ v. v.name) (filter pollable_view (values r.mounts))
