-- ===== src/Service/Watch.antt =====
-- crates/service/src/watch.rs: the loop that sweeps the mounts, polls those that serve, and hands back
-- what a client has not been told. The supervisor, the rclone behind each socket, the clock and what
-- the D-Bus methods leave in the nudge are parameters. Instants are nanoseconds.
pub mod Rounds
pub mod Ticks
pub mod Served
use rclone_vfsmount_tray.Prelude.{
  ℕ, zero, suc, ◌+◌, ◌-◌, ◌*◌, ◌/◌, ◌%◌, ◌^◌, ◌≤◌, ◌<◌, min, max, ◌≡◌, refl, sym, ap, ◌∙◌, subst,
  ◌≢◌, ◌↔◌, ◌⊎◌, inl, inr, Bool, true, false, not, ◌&&◌, ◌||◌, Option, none, some, List, [], ◌∷◌,
  ◌++◌, map, arith, dec_lt, ℕ_discrete, ltb, leb, ◌==◌, if◌then◌else◌, ==_iff, Bool-cases,
  Option-cases, is_some, unwrap_or, is_yes, length, any, all, find, filter, All, length-append,
  length-filter-le, find-eq_some, length-map, filter_map, Text, lit, text_eq, text_eq-eq,
  text_eq_refl, text_eq_iff, has_char, strip_prefix, strip_prefix-append, strip_prefix-eq_some, ℤ,
  pos, negsuc, try_u64, u64_max, add64, sat_add, add64_exact, sat_add-le_max, Map, get, insert,
  remove, contains_key, values, keys, get-insert, get-remove, text_lt, strip_suffix, trim_start,
  all_chars, starts_with, text_eq_comm, strip_suffix-append, if-holds,
}
use rclone_vfsmount_tray.Core.Models.{CoreStats, VfsQueue, VfsStats}
use rclone_vfsmount_tray.Core.Capabilities.{Tier, Answer}
use rclone_vfsmount_tray.Core.Config.{Config, fs_spec}
use rclone_vfsmount_tray.Core.Config as Configuration
use rclone_vfsmount_tray.Core.Supervisor.{DiscoveredMount}
use rclone_vfsmount_tray.Core.Ipc.{MountView, mount_view, transfer_view}
use rclone_vfsmount_tray.Core.Transfer.{TransferState}
use rclone_vfsmount_tray.Core.Transfer.Rate.{Floats}
use rclone_vfsmount_tray.Service.Supervisor.Mounting.{socket_path}
use rclone_vfsmount_tray.Service.Registry.{
  Change, Registry, observe_mounts, observe_transfer, note_tier, pollable,
}
use rclone_vfsmount_tray.Service.Poller.{
  Rclone, Scanned, MountPoller, connect_poller, poller_tier, rc_answered, interval,
}
use rclone_vfsmount_tray.Service.Poller.Round.{poll}

pub record Machine : Type 1 where
  pub World : Type 0
  pub floats : Floats
  -- The calls, each with the socket that it goes to.
  pub rc_list : Text → World → Answer (List Text) × World
  pub vfs_stats : Text → World → Answer VfsStats × World
  pub vfs_queue : Text → World → Answer VfsQueue × World
  pub core_stats : Text → World → Answer CoreStats × World
  pub now : World → ℕ
  pub scan : Text → Text → World → Scanned × World
  -- `reconcile` of the supervisor; `none` is its error.
  pub reconcile : World → Option (List DiscoveredMount) × World
  -- The mounts that a method acted on since the last tick.
  pub take_cycled : World → List Text × World

-- A second, `SWEEP_INTERVAL` and `MIN_SWEEP_GAP`.
abbrev pub second : ℕ
second = 1000000000

abbrev pub sweep_interval : ℕ
sweep_interval = 15000000000

abbrev pub min_sweep_gap : ℕ
min_sweep_gap = 1000000000

-- `HashMap::retain` by the key.
unfoldable pub retain {ℓ} : {V : Type ℓ} → (Text → Bool) → Map V → Map V
retain keep [] = []
retain keep ((k, v) ∷ m) = let rest = retain keep m in if keep k then (k, v) ∷ rest else rest

unfoldable pub remove_all {ℓ} : {V : Type ℓ} → List Text → Map V → Map V
remove_all [] m = m
remove_all (k ∷ ks) m = remove_all ks (remove m k)

-- `pollable.contains(name)`.
abbrev pub contains : List Text → Text → Bool
contains names k = any (λ n. text_eq n k) names

-- A mount found, with what it is configured to serve.
unfoldable pub view_of : Config → DiscoveredMount → MountView
view_of c m = record (mount_view m) {
  remote = elim (Configuration.mount c m.name) [ none ↦ none | some k ↦ some (fs_spec k) ];
}

-- `values().min()` with the time of the sweep.
unfoldable pub earliest : Map ℕ → ℕ → ℕ
earliest [] t = t
earliest ((k, d) ∷ m) t = min d (earliest m t)

-- `poller.rc_answered().then(|| poller.tier())`.
unfoldable pub answered_tier : (r : Rclone) → MountPoller r.floats → Option Tier
answered_tier r p = if rc_answered r p then some (poller_tier r p) else none

module _ (m : Machine) where
  -- The rclone behind a socket.
  abbrev pub rclone_at : Text → Rclone
  rclone_at socket = record {
    World = m.World;
    floats = m.floats;
    rc_list = m.rc_list socket;
    vfs_stats = m.vfs_stats socket;
    vfs_queue = m.vfs_queue socket;
    core_stats = m.core_stats socket;
    now = m.now;
    scan = m.scan;
  }

  -- `Watcher`, with the registry that it shares and the world.
  pub record Watcher : Type 0 where
    pub registry : Registry
    pub config : Config
    pub runtime_dir : Text
    pub pollers : Map (MountPoller m.floats)
    pub due : Map ℕ
    pub sweep_due : ℕ
    pub last_sweep : ℕ
    pub world : m.World

  unfoldable pub watcher_new : Registry → Config → Text → m.World → Watcher
  watcher_new registry config runtime_dir w = record {
    registry = registry;
    config = config;
    runtime_dir = runtime_dir;
    pollers = [];
    due = [];
    sweep_due = m.now w;
    last_sweep = m.now w - min_sweep_gap;
    world = w;
  }

  unfoldable pub forget_cycled : Watcher → Watcher
  unfolding remove_all
  forget_cycled s =
      let (names, after) = m.take_cycled s.world in
      record s { pollers = remove_all names s.pollers; due = remove_all names s.due; world = after }

  -- What `reconcile` came back with.
  unfoldable pub observe : Option (List DiscoveredMount) → Watcher → Watcher × List Change
  unfolding view_of
  observe none s = (s, [])
  observe (some found) s =
      let (registry, changes) = observe_mounts s.registry (map (view_of s.config) found) in
      (record s { registry = registry }, changes)

  unfoldable pub sweep : Watcher → Watcher × List Change
  unfolding observe
  sweep s = let (found, after) = m.reconcile s.world in observe found (record s { world = after })

  unfoldable pub sweep_if_due : ℕ → Watcher → Watcher × List Change
  unfolding sweep
  sweep_if_due now s =
      let (swept, changes) = sweep s in
      let at = m.now swept.world in
      if leb s.sweep_due now
      then (record swept { last_sweep = at; sweep_due = at + sweep_interval }, changes)
      else (s, [])

  -- The poller of a mount, connected if there is none.
  unfoldable pub poller_for : Text → Watcher → MountPoller m.floats × m.World
  unfolding socket_path
  poller_for name s = elim (get s.pollers name) [
    | some p ↦ (p, s.world)
    | none ↦ connect_poller (rclone_at (socket_path s.runtime_dir name)) name s.world
  ]

  unfoldable pub note_answer : Registry → Option Tier → Registry × List Change
  note_answer r none = (r, [])
  note_answer r (some t) =
      let (after, change) = note_tier r t in (after, elim change [ none ↦ [] | some c ↦ c ∷ [] ])

  -- What is kept of a poll.
  unfoldable pub record_poll :
      Text → TransferState → MountPoller m.floats → m.World → Watcher → Watcher × List Change
  unfolding note_answer answered_tier
  record_poll name state p w s =
      let r = rclone_at (socket_path s.runtime_dir name) in
      let (noted, told) = note_answer s.registry (answered_tier r p) in
      let (registry, change) = observe_transfer noted (transfer_view state) in
      (
        record s {
          registry = registry;
          pollers = insert s.pollers name p;
          due = insert s.due name (m.now w + interval state s.config.poll * second);
          world = w;
        },
        told ++ elim change [ none ↦ [] | some c ↦ c ∷ [] ],
      )

  unfoldable pub poll_now : Text → Watcher → Watcher × List Change
  unfolding poller_for record_poll
  poll_now name s =
      let (p, w) = poller_for name s in
      let (state, after, last) = poll (rclone_at (socket_path s.runtime_dir name)) p w in
      record_poll name state after last s

  -- Whether a mount was polled and is not to be polled yet.
  unfoldable pub is_early : ℕ → Option ℕ → Bool
  is_early now none = false
  is_early now (some due) = ltb now due

  -- One round of the loop of `poll_due`.
  unfoldable pub poll_one : ℕ → Text → Watcher → Watcher × List Change
  unfolding poll_now is_early
  poll_one now name s =
      let polled = poll_now name s in if is_early now (get s.due name) then (s, []) else polled

  unfoldable pub poll_names : ℕ → List Text → Watcher → Watcher × List Change
  unfolding poll_one
  poll_names now [] s = (s, [])
  poll_names now (name ∷ names) s =
      let (next, first) = poll_one now name s in
      let (last, rest) = poll_names now names next in (last, first ++ rest)

  unfoldable pub poll_due : ℕ → Watcher → Watcher × List Change
  unfolding poll_names retain
  poll_due now s =
      let names = pollable s.registry in
      poll_names now names (record s {
        pollers = retain (contains names) s.pollers;
        due = retain (contains names) s.due;
      })

  -- `Watcher::tick`: the changes, and how long to wait.
  unfoldable pub tick : Watcher → Watcher × List Change × ℕ
  unfolding forget_cycled sweep_if_due poll_due earliest
  tick s =
      let now = m.now s.world in
      let (swept, found) = sweep_if_due now (forget_cycled s) in
      let (polled, read) = poll_due now swept in
      (polled, found ++ read, earliest polled.due polled.sweep_due - m.now polled.world)

  -- A method has acted on a mount: the next sweep is brought forward.
  unfoldable pub nudged : Watcher → Watcher
  nudged s = record s { sweep_due = s.last_sweep + min_sweep_gap }
