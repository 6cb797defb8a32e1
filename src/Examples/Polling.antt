-- ===== src/Examples/Polling.antt =====
-- The poller and the watcher.
use rclone_vfsmount_tray.Prelude.{
  ℕ, ◌+◌, ◌*◌, ◌/◌, ◌≡◌, refl, ap, subst, true, false, none, some, List, [], ◌∷◌, map, arith, ltb,
  ◌==◌, if◌then◌else◌, Bool-cases, unwrap_or, Text, lit, text_eq, pos, get, insert, keys,
}
use rclone_vfsmount_tray.Core.Rc.{not_listening, is_unreachable}
use rclone_vfsmount_tray.Core.Message.{rc_error}
use rclone_vfsmount_tray.Core.Models.{VfsQueue, VfsStats, DiskCache, pending, reported_queue}
use rclone_vfsmount_tray.Core.Capabilities.{ok, err, from_paths, from_refusal, has, is_empty, probe}
use rclone_vfsmount_tray.Core.Config.{Config, mount}
use rclone_vfsmount_tray.Core.Supervisor.{DiscoveredMount, mounted, is_live, is_managed}
use rclone_vfsmount_tray.Core.Ipc.{MountView, mount_view, state_name, reason_of}
use rclone_vfsmount_tray.Core.Transfer.Rate.{Floats, rate_new}
use rclone_vfsmount_tray.Core.Transfer.Honesty.{Built, IsHonest}
use rclone_vfsmount_tray.Service.Registry.{
  new, pollable_view, observe_mounts, observe_all, observe_one, forget_missing,
}
use rclone_vfsmount_tray.Service.Registry.Sweep.{has_unpollable}
use rclone_vfsmount_tray.Service.Poller.{
  Rclone, MountPoller, timed_out, no_roots, connect_poller, probe_again, capabilities_of,
}
use rclone_vfsmount_tray.Service.Poller.Round.{poll, poll_known, reprobe}
use rclone_vfsmount_tray.Service.Poller.Sound.{poll-IsSound, IsSound}
use rclone_vfsmount_tray.Service.Poller.Honest.{poll-IsHonest}
use rclone_vfsmount_tray.Service.Poller.Memory.{connected, polled, Polling-paired, are_paired}
use rclone_vfsmount_tray.Service.Poller.Recovery.{
  poll-recovers, is_vouched, refused_again, refused_connect,
}
use rclone_vfsmount_tray.Service.Watch.{
  Machine, Watcher, watcher_new, tick, view_of, sweep_if_due, sweep, observe, forget_cycled,
}
use rclone_vfsmount_tray.Service.Watch.Rounds.{holds}
use rclone_vfsmount_tray.Service.Watch.Served.{started, Steady, tick-reads, tick-mounts}

-- Floats that are whole numbers.
abbrev whole : Floats
whole = record {
  F = ℕ;
  of_u64 = λ n. n;
  to_u64 = λ n. n;
  as_secs = λ n. n / 1000000000;
  div = λ a b. a / b;
  mul = λ a b. a * b;
  add = λ a b. a + b;
  at_most_zero = λ n. n == 0;
  smoothing = 1;
  kept = 0;
}

abbrev cache : DiskCache
cache = record {
  errored_files = 0;
  out_of_space = false;
  path = lit "/c/a";
  path_meta = lit "/m/a";
  uploads_in_progress = 1;
  uploads_queued = 0;
}

abbrev stats : VfsStats
stats = record { disk_cache = some cache; opt_cache_mode = some 2 }

abbrev queue : VfsQueue
queue = record {
  queue = some (record { name = lit "f"; id = 1; size = pos 10; tries = 0; uploading = true } ∷ []);
}

abbrev commands : List Text
commands = lit "vfs/stats" ∷ lit "vfs/queue" ∷ []

-- A rclone that answers from its second second on.
abbrev late_rclone : Rclone
late_rclone = record {
  World = ℕ;
  floats = whole;
  rc_list = λ w. (if ltb w 2 then err (not_listening (lit "/s")) else ok commands, w + 1);
  vfs_stats = λ w. (ok stats, w);
  vfs_queue = λ w. (ok queue, w);
  core_stats = λ w. (ok (record { transferring = none }), w);
  now = λ w. w;
  scan = λ meta path w. (timed_out, w);
}

-- A poller that no probe has got an answer for.
abbrev blind_poller : MountPoller whole
blind_poller = record {
  name = lit "a";
  caps = from_refusal (rc_error (not_listening (lit "/s")));
  rate = rate_new whole;
  roots = no_roots;
}

poll-IsSound_example :
    IsSound (poll late_rclone blind_poller 2).0 (poll late_rclone blind_poller 2).1.roots
poll-IsSound_example = poll-IsSound late_rclone blind_poller 2

poll-IsHonest_example :
    ((poll late_rclone blind_poller 2).0.mount ≡ lit "a")
    × ((poll late_rclone blind_poller 2).1.name ≡ lit "a")
    × Built (poll late_rclone blind_poller 2).0
    × IsHonest (poll late_rclone blind_poller 2).0
poll-IsHonest_example = poll-IsHonest late_rclone blind_poller 2

-- Connected and polled before rclone answers.
abbrev refused_twice : MountPoller whole × ℕ
refused_twice =
    let (p, w) = connect_poller late_rclone (lit "a") 0 in
    let (state, q, v) = poll late_rclone p w in (q, v)

poll-recovers_example :
    ((poll late_rclone refused_twice.0 refused_twice.1).0.outstanding_known ≡ is_vouched stats)
    × ((poll late_rclone refused_twice.0 refused_twice.1).0.pending ≡ pending queue)
unfolding connect_poller poll poll_known reprobe probe_again capabilities_of probe is_empty has
    from_paths from_refusal text_eq reported_queue is_unreachable
poll-recovers_example =
    let e = not_listening (lit "/s") in
    poll-recovers late_rclone 3 3 3 commands stats queue
      (refused_again e refl (refused_connect 0 e refl)) refl refl refl refl refl refl

abbrev after_two : MountPoller whole × ℕ
after_two =
    let (p, w) = connect_poller late_rclone (lit "a") 1 in
    let (state, q, v) = poll late_rclone p w in (q, v)

Polling-paired_example : (after_two.0.name ≡ lit "a") × (are_paired after_two.0.roots ≡ true)
Polling-paired_example = Polling-paired late_rclone (polled (connected 1))

abbrev found : List DiscoveredMount
found = record { name = lit "a"; state = mounted; mount_point = some (lit "/mnt/a") } ∷ []

-- The same rclone behind every socket, and a sweep that finds one mount.
abbrev machine : Machine
machine = record {
  World = ℕ;
  floats = whole;
  rc_list = λ s w. late_rclone.rc_list w;
  vfs_stats = λ s w. (ok stats, w);
  vfs_queue = λ s w. (ok queue, w);
  core_stats = λ s w. (ok (record { transferring = none }), w);
  now = λ w. w;
  scan = λ meta path w. (timed_out, w);
  reconcile = λ w. (some found, w);
  take_cycled = λ w. ([], w);
}

abbrev config : Config
config = record {
  rclone_path = none;
  poll = record { active_secs = 1; idle_secs = 10 };
  mounts = [];
}

abbrev watcher : Watcher machine
watcher = watcher_new machine new config (lit "/run") 0

machine-Steady : Steady machine
unfolding view_of mount_view pollable_view state_name text_eq is_live is_managed reason_of
machine-Steady config w ds e k h =
    subst (λ o. has_unpollable (map (view_of config) o) k ≡ false) (ap (λ o. unwrap_or o []) e)
      (ground (arith, Bool-cases (text_eq (lit "a") k)))

abbrev view : MountView
view = mount_view (record { name = lit "a"; state = mounted; mount_point = some (lit "/mnt/a") })

swept_row : get (tick machine watcher).0.registry.mounts (lit "a") ≡ some view
unfolding sweep_if_due sweep observe forget_cycled watcher_new observe_mounts observe_all
    observe_one forget_missing keys insert get view_of mount_view new text_eq mount
swept_row = ap (λ rows. get rows (lit "a")) (tick-mounts machine watcher)

tick-reads_example : holds (tick machine watcher).0.registry.transfers (lit "a") ≡ true
unfolding pollable_view mount_view state_name text_eq
tick-reads_example =
    tick-reads machine {s = watcher} machine-Steady (started config (lit "/run") 0) (lit "a") view
      swept_row refl
