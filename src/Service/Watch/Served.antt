-- ===== src/Service/Watch/Served.antt =====
-- crates/service/src/watch.rs: after every tick, each mount that serves has a reading.
use rclone_vfsmount_tray.Prelude.{
  ℕ, ◌+◌, ◌≡◌, sym, ap, ◌∙◌, true, some, List, [], map, arith, leb, Text, text_eq, get, values,
  if-holds,
}
use rclone_vfsmount_tray.Core.Ipc.{MountView}
use rclone_vfsmount_tray.Core.Config.{Config}
use rclone_vfsmount_tray.Core.Supervisor.{DiscoveredMount}
use rclone_vfsmount_tray.Service.Registry.{Change, Registry, pollable, pollable_view, new}
use rclone_vfsmount_tray.Service.Watch.{
  Machine, sweep_interval, retain, contains, view_of, Watcher, watcher_new, forget_cycled, observe,
  sweep, sweep_if_due, poll_due, tick, nudged,
}
use rclone_vfsmount_tray.Service.Watch.Rounds.{
  holds, get-retain, IsKept, poll_names-reads, poll_names-mounts,
}
use rclone_vfsmount_tray.Service.Watch.Ticks.{
  serves, IsSteady, any-get, contains-pollable, Keyed, IsSwept, forget_cycled-IsKept,
  observe-IsSwept,
}

module _ (m : Machine) where
  -- A watcher from its start on, whatever becomes of the world between its ticks, and whenever a method
  -- nudges it.
  pub data Watching : Watcher m → Type 0 where
    started :
        (config : Config) (runtime_dir : Text) (w : m.World)
        → Watching (watcher_new m new config runtime_dir w)
    ticked : {s : Watcher m} → Watching s → Watching (tick m s).0
    woken : {s : Watcher m} → Watching s → Watching (nudged m s)
    passed : {s : Watcher m} (w : m.World) → Watching s → Watching (record s { world = w })

  -- What holds between ticks.
  abbrev Rests : Watcher m → Type 0
  Rests s = IsKept m s × Keyed s.registry

  -- That every mount to be polled has a reading.
  abbrev AllRead : Registry → Type 0
  AllRead r =
      (k : Text) (v : MountView)
      → get r.mounts k ≡ some v
      → pollable_view v ≡ true
      → holds r.transfers k ≡ true

  -- The rows of every sweep agree.
  abbrev pub Steady : Type 0
  Steady =
      (config : Config) (w : m.World) (ds : List DiscoveredMount)
      → (m.reconcile w).0 ≡ some ds
      → IsSteady (map (view_of config) ds)

  sweep_if_due-IsSwept :
      (now : ℕ) (s : Watcher m) → Steady → Rests s → IsSwept m (sweep_if_due m now s).0
  unfolding sweep_if_due sweep
  sweep_if_due-IsSwept now s steady h =
      let found = (m.reconcile s.world).0 in
      let asked : Watcher m = record s { world = (m.reconcile s.world).1 } in
      let swept = observe m found asked in
      let at = m.now swept.0.world in
      let kept : IsKept m asked = record {
        has_reading = h.0.has_reading;
        of_mount = h.0.of_mount;
      } in
      let after = observe-IsSwept m found asked (steady s.config s.world) kept h.1 in
      if-holds {A = Watcher m × List Change} (λ out. IsSwept m out.0) (leb s.sweep_due now)
        (record swept.0 { last_sweep = at; sweep_due = at + sweep_interval }, swept.1) (s, [])
        (λ e. record {
          swept_reading = after.swept_reading;
          swept_mount = after.swept_mount;
          swept_keys = after.swept_keys;
        })
        (λ e. record {
          swept_reading = λ k there due. h.0.has_reading k due;
          swept_mount = h.0.of_mount;
          swept_keys = h.1;
        })

  names_polled :
      (r : Registry) (k : Text) {v : MountView}
      → get r.mounts k ≡ some v
      → text_eq v.name k ≡ true
      → pollable_view v ≡ true
      → contains (pollable r) k ≡ true
  unfolding pollable
  names_polled r k {v} there named polls =
      contains-pollable k (values r.mounts)
      ∙ any-get (serves k) r.mounts k {v = v} there (cc (named, polls))

  poll_due-reads :
      (now : ℕ) (s : Watcher m)
      → IsSwept m s
      → let after = (poll_due m now s).0 in Rests after × AllRead after.registry
  unfolding poll_due
  poll_due-reads now s h =
      let names = pollable s.registry in
      let ready : Watcher m = record s {
        pollers = retain (contains names) s.pollers;
        due = retain (contains names) s.due;
      } in
      let kept : IsKept m ready = record {
        has_reading = λ k due.
            h.swept_reading k (ground (arith, due, get-retain (contains names) s.due k))
              (ground (arith, due, get-retain (contains names) s.due k));
        of_mount = λ k p found.
            h.swept_mount k p (ground (arith, found, get-retain (contains names) s.pollers k));
      } in
      let (rests, same, read) = poll_names-reads m now names ready kept in
      (
        (rests, λ k v there. h.swept_keys k v (ap (λ ms. get ms k) (sym same) ∙ there)),
        λ k v there polls. read k (
            let old = ap (λ ms. get ms k) (sym same) ∙ there in
            ground (arith, names_polled s.registry k old (h.swept_keys k v old) polls)),
      )

  tick_lem : (s : Watcher m) → Steady → Rests s → Rests (tick m s).0 × AllRead (tick m s).0.registry
  unfolding tick forget_cycled
  tick_lem s steady h =
      let now = m.now s.world in
      let ready : Rests (forget_cycled m s) = (forget_cycled-IsKept m s h.0, h.1) in
      poll_due-reads now (sweep_if_due m now (forget_cycled m s)).0
        (sweep_if_due-IsSwept now (forget_cycled m s) steady ready)

  -- Polling leaves the mounts that the sweep found.
  pub tick-mounts :
      (s : Watcher m)
      → (tick m s).0.registry.mounts
        ≡ (sweep_if_due m (m.now s.world) (forget_cycled m s)).0.registry.mounts
  unfolding tick poll_due
  tick-mounts s =
      let now = m.now s.world in
      let swept = (sweep_if_due m now (forget_cycled m s)).0 in
      let names = pollable swept.registry in
      poll_names-mounts m now names (record swept {
        pollers = retain (contains names) swept.pollers;
        due = retain (contains names) swept.due;
      })

  Watching-Rests : {s : Watcher m} → Steady → Watching s → Rests s
  unfolding watcher_new new nudged get
  Watching-Rests steady (started config runtime_dir w) = (
    record { has_reading = λ k due. absurd (cc due); of_mount = λ k p found. absurd (cc found) },
    λ k v found. absurd (cc found),
  )
  Watching-Rests steady (ticked {s} h) = (tick_lem s steady (Watching-Rests steady h)).0
  Watching-Rests steady (woken h) =
      let (kept, keyed) = Watching-Rests steady h in
      (record { has_reading = kept.has_reading; of_mount = kept.of_mount }, keyed)
  Watching-Rests steady (passed w h) =
      let (kept, keyed) = Watching-Rests steady h in
      (record { has_reading = kept.has_reading; of_mount = kept.of_mount }, keyed)

  -- Whatever became of the world, of rclone and of the mounts since the start: after a tick, each mount
  -- that the registry holds as mounted by the service has a reading there. Rows of a sweep that share
  -- a name must agree on whether the mount is to be polled.
  pub tick-reads :
      {s : Watcher m}
      → Steady
      → Watching s
      → (k : Text) (v : MountView) → get (tick m s).0.registry.mounts k ≡ some v
      → pollable_view v ≡ true
      → holds (tick m s).0.registry.transfers k ≡ true
  tick-reads {s} steady h = (tick_lem s steady (Watching-Rests steady h)).1
