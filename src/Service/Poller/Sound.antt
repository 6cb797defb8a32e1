-- ===== src/Service/Poller/Sound.antt =====
-- crates/service/src/poller.rs: when a poll says that what it read is all there is.
use rclone_vfsmount_tray.Prelude.{
  if-holds, ◌≡◌, refl, ◌≢◌, true, false, Option, none, some, arith, is_some, unwrap_or, Text,
}
use rclone_vfsmount_tray.Core.Rc.{RcError, is_unreachable}
use rclone_vfsmount_tray.Core.Message.{Message, no_rc_commands}
use rclone_vfsmount_tray.Core.Models.{CacheMode, VfsQueue, VfsStats, DiskCache}
use rclone_vfsmount_tray.Core.Capabilities.{t4, is_empty, degraded_reason, Answer, ok, err}
use rclone_vfsmount_tray.Core.Transfer.{
  TransferState, unmonitored, from_queue, from_stats, with_progress, with_cache_health,
  partially_observed, degraded, with_rate,
}
use rclone_vfsmount_tray.Service.Poller.{
  CacheProbe, not_asked, absent, present, Scanned, Rclone, Roots, trusts, Poller, still, latch,
  heed_stats, forget_roots, disk_reading, fetch_stats, fetch_queue, faulted, read_disk, unreachable,
}
use rclone_vfsmount_tray.Service.Poller.Round.{
  QueueRead, reading, blind, lost, broken, counts_alone, read_queue, contradicted, qualify, lift,
  lift_from, add_progress_of, add_rate, finish_poll, fall_back, poll_reading, poll_queue,
  poll_stats, poll_calls, reprobe, poll_known, poll,
}

-- A state that says that it is the whole story goes with a cache whose mode puts every write through
-- the queue; and one that was read from disk, whether it says so or not, with two roots to walk.
abbrev pub IsSound : TransferState → Roots → Type 0
IsSound s roots =
    (s.outstanding_known ≡ true → trusts roots.mode ≡ true)
    × (s.fidelity ≡ some t4 → (is_some roots.meta_path ≡ true) × (is_some roots.cache_path ≡ true))

-- What the answer to `vfs/stats` said of the mode is what is latched.
abbrev Agreed : CacheProbe → Roots → Type 0
Agreed cache roots =
    (c : DiskCache) (mode : Option CacheMode) → cache ≡ present c mode → mode ≡ roots.mode

present-mode : {c d : DiskCache} {m n : Option CacheMode} → present c m ≡ present d n → m ≡ n
present-mode h = cc h

heed_stats-Agreed :
    (roots : Roots) (a : Answer VfsStats) (cache : CacheProbe)
    → (heed_stats roots a).0 ≡ ok cache
    → Agreed cache (heed_stats roots a).1
unfolding heed_stats latch forget_roots
heed_stats-Agreed roots (err e) cache h c mode f = ground (arith, h, f)
heed_stats-Agreed roots (ok stats) cache h c mode f = ground (arith, h, f)

disk_reading-known :
    (name : Text) (e : RcError) (mode : Option CacheMode) (scanned : Scanned)
    → (disk_reading name e mode scanned).outstanding_known ≡ true
    → trusts mode ≡ true
unfolding disk_reading unmonitored degraded partially_observed
disk_reading-known name e mode scanned h = ground (arith, h)

-- A reading to go on with was not made from the disk.
read_queue-fidelity :
    (name : Text) (cache : CacheProbe) (a : Answer VfsQueue) {s : TransferState}
    → read_queue name cache a ≡ reading s
    → s.fidelity ≢ some t4
unfolding read_queue counts_alone from_queue from_stats unmonitored
read_queue-fidelity name cache (ok q) {s} h = ground arith
read_queue-fidelity name cache (err e) {s} h = ground arith

qualify-known :
    (cache : CacheProbe) (roots : Roots) (s : TransferState)
    → Agreed cache roots
    → (qualify cache s).outstanding_known ≡ true
    → trusts roots.mode ≡ true
unfolding qualify partially_observed with_cache_health
qualify-known not_asked roots s a h = cc h
qualify-known absent roots s a h = cc h
qualify-known (present c mode) roots s a h = ground (arith, a c mode refl, h)

qualify-fidelity :
    (cache : CacheProbe) (s : TransferState) → (qualify cache s).fidelity ≡ s.fidelity
unfolding qualify partially_observed with_cache_health
qualify-fidelity cache s = ground arith

module _ (r : Rclone) where
  add_progress_of-kept :
      (p : Poller r) (s : TransferState) (w : r.World)
      → ((add_progress_of r p s w).0.outstanding_known ≡ s.outstanding_known)
        × ((add_progress_of r p s w).0.fidelity ≡ s.fidelity)
  unfolding add_progress_of lift_from lift with_progress
  add_progress_of-kept p s w = ground arith

  add_rate-kept :
      (p : Poller r) (s : TransferState) (w : r.World)
      → ((add_rate r p s w).0.outstanding_known ≡ s.outstanding_known)
        × ((add_rate r p s w).0.fidelity ≡ s.fidelity)
        × ((add_rate r p s w).1.roots ≡ p.roots)
  unfolding add_rate with_rate still
  add_rate-kept p s w = ground arith

  fetch_stats-Agreed :
      (p : Poller r) (w : r.World) (cache : CacheProbe)
      → (fetch_stats r p w).0 ≡ ok cache
      → Agreed cache (fetch_stats r p w).1.roots
  unfolding fetch_stats
  fetch_stats-Agreed p w cache h c mode f =
      ground (arith, h, f, heed_stats-Agreed p.roots (r.vfs_stats w).0 cache _ c mode f)

  finish_poll-IsSound :
      (p : Poller r) (cache : CacheProbe) (s : TransferState) (w : r.World)
      → Agreed cache p.roots
      → s.fidelity ≢ some t4
      → IsSound (finish_poll r p cache s w).0 (finish_poll r p cache s w).1.roots
  unfolding finish_poll
  finish_poll-IsSound p cache s w a f =
      let q = add_progress_of r p (qualify cache s) w in
      ground (
        arith,
        add_progress_of-kept p (qualify cache s) w,
        add_rate-kept p q.0 q.1,
        qualify-known cache p.roots s a,
        qualify-fidelity cache s,
      )

  read_disk-known :
      (name : Text) (e : RcError) (mode : Option CacheMode) (meta path : Option Text) (w : r.World)
      → (read_disk r name e mode meta path w).0.outstanding_known ≡ true
      → trusts mode ≡ true
  unfolding read_disk unmonitored
  read_disk-known name e mode none path w h = absurd (cc h)
  read_disk-known name e mode (some meta) none w h = absurd (cc h)
  read_disk-known name e mode (some meta) (some path) w h =
      disk_reading-known name e mode (r.scan meta path w).0 h

  read_disk-fidelity :
      (name : Text) (e : RcError) (mode : Option CacheMode) (meta path : Option Text) (w : r.World)
      → (read_disk r name e mode meta path w).0.fidelity ≡ some t4
      → (is_some meta ≡ true) × (is_some path ≡ true)
  unfolding read_disk unmonitored
  read_disk-fidelity name e mode none path w h = absurd (cc h)
  read_disk-fidelity name e mode (some meta) none w h = absurd (cc h)
  read_disk-fidelity name e mode (some meta) (some path) w h = (refl, refl)

  fall_back-IsSound :
      (p : Poller r) (e : RcError) (w : r.World)
      → IsSound (fall_back r p e w).0 (fall_back r p e w).1.roots
  unfolding fall_back still unreachable
  fall_back-IsSound p e w =
      let roots = p.roots in
      (
        read_disk-known p.name e roots.mode roots.meta_path roots.cache_path w,
        read_disk-fidelity p.name e roots.mode roots.meta_path roots.cache_path w,
      )

  -- A state that neither says that it is the whole story nor was read from disk.
  abbrev SaysLittle : TransferState → Type 0
  SaysLittle s = (s.outstanding_known ≡ false) × (s.fidelity ≢ some t4)

  contradicted-SaysLittle :
      (name : Text) (cache : CacheProbe) (s : TransferState)
      → SaysLittle s
      → SaysLittle (contradicted name cache s)
  unfolding contradicted partially_observed from_stats
  contradicted-SaysLittle name cache s h = ground (arith, h)

  blind-SaysLittle :
      (name : Text) (cache : CacheProbe) (a : Answer VfsQueue) {s : TransferState}
      → read_queue name cache a ≡ blind s
      → SaysLittle s
  unfolding read_queue counts_alone unmonitored
  blind-SaysLittle name cache a {s} h = ground arith

  -- What a poll returns: a sound state for the roots that the poller is left with.
  abbrev EndsSound : TransferState × Poller r × r.World → Type 0
  EndsSound out = IsSound out.0 out.1.roots

  little-IsSound : (s : TransferState) (roots : Roots) → SaysLittle s → IsSound s roots
  little-IsSound s roots h = (λ k. absurd (cc (h.0, k)), λ k. absurd (h.1 k))

  nothing-IsSound : (name : Text) (m : Message) (roots : Roots) → IsSound (unmonitored name m) roots
  unfolding unmonitored
  nothing-IsSound name m roots = little-IsSound (unmonitored name m) roots (refl, λ k. cc k)

  poll_reading-IsSound :
      (p : Poller r) (cache : CacheProbe) (a : Answer VfsQueue) (q : QueueRead) (w : r.World)
      → read_queue p.name cache a ≡ q
      → Agreed cache p.roots
      → EndsSound (poll_reading r p cache q w)
  unfolding poll_reading faulted
  poll_reading-IsSound p cache a (lost e) w h g = fall_back-IsSound p e w
  poll_reading-IsSound p cache a (broken e) w h g = nothing-IsSound p.name _ (still r p).roots
  poll_reading-IsSound p cache a (blind s) w h g =
      little-IsSound s p.roots (blind-SaysLittle p.name cache a {s = s} h)
  poll_reading-IsSound p cache a (reading s) w h g =
      let no_disk = read_queue-fidelity p.name cache a {s = s} h in
      if-holds EndsSound s.outstanding_known (finish_poll r p cache s w)
        (contradicted p.name cache s, still r p, w) (λ e. finish_poll-IsSound p cache s w g no_disk)
        (λ e.
          little-IsSound (contradicted p.name cache s) (still r p).roots
            (contradicted-SaysLittle p.name cache s (e, no_disk)))

  poll_stats-IsSound :
      (a : Answer CacheProbe) (p : Poller r) (w : r.World)
      → ((cache : CacheProbe) → a ≡ ok cache → Agreed cache p.roots)
      → EndsSound (poll_stats r a p w)
  unfolding poll_stats poll_queue faulted
  poll_stats-IsSound (ok cache) p w g =
      poll_reading-IsSound p cache (fetch_queue r p w).0 _ (fetch_queue r p w).1 refl (g cache refl)
  poll_stats-IsSound (err e) p w g =
      if-holds EndsSound (is_unreachable e) (fall_back r p e w)
        ((faulted r p e).0, (faulted r p e).1, w) (λ f. fall_back-IsSound p e w)
        (λ f. nothing-IsSound p.name _ (still r p).roots)

  poll_calls-IsSound : (p : Poller r) (w : r.World) → EndsSound (poll_calls r p w)
  unfolding poll_calls
  poll_calls-IsSound p w =
      let out = fetch_stats r p w in poll_stats-IsSound out.0 out.1 out.2 (fetch_stats-Agreed p w)

  -- Whatever rclone answers and the poller holds: a poll whose state says that what is outstanding is
  -- known leaves a cache mode that puts every write through the queue; and a poll whose state was read
  -- from the disk, complete or partial, leaves both roots of the cache.
  pub poll-IsSound : (p : Poller r) (w : r.World) → IsSound (poll r p w).0 (poll r p w).1.roots
  unfolding poll poll_known
  poll-IsSound p w =
      let q = reprobe r p w in
      if-holds EndsSound (is_empty q.0.caps)
        (unmonitored q.0.name (unwrap_or (degraded_reason q.0.caps) no_rc_commands), q.0, q.1)
        (poll_calls r q.0 q.1) (λ e. nothing-IsSound q.0.name _ q.0.roots)
        (λ e. poll_calls-IsSound q.0 q.1)
