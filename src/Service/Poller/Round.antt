-- ===== src/Service/Poller/Round.antt =====
-- crates/service/src/poller.rs: one poll, from what its calls came back with.
use rclone_vfsmount_tray.Prelude.{
  ℕ, Bool, true, false, not, ◌&&◌, ◌||◌, Option, none, some, ltb, ◌==◌, if◌then◌else◌, unwrap_or,
  Text, lit,
}
use rclone_vfsmount_tray.Core.Rc.{RcError, is_unreachable}
use rclone_vfsmount_tray.Core.Message.{
  no_rc_commands, neither_queue_nor_cache, neither_queue_nor_stats, cache_but_no_queue,
  queue_but_no_cache, no_vfs_stats,
}
use rclone_vfsmount_tray.Core.Models.{CoreStats, VfsQueue, writeback_uploads}
use rclone_vfsmount_tray.Core.Capabilities.{
  t2, Capabilities, degraded_reason, has, is_empty, Answer, ok, err,
}
use rclone_vfsmount_tray.Core.Transfer.{
  TransferState, unmonitored, from_queue, from_stats, with_progress, with_cache_health,
  partially_observed, with_rate, has_byte_total, remaining_bytes,
}
use rclone_vfsmount_tray.Core.Transfer.Rate.{sample_at}
use rclone_vfsmount_tray.Service.Poller.{
  CacheProbe, not_asked, absent, present, Rclone, trusts, floor_reason, is_not_found, Poller,
  probe_again, still, fetch_stats, fetch_queue, faulted, unreachable,
}

-- What the answer to `vfs/queue` makes of the poll: a state to go on with, one to return, or an error
-- for which to fall back to the disk or report a fault.
pub data QueueRead : Type 0 where
  reading : TransferState → QueueRead
  blind : TransferState → QueueRead
  lost : RcError → QueueRead
  broken : RcError → QueueRead

-- What a rclone without `vfs/queue` leaves to read.
unfoldable pub counts_alone : Text → CacheProbe → QueueRead
counts_alone name (present c mode) = reading (from_stats name c)
counts_alone name absent = blind (unmonitored name neither_queue_nor_cache)
counts_alone name not_asked = blind (unmonitored name neither_queue_nor_stats)

unfoldable pub read_queue : Text → CacheProbe → Answer VfsQueue → QueueRead
unfolding counts_alone
read_queue name cache (ok queue) = reading (from_queue name queue)
read_queue name cache (err e) =
    if is_unreachable e
    then lost e
    else if is_not_found e
    then counts_alone name cache
    else broken e

-- A reading of a queue that was not there.
unfoldable pub contradicted : Text → CacheProbe → TransferState → TransferState
contradicted name (present c mode) state = partially_observed (from_stats name c) cache_but_no_queue
contradicted name _ state = state

-- What `vfs/stats` adds to a reading, and takes from it.
unfoldable pub qualify : CacheProbe → TransferState → TransferState
unfolding trusts floor_reason
qualify (present c mode) state =
    let seen = with_cache_health state c in
    if trusts mode then seen else partially_observed seen (floor_reason mode)
qualify absent state = partially_observed state queue_but_no_cache
qualify not_asked state = partially_observed state no_vfs_stats

-- Whether progress can be laid over this reading.
unfoldable pub liftable : Capabilities → TransferState → Bool
liftable caps state =
    has caps (lit "core/stats") && elim state.fidelity [ some t2 ↦ true | _ ↦ false ]

unfoldable pub lift : TransferState → Text → Answer CoreStats → TransferState
lift state path (ok stats) = with_progress state (writeback_uploads stats path)
lift state path (err e) = state

-- `filter(|r| *r > 0 || state.uploading == Some(0))`.
unfoldable pub moving : TransferState → Option ℕ → Option ℕ
moving state none = none
moving state (some rate) =
    if ltb 0 rate || elim state.uploading [ none ↦ false | some n ↦ n == 0 ]
    then some rate
    else none

module _ (r : Rclone) where
  -- With the cache path, if it is known.
  unfoldable pub lift_from : Option Text → TransferState → r.World → TransferState × r.World
  unfolding lift
  lift_from none state w = (state, w)
  lift_from (some path) state w =
      let (answer, after) = r.core_stats w in (lift state path answer, after)

  unfoldable pub add_progress_of : Poller r → TransferState → r.World → TransferState × r.World
  unfolding liftable lift_from
  add_progress_of p state w =
      if liftable p.caps state then lift_from p.roots.cache_path state w else (state, w)

  unfoldable pub add_rate : Poller r → TransferState → r.World → TransferState × Poller r
  unfolding still moving
  add_rate p state w =
      if (state.pending.files == 0) || not (has_byte_total state)
      then (with_rate state none, still r p)
      else (let (rate, estimator) = sample_at r.floats p.rate (r.now w) (remaining_bytes state) in
          (with_rate state (moving state rate), record p { rate = estimator }))

  -- From a reading that is known to be one of a queue or of counts.
  unfoldable pub finish_poll :
      Poller r → CacheProbe → TransferState → r.World → TransferState × Poller r × r.World
  unfolding qualify add_progress_of add_rate
  finish_poll p cache state w =
      let (lifted, after) = add_progress_of p (qualify cache state) w in
      let (rated, q) = add_rate p lifted after in (rated, q, after)

  unfoldable pub fall_back : Poller r → RcError → r.World → TransferState × Poller r × r.World
  unfolding still
  fall_back p e w = let (state, after) = unreachable r (still r p) e w in (state, still r p, after)

  -- From the answer to `vfs/queue` on.
  unfoldable pub poll_reading :
      Poller r → CacheProbe → QueueRead → r.World → TransferState × Poller r × r.World
  unfolding finish_poll fall_back contradicted
  poll_reading p cache (lost e) w = fall_back p e w
  poll_reading p cache (broken e) w = let (state, q) = faulted r p e in (state, q, w)
  poll_reading p cache (blind state) w = (state, p, w)
  poll_reading p cache (reading state) w =
      if state.outstanding_known
      then finish_poll p cache state w
      else (contradicted p.name cache state, still r p, w)

  unfoldable pub poll_queue : Poller r → CacheProbe → r.World → TransferState × Poller r × r.World
  unfolding poll_reading read_queue
  poll_queue p cache w =
      let (answer, after) = fetch_queue r p w in
      poll_reading p cache (read_queue p.name cache answer) after

  -- From the answer to `vfs/stats` on.
  unfoldable pub poll_stats :
      Answer CacheProbe → Poller r → r.World → TransferState × Poller r × r.World
  unfolding poll_queue fall_back
  poll_stats (ok cache) p w = poll_queue p cache w
  poll_stats (err e) p w =
      if is_unreachable e
      then fall_back p e w
      else (let (state, q) = faulted r p e in (state, q, w))

  -- Once there are commands to call.
  unfoldable pub poll_calls : Poller r → r.World → TransferState × Poller r × r.World
  unfolding poll_stats
  poll_calls p w = let (cache, q, after) = fetch_stats r p w in poll_stats cache q after

  -- The probe that a poller without commands begins with.
  unfoldable pub reprobe : Poller r → r.World → Poller r × r.World
  unfolding probe_again
  reprobe p w =
      if is_empty p.caps
      then (let (caps, after) = probe_again r w in (record p { caps = caps }, after))
      else (p, w)

  -- From the second test of the commands on.
  unfoldable pub poll_known : Poller r → r.World → TransferState × Poller r × r.World
  unfolding poll_calls
  poll_known p w =
      if is_empty p.caps
      then (unmonitored p.name (unwrap_or (degraded_reason p.caps) no_rc_commands), p, w)
      else poll_calls p w

  -- `MountPoller::poll`.
  unfoldable pub poll : Poller r → r.World → TransferState × Poller r × r.World
  unfolding poll_known reprobe
  poll p w = let (q, after) = reprobe p w in poll_known q after
