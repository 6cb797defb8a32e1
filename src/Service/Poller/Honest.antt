-- ===== src/Service/Poller/Honest.antt =====
-- crates/service/src/poller.rs: what a poll returns is an honest reading of its own mount.
use rclone_vfsmount_tray.Prelude.{
  ◌≡◌, refl, ◌∙◌, subst, not, ◌||◌, Option, none, some, arith, ◌==◌, unwrap_or, Text, if-holds,
}
use rclone_vfsmount_tray.Core.Rc.{RcError, is_unreachable}
use rclone_vfsmount_tray.Core.Message.{no_rc_commands}
use rclone_vfsmount_tray.Core.Models.{CacheMode, writeback_uploads, CoreStats}
use rclone_vfsmount_tray.Core.Capabilities.{is_empty, degraded_reason, Answer, ok, err}
use rclone_vfsmount_tray.Core.Transfer.{
  TransferState, unmonitored, with_rate, has_byte_total, remaining_bytes,
}
use rclone_vfsmount_tray.Core.Transfer.Rate.{sample_at}
use rclone_vfsmount_tray.Core.Transfer.Honesty.{Built, progressed, rated, IsHonest, Built-IsHonest}
use rclone_vfsmount_tray.Service.Poller.{
  CacheProbe, Rclone, Poller, still, fetch_stats, fetch_queue, faulted, read_disk, unreachable,
}
use rclone_vfsmount_tray.Service.Poller.Round.{
  QueueRead, reading, blind, lost, broken, contradicted, qualify, liftable, lift, lift_from, moving,
  add_progress_of, add_rate, finish_poll, fall_back, poll_reading, poll_queue, poll_stats,
  poll_calls, reprobe, poll_known, poll,
}
use rclone_vfsmount_tray.Service.Poller.Readings.{
  IsReading, nothing-IsReading, disk_reading-IsReading, ReadsOf, read_queue-ReadsOf,
  qualify-IsReading, progress-mount, contradicted-IsReading,
}

module _ (r : Rclone) where
  -- A poll's outcome: a reading of this mount, and the poller of it.
  abbrev pub OutcomeOf : Text → TransferState × Poller r × r.World → Type 0
  OutcomeOf name out = IsReading name out.0 × (out.1.name ≡ name)

  lift-IsReading :
      (name : Text) (s : TransferState) (path : Text) (a : Answer CoreStats)
      → IsReading name s
      → IsReading name (lift s path a)
  unfolding lift
  lift-IsReading name s path (err e) h = h
  lift-IsReading name s path (ok stats) h =
      let ts = writeback_uploads stats path in (progressed ts h.0, progress-mount s ts ∙ h.1)

  lift_from-IsReading :
      (name : Text) (path : Option Text) (s : TransferState) (w : r.World)
      → IsReading name s
      → IsReading name (lift_from r path s w).0
  unfolding lift_from
  lift_from-IsReading name none s w h = h
  lift_from-IsReading name (some path) s w h = lift-IsReading name s path (r.core_stats w).0 h

  add_progress_of-IsReading :
      (p : Poller r) (s : TransferState) (w : r.World)
      → IsReading p.name s
      → IsReading p.name (add_progress_of r p s w).0
  unfolding add_progress_of
  add_progress_of-IsReading p s w h =
      if-holds {A = TransferState × r.World} (λ o. IsReading p.name o.0) (liftable p.caps s)
        (lift_from r p.roots.cache_path s w) (s, w)
        (λ e. lift_from-IsReading p.name p.roots.cache_path s w h) (λ e. h)

  add_rate-IsReading :
      (p : Poller r) (s : TransferState) (w : r.World)
      → IsReading p.name s
      → IsReading p.name (add_rate r p s w).0 × ((add_rate r p s w).1.name ≡ p.name)
  unfolding add_rate with_rate still
  add_rate-IsReading p s w h =
      let sampled = sample_at r.floats p.rate (r.now w) (remaining_bytes s) in
      if-holds {A = TransferState × Poller r} (λ o. IsReading p.name o.0 × (o.1.name ≡ p.name))
        ((s.pending.files == 0) || not (has_byte_total s)) (with_rate s none, still r p)
        (with_rate s (moving s sampled.0), record p { rate = sampled.1 })
        (λ e. ((rated none h.0, h.1), refl)) (λ e. ((rated (moving s sampled.0) h.0, h.1), refl))

  finish_poll-OutcomeOf :
      (p : Poller r) (cache : CacheProbe) (s : TransferState) (w : r.World)
      → IsReading p.name s
      → OutcomeOf p.name (finish_poll r p cache s w)
  unfolding finish_poll
  finish_poll-OutcomeOf p cache s w h =
      let out = add_progress_of r p (qualify cache s) w in
      add_rate-IsReading p out.0 out.1
        (add_progress_of-IsReading p (qualify cache s) w (qualify-IsReading p.name cache s h))

  read_disk-IsReading :
      (name : Text) (e : RcError) (mode : Option CacheMode) (meta path : Option Text) (w : r.World)
      → IsReading name (read_disk r name e mode meta path w).0
  unfolding read_disk
  read_disk-IsReading name e mode none path w = nothing-IsReading name _
  read_disk-IsReading name e mode (some meta) none w = nothing-IsReading name _
  read_disk-IsReading name e mode (some meta) (some path) w =
      disk_reading-IsReading name e mode (r.scan meta path w).0

  fall_back-OutcomeOf :
      (p : Poller r) (e : RcError) (w : r.World) → OutcomeOf p.name (fall_back r p e w)
  unfolding fall_back still unreachable
  fall_back-OutcomeOf p e w =
      let roots = p.roots in
      (read_disk-IsReading p.name e roots.mode roots.meta_path roots.cache_path w, refl)

  poll_reading-OutcomeOf :
      (p : Poller r) (cache : CacheProbe) (q : QueueRead) (w : r.World)
      → ReadsOf p.name q
      → OutcomeOf p.name (poll_reading r p cache q w)
  unfolding poll_reading faulted still
  poll_reading-OutcomeOf p cache (lost e) w h = fall_back-OutcomeOf p e w
  poll_reading-OutcomeOf p cache (broken e) w h = (nothing-IsReading p.name _, refl)
  poll_reading-OutcomeOf p cache (blind s) w h = (h, refl)
  poll_reading-OutcomeOf p cache (reading s) w h =
      if-holds (OutcomeOf p.name) s.outstanding_known (finish_poll r p cache s w)
        (contradicted p.name cache s, still r p, w) (λ e. finish_poll-OutcomeOf p cache s w h)
        (λ e. (contradicted-IsReading p.name cache s h, refl))

  poll_stats-OutcomeOf :
      (a : Answer CacheProbe) (p : Poller r) (w : r.World) → OutcomeOf p.name (poll_stats r a p w)
  unfolding poll_stats poll_queue faulted still
  poll_stats-OutcomeOf (ok cache) p w =
      poll_reading-OutcomeOf p cache _ (fetch_queue r p w).1
        (read_queue-ReadsOf p.name cache (fetch_queue r p w).0)
  poll_stats-OutcomeOf (err e) p w =
      if-holds (OutcomeOf p.name) (is_unreachable e) (fall_back r p e w)
        ((faulted r p e).0, (faulted r p e).1, w) (λ f. fall_back-OutcomeOf p e w)
        (λ f. (nothing-IsReading p.name _, refl))

  fetch_stats-name : (p : Poller r) (w : r.World) → (fetch_stats r p w).1.name ≡ p.name
  unfolding fetch_stats
  fetch_stats-name p w = ground arith

  reprobe-name : (p : Poller r) (w : r.World) → (reprobe r p w).0.name ≡ p.name
  unfolding reprobe
  reprobe-name p w = ground arith

  poll_calls-OutcomeOf : (p : Poller r) (w : r.World) → OutcomeOf p.name (poll_calls r p w)
  unfolding poll_calls
  poll_calls-OutcomeOf p w =
      let out = fetch_stats r p w in
      subst (λ name. OutcomeOf name (poll_stats r out.0 out.1 out.2)) (fetch_stats-name p w)
        (poll_stats-OutcomeOf out.0 out.1 out.2)

  -- Whatever rclone answers and the poller holds, a poll returns a state for the poller's own mount and
  -- leaves a poller of that mount. The state is one that the constructors and builders of readings
  -- make, and it is honest: with no source it does not claim to be complete, progress goes with a total
  -- from the queue, no total is credited to `core/stats`, and counts alone have no bytes and no files.
  pub poll-IsHonest :
      (p : Poller r) (w : r.World)
      → let (state, after, next) = poll r p w in
        (state.mount ≡ p.name) × (after.name ≡ p.name) × Built state × IsHonest state
  unfolding poll poll_known
  poll-IsHonest p w =
      let q = reprobe r p w in
      let nothing = unmonitored q.0.name (unwrap_or (degraded_reason q.0.caps) no_rc_commands) in
      let out : OutcomeOf q.0.name (poll r p w) =
        if-holds (OutcomeOf q.0.name) (is_empty q.0.caps) (nothing, q.0, q.1) (poll_calls r q.0 q.1)
          (λ e. (nothing-IsReading q.0.name _, refl)) (λ e. poll_calls-OutcomeOf q.0 q.1) in
      let same = reprobe-name p w in (out.0.1 ∙ same, out.1 ∙ same, out.0.0, Built-IsHonest out.0.0)
