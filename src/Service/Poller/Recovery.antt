-- ===== src/Service/Poller/Recovery.antt =====
-- crates/service/src/poller.rs: rclone is read again as soon as it answers.
use rclone_vfsmount_tray.Prelude.{
  ◌≡◌, Bool, ◌&&◌, is_some, none, refl, sym, ◌∙◌, subst, true, false, some, List, [], ◌∷◌, arith,
  unwrap_or, Text, lit, if-holds,
}
use rclone_vfsmount_tray.Core.Rc.{RcError}
use rclone_vfsmount_tray.Core.Message.{no_rc_commands}
use rclone_vfsmount_tray.Core.Models.{VfsQueue, VfsStats}
use rclone_vfsmount_tray.Core.Capabilities.{
  has, is_empty, degraded_reason, ok, err, from_paths, from_refusal, probe,
}
use rclone_vfsmount_tray.Core.Transfer.{
  TransferState, unmonitored, from_queue, with_progress, with_cache_health, partially_observed,
  with_rate,
}
use rclone_vfsmount_tray.Service.Poller.{
  CacheProbe, absent, present, connect_poller, Rclone, trusts, Poller, probe_again, still, latch,
  heed_stats, capabilities_of, fetch_stats, fetch_queue,
}
use rclone_vfsmount_tray.Service.Poller.Round.{
  read_queue, contradicted, qualify, lift, lift_from, add_progress_of, add_rate, finish_poll,
  poll_reading, poll_queue, poll_stats, poll_calls, reprobe, poll_known, poll,
}
use rclone_vfsmount_tray.Core.Models.{reported_queue, cache_mode, pending}

-- Whether the answer to `vfs/stats` lets a queue be taken for all that is outstanding.
abbrev pub is_vouched : VfsStats → Bool
is_vouched stats = is_some stats.disk_cache && trusts (cache_mode stats)

-- The cache that an answer to `vfs/stats` tells of.
abbrev told_cache : VfsStats → CacheProbe
told_cache stats = elim stats.disk_cache [ none ↦ absent | some c ↦ present c (cache_mode stats) ]

module _ (r : Rclone) where
  -- A poller that was connected under this name while `rc/list` failed, and polled any number of times
  -- while it still failed, whatever the world did between one poll and the next.
  pub data Unanswered (name : Text) : Poller r → r.World → Type 0 where
    refused_connect :
        (w : r.World) (e : RcError)
        → (r.rc_list w).0 ≡ err e
        → Unanswered name (connect_poller r name w).0 (connect_poller r name w).1
    waited : {p : Poller r} {w : r.World} (v : r.World) → Unanswered name p w → Unanswered name p v
    refused_again :
        {p : Poller r} {w : r.World} (e : RcError)
        → (r.rc_list w).0 ≡ err e
        → Unanswered name p w
        → Unanswered name (poll r p w).1 (poll r p w).2

  -- A probe that failed leaves no commands.
  refused_probe :
      (w : r.World) (e : RcError) → (r.rc_list w).0 ≡ err e → is_empty (probe_again r w).0 ≡ true
  unfolding probe_again probe capabilities_of from_refusal is_empty
  refused_probe w e h = ground (arith, h)

  refused_poll :
      (p : Poller r) (w : r.World) (e : RcError)
      → is_empty p.caps ≡ true
      → (r.rc_list w).0 ≡ err e
      → (is_empty (poll r p w).1.caps ≡ true) × ((poll r p w).1.name ≡ p.name)
  unfolding poll poll_known reprobe
  refused_poll p w e h k = ground (arith, h, refused_probe w e k)

  Unanswered-is_empty :
      {name : Text} {p : Poller r} {w : r.World}
      → Unanswered name p w
      → (is_empty p.caps ≡ true) × (p.name ≡ name)
  unfolding connect_poller
  Unanswered-is_empty (refused_connect w e h) = (refused_probe w e h, refl)
  Unanswered-is_empty (waited v u) = Unanswered-is_empty u
  Unanswered-is_empty (refused_again {p} {w} e h u) =
      let before = Unanswered-is_empty u in
      let after = refused_poll p w e before.0 h in (after.0, after.1 ∙ before.1)

  finish_poll-reading :
      (p : Poller r) (stats : VfsStats) (s : TransferState) (w : r.World)
      → s.outstanding_known ≡ true
      → let out = (finish_poll r p (told_cache stats) s w).0 in
        (out.outstanding_known ≡ is_vouched stats) × (out.pending ≡ s.pending)
  unfolding finish_poll qualify with_cache_health partially_observed add_progress_of lift_from lift
      with_progress add_rate with_rate still
  finish_poll-reading p stats s w h = ground (arith, h)

  from_queue-reading :
      (name : Text) (q : VfsQueue)
      → reported_queue q ≡ true
      → ((from_queue name q).outstanding_known ≡ true) × ((from_queue name q).pending ≡ pending q)
  unfolding from_queue
  from_queue-reading name q h = ground (arith, h)

  -- What a poll shows of a queue.
  abbrev Shows : VfsStats → VfsQueue → TransferState × Poller r × r.World → Type 0
  Shows stats q out = (out.0.outstanding_known ≡ is_vouched stats) × (out.0.pending ≡ pending q)

  poll_queue-Shows :
      (p : Poller r) (stats : VfsStats) (q : VfsQueue) (w w3 : r.World)
      → has p.caps (lit "vfs/queue") ≡ true
      → r.vfs_queue w ≡ (ok q, w3)
      → reported_queue q ≡ true
      → Shows stats q (poll_queue r p (told_cache stats) w)
  unfolding poll_queue fetch_queue read_queue poll_reading
  poll_queue-Shows p stats q w w3 registered answered there =
      let s = from_queue p.name q in
      let cache = told_cache stats in
      let at_queue : fetch_queue r p w ≡ (ok q, w3) = cc (registered, answered) in
      let seen = from_queue-reading p.name q there in
      subst (λ out. Shows stats q (poll_reading r p cache (read_queue p.name cache out.0) out.1))
        (sym at_queue)
        (if-holds (Shows stats q) s.outstanding_known (finish_poll r p cache s w3)
          (contradicted p.name cache s, still r p, w3)
          (λ e. let f = finish_poll-reading p stats s w3 e in (f.0, f.1 ∙ seen.1))
          (λ e. absurd (cc (e, seen.0))))

  reprobed :
      (p : Poller r) (w w1 : r.World) (paths : List Text)
      → is_empty p.caps ≡ true
      → r.rc_list w ≡ (ok paths, w1)
      → reprobe r p w ≡ (record p { caps = from_paths paths }, w1)
  unfolding reprobe probe_again capabilities_of probe
  reprobed p w w1 paths empty listed = cc (empty, listed)

  fetched :
      (p : Poller r) (w w2 : r.World) (stats : VfsStats)
      → has p.caps (lit "vfs/stats") ≡ true
      → r.vfs_stats w ≡ (ok stats, w2)
      → fetch_stats r p w
        ≡ (ok (told_cache stats), record p { roots = (latch p.roots stats).1 }, w2)
  unfolding fetch_stats heed_stats latch
  fetched p w w2 stats registered told = ground (arith, registered, told)

  nonempty :
      (paths : List Text) (k : Text)
      → has (from_paths paths) k ≡ true
      → is_empty (from_paths paths) ≡ false
  unfolding has is_empty from_paths
  nonempty [] k h = cc h
  nonempty (x ∷ paths) k h = refl

  poll_calls-Shows :
      (p : Poller r) (w w2 w3 : r.World) (stats : VfsStats) (q : VfsQueue)
      → has p.caps (lit "vfs/stats") ≡ true
      → has p.caps (lit "vfs/queue") ≡ true
      → r.vfs_stats w ≡ (ok stats, w2)
      → r.vfs_queue w2 ≡ (ok q, w3)
      → reported_queue q ≡ true
      → Shows stats q (poll_calls r p w)
  unfolding poll_calls poll_stats
  poll_calls-Shows p w w2 w3 stats q has_stats has_queue told queued there =
      let after : Poller r = record p { roots = (latch p.roots stats).1 } in
      subst (λ out. Shows stats q (poll_stats r out.0 out.1 out.2))
        (sym (fetched p w w2 stats has_stats told))
        (poll_queue-Shows after stats q w2 w3 has_queue queued there)

  -- Take a poller that was connected while `rc/list` failed, and polled any number of times while it
  -- still failed. If rclone then lists commands, `vfs/stats` and `vfs/queue` among them, answers the first
  -- with any figures and the second with a queue, the very next poll shows what that queue holds; and it
  -- says that this is all exactly if the figures tell of a cache whose mode puts every write through the
  -- queue.
  pub poll-recovers :
      {name : Text} {p : Poller r} {w : r.World} (w1 w2 w3 : r.World) (paths : List Text)
      (stats : VfsStats) (q : VfsQueue)
      → Unanswered name p w
      → r.rc_list w ≡ (ok paths, w1)
      → has (from_paths paths) (lit "vfs/stats") ≡ true
      → has (from_paths paths) (lit "vfs/queue") ≡ true
      → r.vfs_stats w1 ≡ (ok stats, w2)
      → r.vfs_queue w2 ≡ (ok q, w3)
      → reported_queue q ≡ true
      → ((poll r p w).0.outstanding_known ≡ is_vouched stats) × ((poll r p w).0.pending ≡ pending q)
  unfolding poll poll_known
  poll-recovers {name} {p} {w} w1 w2 w3 paths stats q before listed has_stats has_queue told queued
        there =
      let probed : Poller r = record p { caps = from_paths paths } in
      let nothing =
        unmonitored p.name (unwrap_or (degraded_reason (from_paths paths)) no_rc_commands) in
      subst (λ out. Shows stats q (poll_known r out.0 out.1))
        (sym (reprobed p w w1 paths (Unanswered-is_empty before).0 listed))
        (if-holds (Shows stats q) (is_empty (from_paths paths)) (nothing, probed, w1)
          (poll_calls r probed w1)
          (λ e. absurd (cc (e, nonempty paths (lit "vfs/stats") has_stats)))
          (λ e. poll_calls-Shows probed w1 w2 w3 stats q has_stats has_queue told queued there))
