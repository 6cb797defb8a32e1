-- ===== src/Service/Poller/Memory.antt =====
-- crates/service/src/poller.rs: what a poller remembers from one poll to the next.
use rclone_vfsmount_tray.Prelude.{
  ◌≡◌, refl, ap, ◌∙◌, Bool, true, false, not, ◌&&◌, none, some, arith, is_some, unwrap_or, Text,
  if-holds,
}
use rclone_vfsmount_tray.Core.Rc.{is_unreachable}
use rclone_vfsmount_tray.Core.Message.{no_rc_commands}
use rclone_vfsmount_tray.Core.Models.{VfsStats}
use rclone_vfsmount_tray.Core.Capabilities.{is_empty, degraded_reason, Answer, ok, err}
use rclone_vfsmount_tray.Core.Transfer.{TransferState, unmonitored}
use rclone_vfsmount_tray.Service.Poller.{
  CacheProbe, Rclone, Roots, Poller, still, latch, heed_stats, forget_roots, connect_poller, is_nil,
  fetch_stats, faulted,
}
use rclone_vfsmount_tray.Service.Poller.Honest.{poll-IsHonest}
use rclone_vfsmount_tray.Service.Poller.Round.{
  QueueRead, reading, blind, lost, broken, contradicted, add_rate, finish_poll, fall_back,
  poll_reading, poll_queue, poll_stats, poll_calls, reprobe, poll_known, poll,
}

-- The two roots of a cache are known together, each with a name, or not at all.
abbrev pub are_paired : Roots → Bool
are_paired roots = elim roots.cache_path [
  | none ↦ not (is_some roots.meta_path)
  | some path ↦
      not (is_nil path) && elim roots.meta_path [ none ↦ false | some meta ↦ not (is_nil meta) ]
]

heed_stats-paired :
    (roots : Roots) (a : Answer VfsStats)
    → are_paired roots ≡ true
    → are_paired (heed_stats roots a).1 ≡ true
unfolding heed_stats latch forget_roots
heed_stats-paired roots (ok stats) h = ground arith
heed_stats-paired roots (err e) h = ground (arith, h)

module _ (r : Rclone) where
  -- A poller that was connected under this name and polled any number of times, whatever became of the
  -- world between one poll and the next.
  pub data Polling (name : Text) : Poller r → r.World → Type 0 where
    connected : (w : r.World) → Polling name (connect_poller r name w).0 (connect_poller r name w).1
    elapsed : {p : Poller r} {w : r.World} (v : r.World) → Polling name p w → Polling name p v
    polled :
        {p : Poller r} {w : r.World} → Polling name p w → Polling name (poll r p w).1 (poll r p w).2

  -- What each step of a poll leaves of the roots.
  abbrev Keeps : Roots → TransferState × Poller r × r.World → Type 0
  Keeps roots out = out.1.roots ≡ roots

  add_rate-roots :
      (p : Poller r) (s : TransferState) (w : r.World) → (add_rate r p s w).1.roots ≡ p.roots
  unfolding add_rate still
  add_rate-roots p s w = ground arith

  poll_reading-roots :
      (p : Poller r) (cache : CacheProbe) (q : QueueRead) (w : r.World)
      → Keeps p.roots (poll_reading r p cache q w)
  unfolding poll_reading faulted still finish_poll fall_back
  poll_reading-roots p cache (lost e) w = refl
  poll_reading-roots p cache (broken e) w = refl
  poll_reading-roots p cache (blind s) w = refl
  poll_reading-roots p cache (reading s) w =
      if-holds (Keeps p.roots) s.outstanding_known (finish_poll r p cache s w)
        (contradicted p.name cache s, still r p, w) (λ e. add_rate-roots p _ _) (λ e. refl)

  poll_stats-roots :
      (a : Answer CacheProbe) (p : Poller r) (w : r.World) → Keeps p.roots (poll_stats r a p w)
  unfolding poll_stats poll_queue faulted still fall_back
  poll_stats-roots (ok cache) p w = poll_reading-roots p cache _ _
  poll_stats-roots (err e) p w =
      if-holds (Keeps p.roots) (is_unreachable e) (fall_back r p e w)
        ((faulted r p e).0, (faulted r p e).1, w) (λ f. refl) (λ f. refl)

  fetch_stats-paired :
      (p : Poller r) (w : r.World)
      → are_paired p.roots ≡ true
      → are_paired (fetch_stats r p w).1.roots ≡ true
  unfolding fetch_stats
  fetch_stats-paired p w h = ground (arith, heed_stats-paired p.roots (r.vfs_stats w).0 h, h)

  reprobe-roots : (p : Poller r) (w : r.World) → (reprobe r p w).0.roots ≡ p.roots
  unfolding reprobe
  reprobe-roots p w = ground arith

  poll_calls-paired :
      (p : Poller r) (w : r.World)
      → are_paired p.roots ≡ true
      → are_paired (poll_calls r p w).1.roots ≡ true
  unfolding poll_calls
  poll_calls-paired p w h =
      let out = fetch_stats r p w in
      ap are_paired (poll_stats-roots out.0 out.1 out.2) ∙ fetch_stats-paired p w h

  poll-paired :
      (p : Poller r) (w : r.World)
      → are_paired p.roots ≡ true
      → are_paired (poll r p w).1.roots ≡ true
  unfolding poll poll_known
  poll-paired p w h =
      let q = reprobe r p w in
      let same = ap are_paired (reprobe-roots p w) ∙ h in
      if-holds {A = TransferState × Poller r × r.World} (λ out. are_paired out.1.roots ≡ true)
        (is_empty q.0.caps)
        (unmonitored q.0.name (unwrap_or (degraded_reason q.0.caps) no_rc_commands), q.0, q.1)
        (poll_calls r q.0 q.1) (λ e. same) (λ e. poll_calls-paired q.0 q.1 same)

  -- However often a poller is polled, and whatever rclone answers and the world does meanwhile: it is
  -- the poller of the mount that it was connected for, and it holds both roots of a cache, neither of
  -- them an empty path, or none.
  pub Polling-paired :
      {name : Text} {p : Poller r} {w : r.World}
      → Polling name p w
      → (p.name ≡ name) × (are_paired p.roots ≡ true)
  unfolding connect_poller
  Polling-paired (connected w) = (refl, refl)
  Polling-paired (elapsed v h) = Polling-paired h
  Polling-paired (polled {p} {w} h) =
      let before = Polling-paired h in
      ((poll-IsHonest r p w).1 ∙ before.0, poll-paired p w before.1)
