-- ===== src/Service/Poller.antt =====
-- crates/service/src/poller.rs: asking one mount what is outstanding. The rclone behind the socket, the
-- clock and the walk of the cache, which may time out, are parameters; any of them may change the world
-- in any way.
pub mod Round
pub mod Sound
pub mod Readings
pub mod Honest
pub mod Memory
pub mod Recovery
use rclone_vfsmount_tray.Prelude.{
  ℕ, zero, suc, ◌+◌, ◌-◌, ◌*◌, ◌/◌, ◌%◌, ◌^◌, ◌≤◌, ◌<◌, min, max, ◌≡◌, refl, sym, ap, ◌∙◌, subst,
  ◌≢◌, ◌↔◌, ◌⊎◌, inl, inr, Bool, true, false, not, ◌&&◌, ◌||◌, Option, none, some, List, [], ◌∷◌,
  ◌++◌, map, arith, dec_lt, ℕ_discrete, ltb, leb, ◌==◌, if◌then◌else◌, ==_iff, Bool-cases,
  Option-cases, is_some, unwrap_or, is_yes, length, any, all, find, filter, All, length-append,
  length-filter-le, find-eq_some, length-map, filter_map, Text, lit, text_eq, text_eq-eq,
  text_eq_refl, text_eq_iff, has_char, strip_prefix, strip_prefix-append, strip_prefix-eq_some, ℤ,
  pos, negsuc, try_u64, u64_max, add64, sat_add, add64_exact, sat_add-le_max, Map, get, insert,
  remove, contains_key, values, keys, get-insert, get-remove, text_lt, strip_suffix, trim_start,
  all_chars, starts_with, text_eq_comm, strip_suffix-append,
}
use rclone_vfsmount_tray.Core.Rc.{RcError, failed, is_unreachable}
use rclone_vfsmount_tray.Core.Message.{
  Message, rc_error, no_rc_commands, mode_minimal, mode_not_queued, mode_unrecognised,
  scan_timed_out, cache_gone, cache_unreadable, scan_panicked, read_from_cache, entries_unreadable,
  too_large_to_walk, cache_is_floor, cache_mode_never_reported, joined,
}
use rclone_vfsmount_tray.Core.Models.{
  CacheMode, minimal, all_writes_queued, CoreStats, VfsQueue, VfsStats, DiskCache, cache_mode,
}
use rclone_vfsmount_tray.Core.Capabilities.{
  Tier, t2, t4, Capabilities, from_refusal, degraded_reason, has, is_empty, tier, Answer, ok, err,
  probe,
}
use rclone_vfsmount_tray.Core.Config.{Poll}
use rclone_vfsmount_tray.Core.Scan.{CacheScan}
use rclone_vfsmount_tray.Core.Transfer.{
  TransferState, unmonitored, from_scan, partially_observed, degraded,
}
use rclone_vfsmount_tray.Core.Transfer.Rate.{Floats, RateEstimator, rate_new, rate_reset}

pub data CacheProbe : Type 0 where
  not_asked absent : CacheProbe
  present : DiskCache → Option CacheMode → CacheProbe

-- How the walk of the cache, on a thread of its own, ends for the one who waits for it.
pub data Scanned : Type 0 where
  timed_out : Scanned
  walked : CacheScan → Scanned
  walk_failed : Text → Scanned
  walk_panicked : Text → Scanned

pub record Rclone : Type 1 where
  pub World : Type 0
  pub floats : Floats
  -- `client.call` of `rc/list`, `vfs/stats`, `vfs/queue` and `core/stats`.
  pub rc_list : World → Answer (List Text) × World
  pub vfs_stats : World → Answer VfsStats × World
  pub vfs_queue : World → Answer VfsQueue × World
  pub core_stats : World → Answer CoreStats × World
  pub now : World → ℕ
  pub scan : Text → Text → World → Scanned × World

-- What a poller knows of the mount's cache.
pub record Roots : Type 0 where
  pub cache_path : Option Text
  pub meta_path : Option Text
  pub mode : Option CacheMode

abbrev pub no_roots : Roots
no_roots = record { cache_path = none; meta_path = none; mode = none }

-- `MountPoller`, whose client is the rclone.
pub record MountPoller (fl : Floats) : Type 0 where
  pub name : Text
  pub caps : Capabilities
  pub rate : RateEstimator fl
  pub roots : Roots

-- What `Capabilities::probe` leaves, whatever it came back with.
unfoldable pub capabilities_of : Answer Capabilities → Capabilities
capabilities_of (ok caps) = caps
capabilities_of (err e) = from_refusal (rc_error e)

-- `interval`, in seconds.
unfoldable pub interval : TransferState → Poll → ℕ
interval state p = elim state.fidelity [
  | some t4 ↦ max p.idle_secs p.active_secs
  | _ ↦ if ltb 0 state.pending.files then p.active_secs else p.idle_secs
]

unfoldable pub forget_roots : Roots → Roots
forget_roots p = record p { cache_path = none; meta_path = none }

abbrev pub is_nil : Text → Bool
is_nil [] = true
is_nil (c ∷ s) = false

-- The end of `fetch_stats`: what an answer leaves of the roots.
unfoldable pub latch : Roots → VfsStats → CacheProbe × Roots
unfolding forget_roots
latch p stats =
    let told = record p { mode = cache_mode stats } in
    elim stats.disk_cache [
      | none ↦ (absent, forget_roots told)
      | some cache ↦ (
        present cache (cache_mode stats),
        if not (is_nil cache.path) && not (is_nil cache.path_meta)
            then record told { cache_path = some cache.path; meta_path = some cache.path_meta }
            else forget_roots told,
      )
    ]

-- `RcError::Failed { status: 404, .. }`.
unfoldable pub is_not_found : RcError → Bool
is_not_found (failed command status body) = status == 404
is_not_found _ = false

-- The same from the answer to `vfs/stats`.
unfoldable pub heed_stats : Roots → Answer VfsStats → Answer CacheProbe × Roots
unfolding is_not_found latch forget_roots
heed_stats p (ok stats) = let (cache, roots) = latch p stats in (ok cache, roots)
heed_stats p (err e) =
    if is_not_found e then (ok not_asked, record (forget_roots p) { mode = none }) else (err e, p)

-- Whether a mode puts every write through the queue; one that is not known does not.
unfoldable pub trusts : Option CacheMode → Bool
trusts none = false
trusts (some m) = all_writes_queued m

-- The reason that goes with a reading of the disk.
unfoldable pub why_from_disk : RcError → CacheScan → Option CacheMode → Message
unfolding trusts
why_from_disk e found mode =
    let read = read_from_cache e (length found.files) in
    let unread =
      if ltb 0 found.unreadable then joined read (entries_unreadable found.unreadable) else read in
    let cut = if found.truncated then joined unread too_large_to_walk else unread in
    if trusts mode then cut else elim mode [
      | some _ ↦ joined cut cache_is_floor
      | none ↦ joined cut cache_mode_never_reported
    ]

-- What is made of the walk's end.
unfoldable pub disk_reading : Text → RcError → Option CacheMode → Scanned → TransferState
unfolding why_from_disk trusts
disk_reading name e mode timed_out = unmonitored name (scan_timed_out e)
disk_reading name e mode (walk_failed reason) = unmonitored name (cache_unreadable e reason)
disk_reading name e mode (walk_panicked reason) = unmonitored name (scan_panicked e reason)
disk_reading name e mode (walked found) =
    if not found.root_present
    then unmonitored name (cache_gone e)
    else if trusts mode
    then degraded (from_scan name found) (why_from_disk e found mode)
    else partially_observed (from_scan name found) (why_from_disk e found mode)

-- Why a reading of a cache in this mode is a floor.
unfoldable pub floor_reason : Option CacheMode → Message
floor_reason (some minimal) = mode_minimal
floor_reason (some _) = mode_not_queued
floor_reason none = mode_unrecognised

module _ (r : Rclone) where
  abbrev pub Poller : Type 0
  Poller = MountPoller r.floats

  -- `Capabilities::probe`, with the call of `rc/list`.
  unfoldable pub probe_again : r.World → Capabilities × r.World
  unfolding capabilities_of probe
  probe_again w = let (answer, after) = r.rc_list w in (capabilities_of (probe answer), after)

  -- `MountPoller::connect`.
  unfoldable pub connect_poller : Text → r.World → Poller × r.World
  unfolding probe_again rate_new
  connect_poller name w =
      let (caps, after) = probe_again w in
      (record { name = name; caps = caps; rate = rate_new r.floats; roots = no_roots }, after)

  unfoldable pub poller_tier : Poller → Tier
  poller_tier p = tier p.caps

  unfoldable pub rc_answered : Poller → Bool
  rc_answered p = not (is_some (degraded_reason p.caps))

  -- `self.rate.reset()`.
  unfoldable pub still : Poller → Poller
  still p = record p { rate = rate_reset r.floats p.rate }

  unfoldable pub fetch_stats : Poller → r.World → Answer CacheProbe × Poller × r.World
  unfolding heed_stats
  fetch_stats p w =
      if not (has p.caps (lit "vfs/stats"))
      then (ok not_asked, p, w)
      else (let (answer, after) = r.vfs_stats w in
          let (cache, roots) = heed_stats p.roots answer in
          (cache, record p { roots = roots }, after))

  unfoldable pub fetch_queue : Poller → r.World → Answer VfsQueue × r.World
  fetch_queue p w =
      if not (has p.caps (lit "vfs/queue"))
      then (err (failed (lit "vfs/queue") 404 (lit "not registered by this rclone")), w)
      else r.vfs_queue w

  unfoldable pub faulted : Poller → RcError → TransferState × Poller
  unfolding still
  faulted p e = (unmonitored p.name (rc_error e), still p)

  -- With the roots, if both are known.
  unfoldable pub read_disk :
      Text
      → RcError
      → Option CacheMode
      → Option Text
      → Option Text
      → r.World
      → TransferState × r.World
  unfolding disk_reading
  read_disk name e mode none path w = (unmonitored name (rc_error e), w)
  read_disk name e mode (some meta) none w = (unmonitored name (rc_error e), w)
  read_disk name e mode (some meta) (some path) w =
      let (scanned, after) = r.scan meta path w in (disk_reading name e mode scanned, after)

  unfoldable pub unreachable : Poller → RcError → r.World → TransferState × r.World
  unfolding read_disk
  unreachable p e w = read_disk p.name e p.roots.mode p.roots.meta_path p.roots.cache_path w
