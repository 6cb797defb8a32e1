-- ===== src/Tray/Model/Remaining.antt =====
-- crates/tray/src/model.rs: the bytes that are left to send, from which the time left is told.
use rclone_vfsmount_tray.Prelude.{
  ℕ, ◌+◌, ◌≤◌, min, ◌≡◌, sym, ap, ◌∙◌, subst, Bool, false, not, ◌&&◌, ◌||◌, Option, none, some,
  List, [], ◌∷◌, arith, if◌then◌else◌, length, any, u64_max, Map, get, values,
}
use rclone_vfsmount_tray.Core.Ipc.{MountView}
use rclone_vfsmount_tray.Core.Transfer.{TransferState, remaining_bytes}
use rclone_vfsmount_tray.Tray.Model.{TrayModel}
use rclone_vfsmount_tray.Tray.Model.Summary.{
  Summary, summary_start, vouched, add_remaining, add_reading, count_failed, count_live,
  count_mount, count_mounts, settle_summary, summary,
}
use rclone_vfsmount_tray.Tray.Model.Rows.{
  is_served, reads, row_is_blind, has_pending, count_mounts-blind,
}

unfoldable pub stops_estimate : TransferState → Bool
unfolding has_pending
stops_estimate t = has_pending t && not (vouched t)

unfoldable pub left_of : TransferState → ℕ
unfolding has_pending
left_of t = if has_pending t then remaining_bytes t else 0

-- A served mount with files pending whose bytes nobody vouches for.
abbrev pub row_stops : Map TransferState → MountView → Bool
row_stops = reads stops_estimate false

-- The bytes that a served mount with files pending has left.
abbrev pub row_left : Map TransferState → MountView → ℕ
row_left transfers m =
    if is_served m then elim (get transfers m.name) [ none ↦ 0 | some t ↦ left_of t ] else 0

abbrev pub all_left : Map TransferState → List MountView → ℕ
all_left transfers [] = 0
all_left transfers (m ∷ ms) = row_left transfers m + all_left transfers ms

-- What a round makes of the bytes left so far.
abbrev carried : Option ℕ → Bool → ℕ → Option ℕ
carried none stops n = none
carried (some acc) stops n = if stops then none else some (min (acc + n) u64_max)

AtMost : Option ℕ → Type 0
AtMost none = Unit
AtMost (some n) = n ≤ u64_max

add_reading-remaining :
    (s : Summary) (t : TransferState)
    → AtMost s.remaining
    → (add_reading s t).remaining ≡ carried s.remaining (stops_estimate t) (left_of t)
unfolding add_reading add_remaining stops_estimate left_of has_pending AtMost
add_reading-remaining s t h = ground arith

count_live-remaining :
    (s : Summary) (r : Option TransferState) (m : MountView)
    → AtMost s.remaining
    → (count_live s r m).remaining
      ≡ carried s.remaining
          (m.managed && elim r [ none ↦ false | some t ↦ stops_estimate t ])
          (if m.managed then elim r [ none ↦ 0 | some t ↦ left_of t ] else 0)
unfolding count_live AtMost
count_live-remaining s none m h = ground arith
count_live-remaining s (some t) m h =
    ground (arith, add_reading-remaining (record s { live = s.live + 1 }) t h)

count_mount-remaining :
    (ts : Map TransferState) (s : Summary) (m : MountView)
    → AtMost s.remaining
    → (count_mount ts s m).remaining ≡ carried s.remaining (row_stops ts m) (row_left ts m)
unfolding count_mount count_failed AtMost
count_mount-remaining ts s m h = ground (
  arith,
  count_live-remaining s (get ts m.name) m,
  count_live-remaining (record s { failed = s.failed + 1 }) (get ts m.name) m,
)

carried-AtMost : (r : Option ℕ) (stops : Bool) (n : ℕ) → AtMost (carried r stops n)
unfolding AtMost
carried-AtMost r stops n = ground arith

carried-carried :
    (r : Option ℕ) (a b : Bool) (m n : ℕ) → carried (carried r a m) b n ≡ carried r (a || b) (m + n)
carried-carried r a b m n = ground arith

carried_none : (r : Option ℕ) → AtMost r → r ≡ carried r false 0
unfolding AtMost
carried_none r h = ground arith

zero-AtMost : AtMost (some 0)
unfolding AtMost
zero-AtMost = omega arith

count_mounts-remaining :
    (ts : Map TransferState) (s : Summary) (ms : List MountView)
    → AtMost s.remaining
    → (count_mounts ts s ms).remaining
      ≡ carried s.remaining (any (row_stops ts) ms) (all_left ts ms)
unfolding count_mounts
count_mounts-remaining ts s [] h = carried_none s.remaining h
count_mounts-remaining ts s (m ∷ ms) h =
    let step = count_mount-remaining ts s m h in
    let next = count_mount ts s m in
    count_mounts-remaining ts next ms
      (subst AtMost (sym step) (carried-AtMost s.remaining (row_stops ts m) (row_left ts m)))
    ∙ ap (λ r. carried r (any (row_stops ts) ms) (all_left ts ms)) step
    ∙ carried-carried s.remaining (row_stops ts m) (any (row_stops ts) ms) (row_left ts m)
        (all_left ts ms)

-- The bytes left that the summary shows, from which the time left is told: none if a served mount has
-- no reading that can be vouched for, or has files pending without the size of each of them; else the
-- sum of what the served mounts with files pending have left, or the largest 64-bit number where the
-- sum is larger.
pub summary-remaining :
    (m : TrayModel)
    → let rows = values m.mounts in
      (summary m).remaining ≡ (
        if any (row_is_blind m.transfers) rows || any (row_stops m.transfers) rows
        then none
        else some (min (all_left m.transfers rows) u64_max))
unfolding summary settle_summary summary_start
summary-remaining m =
    let start = summary_start (length m.mounts) in
    ground (
      arith,
      count_mounts-remaining m.transfers start (values m.mounts) zero-AtMost,
      count_mounts-blind m.transfers start (values m.mounts),
    )
