-- ===== src/Core/Scan/Ends.antt =====
-- crates/core/src/scan.rs: the walk ends, whatever the disk holds.
use rclone_vfsmount_tray.Prelude.{
  ℕ, zero, suc, ◌+◌, ◌≤◌, ◌≡◌, refl, ap, ◌≢◌, inl, inr, Bool, Option, List, [], ◌∷◌, arith, leb,
  Bool-cases, length,
}
use rclone_vfsmount_tray.Core.Scan.Walk.{
  read_item, PathBelow, directory_kind, file_kind, other_kind, Entry, unread, entry, Listing,
  not_there, unlisted, listed, Disk, Walking, count_unreadable, add_file, visit_file, visit_entry,
  next_dir, visit_all, Walked, unended, Read, finished, going_on, read_listing, go_on, pop, walk,
  walk_start, scan_bounded,
}

visit_file-stack :
    (d : Disk) (path : PathBelow) (item : Option Bool) (w : Walking)
    → ((visit_file d path item w).stack ≡ w.stack)
      × ((visit_file d path item w).visited ≡ w.visited)
unfolding visit_file add_file count_unreadable
visit_file-stack d path item w = ground arith

-- One entry puts at most one directory on the stack.
visit_entry-stack :
    (d : Disk) (dir : PathBelow) (e : Entry) (w : Walking)
    → (length (visit_entry d dir e w).stack ≤ length w.stack + 1)
      × ((visit_entry d dir e w).visited ≡ w.visited)
unfolding visit_entry count_unreadable
visit_entry-stack d dir unread w = (omega arith, refl)
visit_entry-stack d dir (entry name directory_kind) w = (omega arith, refl)
visit_entry-stack d dir (entry name file_kind) w =
    ground (arith, visit_file-stack d (name ∷ dir) (read_item d (name ∷ dir)) w)
visit_entry-stack d dir (entry name other_kind) w = (omega arith, refl)

visit_all-stack :
    (d : Disk) (limit : ℕ) (dir : PathBelow) (es : List Entry) (w next : Walking)
    → visit_all d limit dir es w ≡ next_dir next
    → w.visited ≤ limit
    → (length next.stack + w.visited ≤ length w.stack + next.visited) × (next.visited ≤ limit)
unfolding visit_all
visit_all-stack d limit dir [] w next h le = ground (arith, h, le)
visit_all-stack d limit dir (e ∷ es) w next h le = elim (Bool-cases (leb limit w.visited)) [
  | inl f ↦ ground (arith, h, f)
  | inr f ↦
      let counted : Walking = record w { visited = w.visited + 1 } in
      ground (
        arith,
        h,
        f,
        le,
        visit_entry-stack d dir e counted,
        visit_all-stack d limit dir es (visit_entry d dir e counted) next,
      )
]

read_listing-stack :
    (d : Disk) (limit : ℕ) (dir : PathBelow) (found : Listing) (w next : Walking)
    → read_listing d limit dir found w ≡ going_on next
    → w.visited ≤ limit
    → (length next.stack + w.visited ≤ length w.stack + next.visited) × (next.visited ≤ limit)
unfolding read_listing count_unreadable
read_listing-stack d limit dir not_there w next h le = ground (arith, h, le)
read_listing-stack d limit dir (unlisted why) w next h le = ground (arith, h, le)
read_listing-stack d limit dir (listed es) w next h le =
    ground (arith, h, le, visit_all-stack d limit dir es w next)

-- How a walk ended is known.
abbrev IsOver : Walked → Type 0
IsOver out = out ≢ unended

go_on-IsOver :
    (found : Read) (next : Walking → Walked)
    → (found ≢ finished unended)
    → ((w : Walking) → found ≡ going_on w → IsOver (next w))
    → IsOver (go_on found next)
go_on-IsOver (finished out) next h k = λ e. h (ap finished e)
go_on-IsOver (going_on w) next h k = k w refl

read_listing-over :
    (d : Disk) (limit : ℕ) (dir : PathBelow) (found : Listing) (w : Walking)
    → read_listing d limit dir found w ≢ finished unended
unfolding read_listing
read_listing-over d limit dir not_there w = ground arith
read_listing-over d limit dir (unlisted why) w = ground arith
read_listing-over d limit dir (listed es) w = ground arith

pop-IsOver :
    (d : Disk) (limit : ℕ) (stack : List PathBelow) (w : Walking) (next : Walking → Walked)
    → w.visited ≤ limit
    → ((v : Walking)
        → v.visited ≤ limit
        → length v.stack + w.visited + 1 ≤ length stack + v.visited
        → IsOver (next v))
    → IsOver (pop d limit stack w next)
unfolding pop
pop-IsOver d limit [] w next le k = λ e. cc e
pop-IsOver d limit (dir ∷ stack) w next le k =
    let popped : Walking = record w { stack = stack } in
    let found = read_listing d limit dir (d.read_dir dir) popped in
    go_on-IsOver found next (read_listing-over d limit dir (d.read_dir dir) popped) (λ v h.
      let (room, under) = read_listing-stack d limit dir (d.read_dir dir) popped v h le in
      k v under (omega (arith, room)))

-- Enough rounds are left for the directories on the stack and for those that can still be put there.
walk-IsOver :
    (d : Disk) (limit rounds : ℕ) (w : Walking)
    → w.visited ≤ limit
    → length w.stack + limit + 1 ≤ rounds + w.visited
    → IsOver (walk d limit rounds w)
unfolding walk
walk-IsOver d limit zero w le enough = absurd (omega (arith, le, enough))
walk-IsOver d limit (suc rounds) w le enough =
    pop-IsOver d limit w.stack w (walk d limit rounds) le
      (λ next under room. walk-IsOver d limit rounds next under (omega (arith, room, enough)))

-- The walk ends within its rounds, whatever the disk holds and however many entries may be looked at:
-- it returns what it found, or that the root could not be read.
pub scan_bounded-IsOver : (d : Disk) (max_entries : ℕ) → scan_bounded d max_entries ≢ unended
unfolding scan_bounded
scan_bounded-IsOver d max_entries =
    walk-IsOver d max_entries (suc (suc max_entries)) walk_start (omega arith) (omega arith)
