-- ===== src/Core/Scan/Found.antt =====
-- crates/core/src/scan.rs: a walk that says that it is complete has found every file that is dirty.
use rclone_vfsmount_tray.Prelude.{
  ℕ, zero, suc, ◌≤◌, ◌≡◌, refl, sym, ap, ◌∙◌, subst, ◌≢◌, inl, inr, true, false, List, [], ◌∷◌,
  arith, Text,
}
use mathlib.Core.List.{Memᴰ}
use mathlib.Core.List.Memᴰ
use rclone_vfsmount_tray.Core.Scan.{DirtyFile, CacheScan, is_complete}
use rclone_vfsmount_tray.Core.Scan.Walk.{
  PathBelow, directory_kind, file_kind, Entry, entry, Listing, not_there, unlisted, listed, Disk,
  Walking, count_unreadable, Visited, next_dir, full, visit_all, Walked, scanned, unusable, unended,
  finished, going_on, read_listing, go_on, pop, walk, walk_start, scan_bounded,
}
use rclone_vfsmount_tray.Core.Scan.Visits.{Below, here, under, HasDirty, IsFound}
use rclone_vfsmount_tray.Core.Scan.Covers.{Covers, visit_all-Covers, visit_all-truncated}

-- A walk that left nothing out.
abbrev pub IsWhole : CacheScan → Type 0
IsWhole out = (out.unreadable ≡ 0) × (out.truncated ≡ false) × (out.root_present ≡ true)

-- What the rest of a walk adds to what it has, if nothing is left out.
pub record Leads (d : Disk) (w : Walking) (out : CacheScan) : Type 0 where
  pub keeps : (f : DirtyFile) → Memᴰ f w.out.files → Memᴰ f out.files
  pub all_read : w.out.unreadable ≤ 0
  pub finds :
      (q p : PathBelow) (name : Text)
      → Memᴰ q w.stack
      → Below d q p
      → HasDirty d p name
      → IsFound d out.files (name ∷ p)

listing_entries : List Entry → Listing → List Entry
listing_entries o not_there = o
listing_entries o (unlisted why) = o
listing_entries o (listed es) = es

-- What is below a directory whose entries are covered.
Below-IsFound :
    (d : Disk) (dir p : PathBelow) (name : Text) (es : List Entry) (w after : Walking)
    (out : CacheScan)
    → d.read_dir dir ≡ listed es
    → Covers d dir es w after
    → Leads d after out
    → Below d dir p
    → HasDirty d p name
    → IsFound d out.files (name ∷ p)
unfolding listing_entries
Below-IsFound d dir p name es w after out read c l here dirty =
    let same = ap (listing_entries []) (sym dirty.is_listed ∙ read) in
    let (text, named, among) =
      c.finds name (subst (Memᴰ (entry name file_kind)) same dirty.among) dirty.is_dirty
        (omega (arith, l.all_read)) in
    (text, named, l.keeps _ among)
Below-IsFound d dir p name es w after out read c l (under es' sub listed' among below) dirty =
    let same = ap (listing_entries []) (sym listed' ∙ read) in
    l.finds (sub ∷ dir) p name (c.stacks sub (subst (Memᴰ (entry sub directory_kind)) same among))
      below dirty

Leads-push :
    (d : Disk) (dir : PathBelow) (es : List Entry) (w after : Walking) (out : CacheScan)
    → d.read_dir dir ≡ listed es
    → Covers d dir es w after
    → Leads d after out
    → Leads d (record w { stack = dir ∷ w.stack }) out
Leads-push d dir es w after out read c l = record {
  keeps = λ f m. l.keeps f (c.grows.keeps_files f m);
  all_read = omega (arith, c.grows.keeps_unread, l.all_read);
  finds = λ q p name m below dirty. elim (Memᴰ.cases_cons m) [
    | inl same ↦
        Below-IsFound d dir p name es w after out read c l (subst (λ x. Below d x p) same below)
          dirty
    | inr among ↦ l.finds q p name (c.grows.keeps_stack q among) below dirty
  ];
}

scan_of : Walked → CacheScan
scan_of (scanned out) = out
scan_of (unusable why) = walk_start.out
scan_of unended = walk_start.out

absent-not-whole :
    (w : Walking) (out : CacheScan)
    → IsWhole out
    → scanned (record w.out { root_present = false }) ≢ scanned out
unfolding scan_of
absent-not-whole w out whole h = absurd (cc (ap (λ r. (scan_of r).root_present) h, whole.2))

-- A walk that goes on from a directory that it could not read leaves something out.
uncounted :
    (d : Disk) (w : Walking) (out : CacheScan) (next : Walking → Walked)
    → ((v : Walking) → next v ≡ scanned out → Leads d v out)
    → next (count_unreadable w) ≢ scanned out
unfolding count_unreadable
uncounted d w out next k h = absurd (omega (arith, (k (count_unreadable w) h).all_read))

entries-Leads :
    (d : Disk) (limit : ℕ) (dir : PathBelow) (es : List Entry) (w : Walking)
    (next : Walking → Walked) (out : CacheScan) (seen : Visited)
    → visit_all d limit dir es w ≡ seen
    → d.read_dir dir ≡ listed es
    → IsWhole out
    → ((v : Walking) → next v ≡ scanned out → Leads d v out)
    → go_on (elim seen [ next_dir v ↦ going_on v | full o ↦ finished (scanned o) ]) next
      ≡ scanned out
    → Leads d (record w { stack = dir ∷ w.stack }) out
unfolding scan_of
entries-Leads d limit dir es w next out (next_dir v) e read whole k h =
    Leads-push d dir es w v out read (visit_all-Covers d limit dir es w v e) (k v h)
entries-Leads d limit dir es w next out (full o) e read whole k h =
    absurd (cc (visit_all-truncated d limit dir es w o e, h, whole.1))

listing-Leads :
    (d : Disk) (limit : ℕ) (dir : PathBelow) (found : Listing) (w : Walking)
    (next : Walking → Walked) (out : CacheScan)
    → d.read_dir dir ≡ found
    → IsWhole out
    → ((v : Walking) → next v ≡ scanned out → Leads d v out)
    → go_on (read_listing d limit dir found w) next ≡ scanned out
    → Leads d (record w { stack = dir ∷ w.stack }) out
unfolding read_listing count_unreadable
listing-Leads d limit [] not_there w next out read whole k h =
    absurd (absent-not-whole w out whole h)
listing-Leads d limit (n ∷ up) not_there w next out read whole k h =
    absurd (uncounted d w out next k h)
listing-Leads d limit [] (unlisted why) w next out read whole k h = absurd (cc h)
listing-Leads d limit (n ∷ up) (unlisted why) w next out read whole k h =
    absurd (uncounted d w out next k h)
listing-Leads d limit dir (listed es) w next out read whole k h =
    entries-Leads d limit dir es w next out (visit_all d limit dir es w) refl read whole k h

pop-Leads :
    (d : Disk) (limit : ℕ) (stack : List PathBelow) (w : Walking) (next : Walking → Walked)
    (out : CacheScan)
    → IsWhole out
    → ((v : Walking) → next v ≡ scanned out → Leads d v out)
    → pop d limit stack w next ≡ scanned out
    → Leads d (record w { stack = stack }) out
unfolding pop scan_of
pop-Leads d limit [] w next out whole k h =
    let same = ap scan_of h in
    record {
      keeps = λ f m. subst (λ o. Memᴰ f o.files) same m;
      all_read = omega (arith, ap (λ o. o.unreadable) same, whole.0);
      finds = λ q p name m. absurd (Memᴰ.not-nil m);
    }
pop-Leads d limit (dir ∷ stack) w next out whole k h =
    listing-Leads d limit dir (d.read_dir dir) (record w { stack = stack }) next out refl whole k h

walk-Leads :
    (d : Disk) (limit rounds : ℕ) (w : Walking) (out : CacheScan)
    → IsWhole out
    → walk d limit rounds w ≡ scanned out
    → Leads d w out
unfolding walk
walk-Leads d limit zero w out whole h = absurd (cc h)
walk-Leads d limit (suc rounds) w out whole h =
    pop-Leads d limit w.stack w (walk d limit rounds) out whole
      (λ v. walk-Leads d limit rounds v out whole) h

-- A walk that ended, says that it is complete and found the root has every dirty file: each regular
-- file with a descriptor that is marked dirty, in any directory that the listings lead to from the
-- root, is in the result under its name below the root and with the size of its data file.
pub scan_bounded-finds :
    (d : Disk) (max_entries : ℕ) (out : CacheScan)
    → scan_bounded d max_entries ≡ scanned out
    → is_complete out ≡ true
    → out.root_present ≡ true
    → (p : PathBelow) (name : Text) → Below d [] p
    → HasDirty d p name
    → IsFound d out.files (name ∷ p)
unfolding scan_bounded is_complete
scan_bounded-finds d max_entries out h complete present p name below dirty =
    (walk-Leads d max_entries (suc (suc max_entries)) walk_start out
        (ground (arith, complete), ground (arith, complete), present) h).finds
      [] p name (Memᴰ.head refl) below dirty
