-- ===== src/Core/Scan/Covers.antt =====
-- crates/core/src/scan.rs: what the inner loop of the walk finds of one directory.
use rclone_vfsmount_tray.Prelude.{
  ℕ, ◌+◌, ◌≡◌, refl, sym, ap, subst, ◌⊎◌, inl, inr, Bool, true, false, some, List, [], ◌∷◌, arith,
  leb, if◌then◌else◌, Text,
}
use mathlib.Core.List.{Memᴰ}
use mathlib.Core.List.Memᴰ
use rclone_vfsmount_tray.Core.Scan.{CacheScan}
use rclone_vfsmount_tray.Core.Scan.Walk.{
  read_item, PathBelow, directory_kind, file_kind, Entry, entry, Disk, Walking, visit_entry,
  Visited, next_dir, full, visit_all,
}
use rclone_vfsmount_tray.Core.Scan.Visits.{
  IsFound, Grows, Grows-refl, Grows-trans, visit_file-IsFound, visit_entry-Grows, IsFound-mono,
}

-- What the inner loop does to the walk, and what it finds of the entries.
pub record Covers (d : Disk) (dir : PathBelow) (es : List Entry) (w after : Walking) : Type 0 where
  pub grows : Grows w after
  pub stacks : (name : Text) → Memᴰ (entry name directory_kind) es → Memᴰ (name ∷ dir) after.stack
  pub finds :
      (name : Text)
      → Memᴰ (entry name file_kind) es
      → read_item d (name ∷ dir) ≡ some true
      → after.out.unreadable ≡ 0
      → IsFound d after.out.files (name ∷ dir)

visit_entry-stacks :
    (d : Disk) (dir : PathBelow) (name : Text) (e : Entry) (w : Walking)
    → entry name directory_kind ≡ e
    → Memᴰ (name ∷ dir) (visit_entry d dir e w).stack
unfolding visit_entry
visit_entry-stacks d dir name e w same =
    subst (λ x. Memᴰ (name ∷ dir) (visit_entry d dir x w).stack) same (Memᴰ.head refl)

visit_entry-finds :
    (d : Disk) (dir : PathBelow) (name : Text) (e : Entry) (w : Walking)
    → entry name file_kind ≡ e
    → read_item d (name ∷ dir) ≡ some true
    → (visit_entry d dir e w).out.unreadable ≡ 0
    → IsFound d (visit_entry d dir e w).out.files (name ∷ dir)
unfolding visit_entry
visit_entry-finds d dir name e w same dirty =
    subst
      (λ x.
        (visit_entry d dir x w).out.unreadable ≡ 0
        → IsFound d (visit_entry d dir x w).out.files (name ∷ dir))
      same (visit_file-IsFound d (name ∷ dir) (read_item d (name ∷ dir)) w dirty)

-- The inner loop on one entry more.
Covers-cons :
    (d : Disk) (dir : PathBelow) (e : Entry) (es : List Entry) (w after : Walking)
    → Covers d dir es (visit_entry d dir e w) after
    → Covers d dir (e ∷ es) w after
Covers-cons d dir e es w after rest = record {
  grows = Grows-trans (visit_entry-Grows d dir e w) rest.grows;
  stacks = λ name m. elim (Memᴰ.cases_cons m) [
    | inl same ↦ rest.grows.keeps_stack (name ∷ dir) (visit_entry-stacks d dir name e w same)
    | inr among ↦ rest.stacks name among
  ];
  finds = λ name m dirty none_unread. elim (Memᴰ.cases_cons m) [
    | inl same ↦ IsFound-mono d (name ∷ dir) rest.grows (
        visit_entry-finds d dir name e w same dirty
          (omega (arith, rest.grows.keeps_unread, none_unread)))
    | inr among ↦ rest.finds name among dirty none_unread
  ];
}

-- The count of entries is not what a visit reads.
uncount :
    (d : Disk) (dir : PathBelow) (es : List Entry) (w after : Walking)
    → Covers d dir es (record w { visited = w.visited + 1 }) after
    → Covers d dir es w after
uncount d dir es w after c = record {
  grows = record {
    keeps_files = c.grows.keeps_files;
    keeps_unread = c.grows.keeps_unread;
    keeps_stack = c.grows.keeps_stack;
  };
  stacks = c.stacks;
  finds = c.finds;
}

pub if_split {ℓ} :
    {A : Type ℓ} → (b : Bool) (x y r : A) → (if b then x else y) ≡ r → (x ≡ r) ⊎ (y ≡ r)
if_split true x y r h = inl h
if_split false x y r h = inr h

-- One step of the inner loop.
visit_all-cons :
    (d : Disk) (limit : ℕ) (dir : PathBelow) (e : Entry) (es : List Entry) (w : Walking)
    (r : Visited)
    → visit_all d limit dir (e ∷ es) w ≡ r
    → (full (record w.out { truncated = true }) ≡ r)
      ⊎ (visit_all d limit dir es (visit_entry d dir e (record w { visited = w.visited + 1 })) ≡ r)
unfolding visit_all
visit_all-cons d limit dir e es w r = if_split (leb limit w.visited) _ _ r

next_dir_of : Walking → Visited → Walking
next_dir_of w (next_dir v) = v
next_dir_of w (full out) = w

result_of : CacheScan → Visited → CacheScan
result_of o (next_dir v) = o
result_of o (full out) = out

pub visit_all-Covers :
    (d : Disk) (limit : ℕ) (dir : PathBelow) (es : List Entry) (w after : Walking)
    → visit_all d limit dir es w ≡ next_dir after
    → Covers d dir es w after
unfolding visit_all next_dir_of
visit_all-Covers d limit dir [] w after h =
    subst (Covers d dir [] w) (ap (next_dir_of w) h) (record {
      grows = Grows-refl w;
      stacks = λ name m. absurd (Memᴰ.not-nil m);
      finds = λ name m. absurd (Memᴰ.not-nil m);
    })
visit_all-Covers d limit dir (e ∷ es) w after h =
    let counted : Walking = record w { visited = w.visited + 1 } in
    elim (visit_all-cons d limit dir e es w (next_dir after) h) [
      | inl stopped ↦ absurd (cc stopped)
      | inr on ↦ uncount d dir (e ∷ es) w after (
          Covers-cons d dir e es counted after
            (visit_all-Covers d limit dir es (visit_entry d dir e counted) after on))
    ]

pub visit_all-truncated :
    (d : Disk) (limit : ℕ) (dir : PathBelow) (es : List Entry) (w : Walking) (out : CacheScan)
    → visit_all d limit dir es w ≡ full out
    → out.truncated ≡ true
unfolding visit_all result_of
visit_all-truncated d limit dir [] w out h = absurd (cc h)
visit_all-truncated d limit dir (e ∷ es) w out h =
    let counted : Walking = record w { visited = w.visited + 1 } in
    elim (visit_all-cons d limit dir e es w (full out) h) [
      | inl stopped ↦ sym (ap (λ r. (result_of w.out r).truncated) stopped)
      | inr on ↦ visit_all-truncated d limit dir es (visit_entry d dir e counted) out on
    ]
