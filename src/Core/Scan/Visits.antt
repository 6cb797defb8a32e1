-- ===== src/Core/Scan/Visits.antt =====
-- crates/core/src/scan.rs: what one entry adds to the walk, and that nothing found is lost.
use rclone_vfsmount_tray.Prelude.{
  ◌≤◌, ◌≡◌, refl, Bool, true, false, Option, none, some, List, [], ◌∷◌, ◌++◌, arith, Text,
}
use mathlib.Core.List.{Memᴰ}
use mathlib.Core.List.Memᴰ
use rclone_vfsmount_tray.Core.Scan.{DirtyFile}
use rclone_vfsmount_tray.Core.Scan.Walk.{
  read_item, relative_name, data_size, PathBelow, directory_kind, file_kind, other_kind, Entry,
  unread, entry, listed, Disk, Walking, count_unreadable, add_file, visit_file, visit_entry,
}

-- A path that the listings lead to from another.
pub data Below (d : Disk) : PathBelow → PathBelow → Type 0 where
  here : {q : PathBelow} → Below d q q
  under :
      {q p : PathBelow} (es : List Entry) (name : Text)
      → d.read_dir q ≡ listed es
      → Memᴰ (entry name directory_kind) es
      → Below d (name ∷ q) p
      → Below d q p

-- A regular file of this directory whose descriptor is marked dirty.
pub record HasDirty (d : Disk) (p : PathBelow) (name : Text) : Type 0 where
  pub entries : List Entry
  pub is_listed : d.read_dir p ≡ listed entries
  pub among : Memᴰ (entry name file_kind) entries
  pub is_dirty : read_item d (name ∷ p) ≡ some true

-- A path that is in the result, under its name and with the size of its data file.
abbrev pub IsFound : Disk → List DirtyFile → PathBelow → Type 0
IsFound d files path =
    (name : Text) × (relative_name d path ≡ some name)
    × Memᴰ (record { name = name; bytes = data_size d name }) files

-- What stays in the course of a walk.
pub record Grows (before after : Walking) : Type 0 where
  pub keeps_files : (f : DirtyFile) → Memᴰ f before.out.files → Memᴰ f after.out.files
  pub keeps_unread : before.out.unreadable ≤ after.out.unreadable
  pub keeps_stack : (q : PathBelow) → Memᴰ q before.stack → Memᴰ q after.stack

pub Grows-refl : (w : Walking) → Grows w w
Grows-refl w = record { keeps_files = λ f m. m; keeps_unread = omega arith; keeps_stack = λ q m. m }

pub Grows-trans : {u v w : Walking} → Grows u v → Grows v w → Grows u w
Grows-trans g h = record {
  keeps_files = λ f m. h.keeps_files f (g.keeps_files f m);
  keeps_unread = omega (arith, g.keeps_unread, h.keeps_unread);
  keeps_stack = λ q m. h.keeps_stack q (g.keeps_stack q m);
}

count_unreadable-Grows : (w : Walking) → Grows w (count_unreadable w)
unfolding count_unreadable
count_unreadable-Grows w = record {
  keeps_files = λ f m. m;
  keeps_unread = omega arith;
  keeps_stack = λ q m. m;
}

-- What a visit does to the walk, and what it finds unless it leaves something unread.
abbrev Visits : Disk → PathBelow → Walking → Walking → Type 0
Visits d path w after = Grows w after × (after.out.unreadable ≡ 0 → IsFound d after.out.files path)

unread-Visits : (d : Disk) (path : PathBelow) (w : Walking) → Visits d path w (count_unreadable w)
unfolding count_unreadable
unread-Visits d path w = (count_unreadable-Grows w, λ e. absurd (omega (arith, e)))

-- The last of a list with one more.
last_of : (f : DirtyFile) (fs : List DirtyFile) → Memᴰ f (fs ++ f ∷ [])
last_of f fs = Memᴰ.append_right fs (Memᴰ.head refl)

add_file-Visits :
    (d : Disk) (path : PathBelow) (o : Option Text) (w : Walking)
    → relative_name d path ≡ o
    → Visits d path w (add_file d o w)
unfolding add_file
add_file-Visits d path none w e = unread-Visits d path w
add_file-Visits d path (some name) w e = (
  record {
    keeps_files = λ f m. Memᴰ.append_left (_ ∷ []) m;
    keeps_unread = omega arith;
    keeps_stack = λ q m. m;
  },
  λ none_unread. (name, e, last_of _ w.out.files),
)

visit_file-Grows :
    (d : Disk) (path : PathBelow) (item : Option Bool) (w : Walking)
    → Grows w (visit_file d path item w)
unfolding visit_file
visit_file-Grows d path none w = count_unreadable-Grows w
visit_file-Grows d path (some false) w = Grows-refl w
visit_file-Grows d path (some true) w = (add_file-Visits d path (relative_name d path) w refl).0

pub visit_file-IsFound :
    (d : Disk) (path : PathBelow) (item : Option Bool) (w : Walking)
    → item ≡ some true
    → (visit_file d path item w).out.unreadable ≡ 0
    → IsFound d (visit_file d path item w).out.files path
unfolding visit_file
visit_file-IsFound d path none w e = absurd (cc e)
visit_file-IsFound d path (some false) w e = absurd (cc e)
visit_file-IsFound d path (some true) w e = (add_file-Visits d path (relative_name d path) w refl).1

pub visit_entry-Grows :
    (d : Disk) (dir : PathBelow) (e : Entry) (w : Walking) → Grows w (visit_entry d dir e w)
unfolding visit_entry
visit_entry-Grows d dir unread w = count_unreadable-Grows w
visit_entry-Grows d dir (entry name directory_kind) w = record {
  keeps_files = λ f m. m;
  keeps_unread = omega arith;
  keeps_stack = λ q m. Memᴰ.tail m;
}
visit_entry-Grows d dir (entry name file_kind) w =
    visit_file-Grows d (name ∷ dir) (read_item d (name ∷ dir)) w
visit_entry-Grows d dir (entry name other_kind) w = count_unreadable-Grows w

pub IsFound-mono :
    (d : Disk) (path : PathBelow) {v w : Walking}
    → Grows v w
    → IsFound d v.out.files path
    → IsFound d w.out.files path
IsFound-mono d path g (name, e, m) = (name, e, g.keeps_files _ m)
