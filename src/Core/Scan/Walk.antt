-- ===== src/Core/Scan/Walk.antt =====
-- crates/core/src/scan.rs: the bounded walk of a mount's cache. The disk is a parameter, as it is while
-- the walk lasts. A path is its names below the root of the descriptors, the last one first.
use rclone_vfsmount_tray.Prelude.{
  ℕ, zero, suc, ◌+◌, Bool, true, false, Option, none, some, List, [], ◌∷◌, ◌++◌, leb, if◌then◌else◌,
  Text,
}
use rclone_vfsmount_tray.Core.Scan.{CacheScan}

abbrev pub PathBelow : Type 0
PathBelow = List Text

-- `DirEntry::file_type`, which does not follow links; `other_kind` is one that failed, too.
pub data Kind : Type 0 where
  directory_kind file_kind other_kind : Kind

pub data Entry : Type 0 where
  unread : Entry
  entry : (name : Text) (kind : Kind) → Entry

pub data Listing : Type 0 where
  not_there : Listing
  unlisted : Text → Listing
  listed : List Entry → Listing

-- A descriptor that could be opened: whether it is a regular file, and its start, if it is text.
pub record Opened : Type 0 where
  pub is_file : Option Bool
  pub read_to_string : ℕ → Option Text

pub record Metadata : Type 0 where
  pub is_file : Bool
  pub len : ℕ

-- What the file system and the libraries answer.
pub record Disk : Type 0 where
  pub read_dir : PathBelow → Listing
  -- Without following a link, and without waiting for a writer.
  pub open_item : PathBelow → Option Opened
  -- `serde_json::from_str` to a descriptor, and its `dirty`.
  pub from_str : Text → Option Bool
  -- `OsStr::to_str`.
  pub to_str : Text → Option Text
  -- `symlink_metadata` of a path below the root of the data.
  pub symlink_metadata : Text → Option Metadata

abbrev pub max_descriptor : ℕ
max_descriptor = 65536

-- An open descriptor, by what the check of its type says.
unfoldable pub read_regular : Disk → Opened → Option Bool → Option Bool
read_regular d file (some true) = elim (file.read_to_string max_descriptor) [
  | none ↦ none
  | some buf ↦ d.from_str buf
]
read_regular d file (some false) = none
read_regular d file none = none

unfoldable pub read_item : Disk → PathBelow → Option Bool
unfolding read_regular
read_item d path = elim (d.open_item path) [
  | none ↦ none
  | some file ↦ read_regular d file file.is_file
]

unfoldable pub data_size : Disk → Text → Option ℕ
data_size d name = elim (d.symlink_metadata name) [
  | none ↦ none
  | some md ↦ if md.is_file then some md.len else none
]

-- The names of a path, from the root down.
unfoldable pub joined : PathBelow → Text
joined [] = []
joined (name ∷ []) = name
joined (name ∷ dir ∷ up) = joined (dir ∷ up) ++ b'/' ∷ name

unfoldable pub relative_name : Disk → PathBelow → Option Text
unfolding joined
relative_name d path = d.to_str (joined path)

-- What the walk carries, the directories still to be read on top.
pub record Walking : Type 0 where
  pub stack : List PathBelow
  pub visited : ℕ
  pub out : CacheScan

-- `out.unreadable += 1`.
unfoldable pub count_unreadable : Walking → Walking
count_unreadable w = record w { out = record w.out { unreadable = w.out.unreadable + 1 } }

-- A dirty file, under its name if it has one.
unfoldable pub add_file : Disk → Option Text → Walking → Walking
unfolding count_unreadable data_size
add_file d none w = count_unreadable w
add_file d (some name) w = record w {
  out = record w.out {
    files = w.out.files ++ record { name = name; bytes = data_size d name } ∷ [];
  };
}

-- A file, by what its descriptor says.
unfoldable pub visit_file : Disk → PathBelow → Option Bool → Walking → Walking
unfolding add_file count_unreadable relative_name
visit_file d path none w = count_unreadable w
visit_file d path (some false) w = w
visit_file d path (some true) w = add_file d (relative_name d path) w

unfoldable pub visit_entry : Disk → PathBelow → Entry → Walking → Walking
unfolding visit_file count_unreadable read_item
visit_entry d dir unread w = count_unreadable w
visit_entry d dir (entry name directory_kind) w = record w { stack = (name ∷ dir) ∷ w.stack }
visit_entry d dir (entry name file_kind) w = visit_file d (name ∷ dir) (read_item d (name ∷ dir)) w
visit_entry d dir (entry name other_kind) w = count_unreadable w

-- The inner loop goes on to the next directory, or the walk returns.
pub data Visited : Type 0 where
  next_dir : Walking → Visited
  full : CacheScan → Visited

unfoldable pub visit_all : Disk → ℕ → PathBelow → List Entry → Walking → Visited
unfolding visit_entry
visit_all d max_entries dir [] w = next_dir w
visit_all d max_entries dir (e ∷ es) w =
    let rest =
      visit_all d max_entries dir es (visit_entry d dir e (record w { visited = w.visited + 1 })) in
    if leb max_entries w.visited then full (record w.out { truncated = true }) else rest

-- How the walk ends.
pub data Walked : Type 0 where
  scanned : CacheScan → Walked
  unusable : Text → Walked
  -- The walk ran out of rounds.
  unended : Walked

abbrev pub is_root : PathBelow → Bool
is_root [] = true
is_root (name ∷ path) = false

-- What is made of a listing: the walk's end, or the walk to go on with.
pub data Read : Type 0 where
  finished : Walked → Read
  going_on : Walking → Read

unfoldable pub read_listing : Disk → ℕ → PathBelow → Listing → Walking → Read
unfolding visit_all count_unreadable
read_listing d max_entries dir not_there w =
    if is_root dir
    then finished (scanned (record w.out { root_present = false }))
    else going_on (count_unreadable w)
read_listing d max_entries dir (unlisted why) w =
    if is_root dir then finished (unusable why) else going_on (count_unreadable w)
read_listing d max_entries dir (listed entries) w = elim (visit_all d max_entries dir entries w) [
  | next_dir next ↦ going_on next
  | full out ↦ finished (scanned out)
]

abbrev pub go_on : Read → (Walking → Walked) → Walked
go_on (finished out) next = out
go_on (going_on w) next = next w

-- One round of the outer loop, on what is on the stack.
unfoldable pub pop : Disk → ℕ → List PathBelow → Walking → (Walking → Walked) → Walked
unfolding read_listing
pop d max_entries [] w next = scanned w.out
pop d max_entries (dir ∷ stack) w next =
    go_on (read_listing d max_entries dir (d.read_dir dir) (record w { stack = stack })) next

unfoldable pub walk : Disk → ℕ → ℕ → Walking → Walked
unfolding pop
walk d max_entries zero w = unended
walk d max_entries (suc rounds) w = pop d max_entries w.stack w (walk d max_entries rounds)

abbrev pub walk_start : Walking
walk_start = record {
  stack = [] ∷ [];
  visited = 0;
  out = record { files = []; unreadable = 0; truncated = false; root_present = true };
}

-- `scan_bounded`: each round but the last takes a directory from the stack, and each directory but the
-- root was counted as an entry.
unfoldable pub scan_bounded : Disk → ℕ → Walked
unfolding walk
scan_bounded d max_entries = walk d max_entries (suc (suc max_entries)) walk_start

abbrev pub max_entries_read : ℕ
max_entries_read = 50000

unfoldable pub scan : Disk → Walked
unfolding scan_bounded
scan d = scan_bounded d max_entries_read
