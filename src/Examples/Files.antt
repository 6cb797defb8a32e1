-- ===== src/Examples/Files.antt =====
-- The configuration, the names derived from it and the mount table.
use rclone_vfsmount_tray.Prelude.{
  inl, ◌++◌, if◌then◌else◌, ◌≤◌, ◌≡◌, ◌≢◌, refl, true, false, not, ◌&&◌, none, some, [], ◌∷◌, arith,
  leb, ◌==◌, All, lit, text_eq, all_chars,
}
use mathlib.Core.List.{Memᴰ}
use rclone_vfsmount_tray.Core.Models.{full}
use rclone_vfsmount_tray.Core.Discovery.{Environment, candidates, discover}
use rclone_vfsmount_tray.Core.Discovery.Chosen.{IsChosen, discover-IsChosen}
use rclone_vfsmount_tray.Core.Scan.{CacheScan, is_complete}
use rclone_vfsmount_tray.Core.Scan.Walk.{
  PathBelow, directory_kind, file_kind, entry, Listing, not_there, listed, Disk, scanned, unended,
  scan_bounded, read_item,
}
use rclone_vfsmount_tray.Core.Scan.Visits.{here, under, HasDirty, IsFound}
use rclone_vfsmount_tray.Core.Scan.Found.{scan_bounded-finds}
use rclone_vfsmount_tray.Core.Scan.Ends.{scan_bounded-IsOver}
use rclone_vfsmount_tray.Core.Units.{Syntax, size_suffix_ok}
use rclone_vfsmount_tray.Core.Rc.Sockets.{socket_file_name_injective}
use rclone_vfsmount_tray.Core.Config.{
  Mount, Config, mount, unit_name, umask_bits, validate, is_ascii_alphanumeric,
}
use rclone_vfsmount_tray.Core.Config.Args.{canonical_umask}
use rclone_vfsmount_tray.Core.Config.Args.Umask.{umask_bits-canonical_umask}
use rclone_vfsmount_tray.Core.Config.Valid.{IsUsable, Distinct, validate_lem, validate-mount}
use rclone_vfsmount_tray.Core.Mountinfo.{path_eq, components, split, parse_line, unescape}
use rclone_vfsmount_tray.Core.Mountinfo.Escapes.{kernel_escape, unescape-kernel_escape}
use rclone_vfsmount_tray.Core.Mountinfo.Lines.{kernel_line, parse_line-kernel_line}
use rclone_vfsmount_tray.Service.Units.{orphan_name, orphan_name-unit_name}

abbrev pub photos : Mount
photos = record {
  name = lit "photos";
  remote = lit "gdrive";
  path = lit "/pics";
  mount_point = lit "/mnt/photos";
  cache_mode = full;
  cache_max_size = some (lit "10G");
  cache_max_age = none;
  auto_mount = true;
  read_only = false;
  allow_other = false;
  uid = some 1000;
  gid = none;
  umask = some (lit "22");
  extra_args = [];
}

abbrev music : Mount
music = record photos { name = lit "music"; mount_point = lit "/mnt/music" }

abbrev pub two_mounts : Config
two_mounts = record {
  rclone_path = none;
  poll = record { active_secs = 2; idle_secs = 30 };
  mounts = photos ∷ music ∷ [];
}

-- The character classes on ASCII, and the numbers made of digits.
abbrev ascii : Syntax
ascii = record {
  is_alphanumeric = is_ascii_alphanumeric;
  is_alphabetic = λ c. is_ascii_alphanumeric c && not (leb b'0' c && leb c b'9');
  is_whitespace = λ c. c == b' ';
  parses_f64 = λ s. not (text_eq s []) && all_chars (λ c. leb b'0' c && leb c b'9') s;
}

two_mounts_pass : validate ascii two_mounts ≡ none
unfolding validate text_eq size_suffix_ok path_eq components split
two_mounts_pass = refl

validate_lem_example :
    All IsUsable (photos ∷ music ∷ [])
    × Distinct text_eq (lit "photos" ∷ lit "music" ∷ [])
    × Distinct path_eq (lit "/mnt/photos" ∷ lit "/mnt/music" ∷ [])
    × ((1 ≤ 2) × (2 ≤ 86400))
    × ((1 ≤ 30) × (30 ≤ 86400))
validate_lem_example = validate_lem ascii two_mounts two_mounts_pass

validate-mount_example : mount two_mounts (lit "music") ≡ some music
validate-mount_example = validate-mount ascii two_mounts (photos ∷ []) [] music two_mounts_pass refl

socket_file_name_injective_example : lit "/srv/a" ≡ lit "/srv/a"
socket_file_name_injective_example = socket_file_name_injective (lit "/srv/a") (lit "/srv/a") refl

umask_bits-canonical_umask_example : umask_bits (canonical_umask (lit "0o22")) ≡ some 18
unfolding umask_bits
umask_bits-canonical_umask_example = umask_bits-canonical_umask (lit "0o22") 18 refl (omega arith)

orphan_name-unit_name_example : orphan_name (unit_name photos) ≡ some (lit "photos")
orphan_name-unit_name_example =
    orphan_name-unit_name photos refl (ground arith) (ground arith) (ground arith)

unescape-kernel_escape_example :
    unescape (kernel_escape (lit "/mnt/my files")) ≡ lit "/mnt/my files"
unescape-kernel_escape_example = unescape-kernel_escape (lit "/mnt/my files")

parse_line-kernel_line_example :
    parse_line (
      kernel_line
        (lit "36")
        (lit "35")
        (lit "0:62")
        (lit "/")
        (lit "/mnt/a b")
        (lit "rw")
        (lit "shared:1" ∷ [])
        (lit "fuse.rclone")
        (lit "gdrive:my pics")
        (lit "rw"))
    ≡ some (record {
      mount_point = lit "/mnt/a b";
      source = lit "gdrive:my pics";
      fstype = lit "fuse.rclone";
    })
unfolding text_eq
parse_line-kernel_line_example =
    parse_line-kernel_line (lit "36") (lit "35") (lit "0:62") (lit "/") b'/' (lit "mnt/a b")
      (lit "rw") (lit "shared:1" ∷ []) b'f' (lit "use.rclone") (lit "gdrive:my pics") (lit "rw")
      (refl, (refl, (refl, (refl, (refl, (refl, tt)))))) (refl, tt) (refl, (refl, tt))

same_path : path_eq (lit "/mnt//photos/./") (lit "/mnt/photos") ≡ true
unfolding path_eq components split text_eq
same_path = refl

other_path : path_eq (lit "mnt/photos") (lit "/mnt/photos") ≡ false
unfolding path_eq components split text_eq
other_path = refl

-- A cache with one directory and a dirty file in it.
abbrev cache_dir : PathBelow → Listing
cache_dir [] = listed (entry (lit "trip") directory_kind ∷ [])
cache_dir (name ∷ []) = listed (entry (lit "a.jpg") file_kind ∷ [])
cache_dir (name ∷ up ∷ rest) = not_there

abbrev a_cache : Disk
a_cache = record {
  read_dir = cache_dir;
  open_item =
      λ path. some (record { is_file = some true; read_to_string = λ limit. some (lit "dirty") });
  from_str = λ buf. some (text_eq buf (lit "dirty"));
  to_str = some;
  symlink_metadata = λ name. some (record { is_file = true; len = 12 });
}

abbrev all_of_it : CacheScan
all_of_it = record {
  files = record { name = lit "trip/a.jpg"; bytes = some 12 } ∷ [];
  unreadable = 0;
  truncated = false;
  root_present = true;
}

a_cache_is_read : scan_bounded a_cache 9 ≡ scanned all_of_it
unfolding scan_bounded text_eq
a_cache_is_read = refl

all_of_it-is_complete : is_complete all_of_it ≡ true
unfolding is_complete
all_of_it-is_complete = refl

its_file_is_dirty : HasDirty a_cache (lit "trip" ∷ []) (lit "a.jpg")
unfolding read_item text_eq
its_file_is_dirty = record {
  entries = entry (lit "a.jpg") file_kind ∷ [];
  is_listed = refl;
  among = Memᴰ.head refl;
  is_dirty = refl;
}

scan_bounded-finds_example : IsFound a_cache all_of_it.files (lit "a.jpg" ∷ lit "trip" ∷ [])
scan_bounded-finds_example =
    scan_bounded-finds a_cache 9 all_of_it a_cache_is_read all_of_it-is_complete refl
      (lit "trip" ∷ []) (lit "a.jpg")
      (under (entry (lit "trip") directory_kind ∷ []) (lit "trip") refl (Memᴰ.head refl) here)
      its_file_is_dirty

scan_bounded-IsOver_example : scan_bounded a_cache 1 ≢ unended
scan_bounded-IsOver_example = scan_bounded-IsOver a_cache 1

-- One binary, which is not on the path.
abbrev one_binary : Environment
one_binary = record {
  split_whitespace = λ line. line ∷ [];
  trim = λ s. s;
  parse_u32 = λ s. if text_eq s (lit "75") then some 75 else some 1;
  path_var = none;
  is_absolute = λ dir. true;
  join = λ dir bin. dir ++ bin;
  is_file = λ path. text_eq path (lit "/usr/bin/rclone");
  run_version =
      λ path. inl (record { success = true; status = []; stdout = lit "v1.75.0"; stderr = [] });
}

discover-IsChosen_example : IsChosen one_binary (candidates one_binary) (discover one_binary none)
discover-IsChosen_example = discover-IsChosen one_binary
