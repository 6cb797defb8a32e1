-- ===== src/Tray/Model/Lines.antt =====
-- crates/tray/src/model.rs: the lines that qualify the summary. A line is the parts that it is pushed
-- together from; an amount of bytes stays a number, since it is rendered through `f64`.
use rclone_vfsmount_tray.Prelude.{
  ℕ, ◌-◌, ◌/◌, ◌%◌, Option, none, some, List, [], ◌∷◌, ◌++◌, ltb, leb, ◌==◌, if◌then◌else◌,
}
use rclone_vfsmount_tray.Tray.Model.Summary.{Summary}

pub data Eta : Type 0 where
  a_few_seconds : Eta
  about_seconds about_minutes about_hours : ℕ → Eta
  about_hours_minutes : (h : ℕ) (m : ℕ) → Eta
  over_a_day : Eta

pub data Part : Type 0 where
  no_mounts_configured : Part
  of_mounted : (live : ℕ) (total : ℕ) → Part
  not_managed_rows : ℕ → Part
  unknown_on : (blind : ℕ) (of : ℕ) → Part
  all_synced : Part
  one_file : ℕ → Part
  some_files : ℕ → Part
  amount : ℕ → Part
  are_pending : Part
  of_unknown_size : ℕ → Part
  and_possibly_more : Part
  per_second : Part
  time_left : Eta → Part

unfoldable pub eta_phrase : ℕ → Eta
eta_phrase secs =
    if leb secs 4
    then a_few_seconds
    else if leb secs 59
    then about_seconds secs
    else if leb secs 3599
    then about_minutes (secs / 60)
    else if leb secs 86399
    then (if secs % 3600 / 60 == 0
        then about_hours (secs / 3600)
        else about_hours_minutes (secs / 3600) (secs % 3600 / 60))
    else over_a_day

unfoldable pub files_and_bytes : ℕ → ℕ → List Part
files_and_bytes files bytes =
    let counted = if files == 1 then one_file files else some_files files in
    if bytes == 0 then counted ∷ [] else counted ∷ amount bytes ∷ []

unfoldable pub pending_phrase : ℕ → ℕ → ℕ → List Part
unfolding files_and_bytes
pending_phrase files bytes unknown_size_files =
    let line = files_and_bytes files bytes ++ are_pending ∷ [] in
    if ltb 0 unknown_size_files then line ++ of_unknown_size unknown_size_files ∷ [] else line

unfoldable pub mounted_line : Summary → List Part
mounted_line s =
    if s.total == 0
    then no_mounts_configured ∷ []
    else (let line = of_mounted s.live s.total ∷ [] in
        if ltb 0 s.unmanaged then line ++ not_managed_rows s.unmanaged ∷ [] else line)

unfoldable pub pending_line : Summary → Option (List Part)
unfolding pending_phrase
pending_line s =
    if s.live == s.unmanaged
    then none
    else if s.files == 0
    then some (
        if ltb 0 s.unobservable
        then unknown_on s.unobservable (s.live - s.unmanaged) ∷ []
        else all_synced ∷ [])
    else (let line = pending_phrase s.files s.bytes s.unknown_size_files in
        some (if ltb 0 s.unobservable then line ++ and_possibly_more ∷ [] else line))

-- The throughput, with the time left where there is one.
unfoldable pub rate_text : Summary → ℕ → List Part
unfolding eta_phrase
rate_text s rate =
    let line = amount rate ∷ per_second ∷ [] in
    elim s.remaining [
      | none ↦ line
      | some left ↦
          if ltb 0 s.files then line ++ time_left (eta_phrase (left / rate)) ∷ [] else line
    ]

-- `Summary::rate_line`.
unfoldable pub rate_line : Summary → Option (List Part)
unfolding rate_text
rate_line s = elim s.rate [
  | none ↦ none
  | some rate ↦ if ltb 0 rate then some (rate_text s rate) else none
]
