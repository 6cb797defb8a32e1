-- ===== src/Tray/Act.antt =====
-- crates/tray/src/watch.rs: carrying out an action of the menu. The service, the programs and how
-- `std` renders a failure are parameters; what is asked of them is kept in order.
pub mod Gentle
use rclone_vfsmount_tray.Prelude.{
  ℕ, zero, suc, ◌+◌, ◌-◌, ◌*◌, ◌/◌, ◌%◌, ◌^◌, ◌≤◌, ◌<◌, min, max, ◌≡◌, refl, sym, ap, ◌∙◌, subst,
  ◌≢◌, ◌↔◌, ◌⊎◌, inl, inr, Bool, true, false, not, ◌&&◌, ◌||◌, Option, none, some, List, [], ◌∷◌,
  ◌++◌, map, arith, dec_lt, ℕ_discrete, ltb, leb, ◌==◌, if◌then◌else◌, ==_iff, Bool-cases,
  Option-cases, is_some, unwrap_or, is_yes, length, any, all, find, filter, All, length-append,
  length-filter-le, find-eq_some, length-map, filter_map, Text, lit, text_eq, text_eq-eq,
  text_eq_refl, text_eq_iff, has_char, strip_prefix, strip_prefix-append, strip_prefix-eq_some, ℤ,
  pos, negsuc, try_u64, u64_max, add64, sat_add, add64_exact, sat_add-le_max, Map, get, insert,
  remove, contains_key, values, keys, get-insert, get-remove, text_lt, strip_suffix, trim_start,
  all_chars, starts_with, text_eq_comm, strip_suffix-append, if-holds,
}
use rclone_vfsmount_tray.Core.Mountinfo.{lines}
use rclone_vfsmount_tray.Tray.Link.{LinkError, silent, CallError, from_ipc, message}
use rclone_vfsmount_tray.Tray.Model.{
  Action, mount_it, unmount_it, open_it, start_service, stop_service, refresh, quit, NoticeText,
  not_reachable, outcome_of, told, target, TrayModel, set_notice,
}

-- How a program ended.
pub record Exit : Type 0 where
  pub success : Bool
  pub shown : Text
  -- Its standard error, after `String::from_utf8_lossy`.
  pub stderr : Text

-- A program that ran, or why it could not be run.
pub data Ran : Type 0 where
  ran : Exit → Ran
  not_run : Text → Ran

pub data Asked : Type 0 where
  asked_mount : Text → Asked
  asked_unmount : (name : Text) (force : Bool) → Asked
  ran_xdg_open : Text → Asked
  ran_systemctl : (verb : Text) → Asked

pub record Desk : Type 1 where
  pub World : Type 0
  -- `char::is_whitespace`.
  pub is_whitespace : ℕ → Bool
  -- Whether a call takes longer than `acting` waits, and its refusal if it does not.
  pub call : Asked → World → (Bool × Option CallError) × World
  pub program : Asked → World → Ran × World

pub record Acting (W : Type 0) : Type 0 where
  pub model : TrayModel
  pub asked : List Asked
  pub world : W

unfoldable pub trim_left : (ℕ → Bool) → Text → Text
trim_left ws [] = []
trim_left ws (c ∷ cs) = let rest = trim_left ws cs in if ws c then rest else c ∷ cs

unfoldable pub trim_end : (ℕ → Bool) → Text → Text
trim_end ws [] = []
trim_end ws (c ∷ cs) = let rest = trim_end ws cs in if text_eq rest [] && ws c then [] else c ∷ rest

-- The last of some lines that is not blank, trimmed.
unfoldable pub last_said : (ℕ → Bool) → List Text → Option Text
unfolding trim_left trim_end
last_said ws [] = none
last_said ws (l ∷ ls) =
    let trimmed = trim_end ws (trim_left ws l) in
    elim (last_said ws ls) [
      | some later ↦ some later
      | none ↦ if text_eq trimmed [] then none else some trimmed
    ]

-- The first characters of a text that has more: `char_indices().nth(n)` and the slice up to it.
unfoldable pub cut_at : ℕ → Text → Option Text
cut_at n [] = none
cut_at zero (c ∷ cs) = some []
cut_at (suc n) (c ∷ cs) = elim (cut_at n cs) [ none ↦ none | some start ↦ some (c ∷ start) ]

abbrev pub cap : ℕ
cap = 200

unfoldable pub capped : Text → Text
unfolding cut_at
capped line = elim (cut_at cap line) [ none ↦ line | some start ↦ start ++ b' ' ∷ 8230 ∷ [] ]

unfoldable pub complaint : (ℕ → Bool) → Text → Option Text
unfolding last_said capped lines
complaint ws stderr = elim (last_said ws (lines stderr)) [
  | none ↦ none
  | some line ↦ some (capped line)
]

unfoldable pub ran_well : Bool → Text → Option Text
ran_well success said = if success then none else some said

-- What to say of `xdg-open`.
unfoldable pub told_of_open : Text → Ran → Option Text
unfolding ran_well
told_of_open path (ran exit) =
    ran_well exit.success (lit "xdg-open could not open " ++ path ++ lit ": " ++ exit.shown)
told_of_open path (not_run why) = some (lit "could not run xdg-open: " ++ why)

-- What to say of `systemctl`.
unfoldable pub told_of_unit : (ℕ → Bool) → Text → Ran → Option Text
unfolding ran_well complaint
told_of_unit ws verb (ran exit) = ran_well exit.success (
    lit "Could not " ++ verb ++ lit " the service: " ++ (elim (complaint ws exit.stderr) [
      | some line ↦ line
      | none ↦ lit "systemctl exited with " ++ exit.shown
    ]))
told_of_unit ws verb (not_run why) = some (lit "could not run systemctl: " ++ why)

-- `outcome`: what there is to say of a call, and about which mount.
unfoldable pub outcome : Action → Option LinkError → Option (Option Text × NoticeText × Option Bool)
unfolding target message
outcome a none = none
outcome a (some e) =
    some ((target a).0, outcome_of (unwrap_or (target a).0 []) (message e), (target a).1)

module _ (d : Desk) where
  abbrev pub Doing : Type 0
  Doing = Acting d.World

  unfoldable pub say : Option Text → Doing → Doing
  say none s = s
  say (some text) s = record s { model = set_notice s.model none (told text) none }

  unfoldable pub unreachable_now : Action → Doing → Doing
  unreachable_now a s = record s {
    model = set_notice s.model (target a).0 not_reachable (target a).1;
  }

  unfoldable pub say_outcome : Action → Option LinkError → Doing → Doing
  unfolding outcome
  say_outcome a r s = elim (outcome a r) [
    | none ↦ s
    | some said ↦ record s { model = set_notice s.model said.0 said.1 said.2 }
  ]

  -- `acting`, around a call to the service.
  unfoldable pub acting : Asked → Doing → Option LinkError × Doing
  acting asked s =
      let ((late, answer), w) = d.call asked s.world in
      (
        if late then some silent else elim answer [ none ↦ none | some e ↦ some (from_ipc e) ],
        record s { asked = s.asked ++ asked ∷ []; world = w },
      )

  -- A call if there is a proxy.
  unfoldable pub call_service : Bool → Action → Asked → Doing → Doing
  unfolding acting say_outcome unreachable_now
  call_service false a asked s = unreachable_now a s
  call_service true a asked s = let (r, after) = acting asked s in say_outcome a r after

  unfoldable pub run_program : Asked → Doing → Ran × Doing
  run_program asked s =
      let (r, w) = d.program asked s.world in
      (r, record s { asked = s.asked ++ asked ∷ []; world = w })

  unfoldable pub open_in_file_manager : Text → Doing → Doing
  unfolding run_program told_of_open say
  open_in_file_manager path s =
      let (r, after) = run_program (ran_xdg_open path) s in say (told_of_open path r) after

  unfoldable pub unit : Text → Doing → Doing
  unfolding run_program told_of_unit say
  unit verb s =
      let (r, after) = run_program (ran_systemctl verb) s in
      say (told_of_unit d.is_whitespace verb r) after

  unfoldable pub dispatch : (proxy : Bool) → Action → Doing → Doing
  unfolding call_service open_in_file_manager unit
  dispatch proxy (mount_it name) s = call_service proxy (mount_it name) (asked_mount name) s
  dispatch proxy (unmount_it name) s =
      call_service proxy (unmount_it name) (asked_unmount name false) s
  dispatch proxy (open_it path) s = open_in_file_manager path s
  dispatch proxy start_service s = unit (lit "start") s
  dispatch proxy stop_service s = unit (lit "stop") s
  dispatch proxy refresh s = s
  dispatch proxy quit s = s
