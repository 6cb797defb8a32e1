-- ===== src/Tray/Model.antt =====
-- crates/tray/src/model.rs: what the tray holds, and what each call does to it. The channel to the
-- task that carries actions out is not part of the state: `take_action` (`act`) returns what it sends.
pub mod Summary
pub mod Lines
pub mod Remaining
pub mod State
pub mod Rows
use rclone_vfsmount_tray.Prelude.{
  ℕ, zero, suc, ◌+◌, ◌-◌, ◌*◌, ◌/◌, ◌%◌, ◌^◌, ◌≤◌, ◌<◌, min, max, ◌≡◌, refl, sym, ap, ◌∙◌, subst,
  ◌≢◌, ◌↔◌, ◌⊎◌, inl, inr, Bool, true, false, not, ◌&&◌, ◌||◌, Option, none, some, List, [], ◌∷◌,
  ◌++◌, map, arith, dec_lt, ℕ_discrete, ltb, leb, ◌==◌, if◌then◌else◌, ==_iff, Bool-cases,
  Option-cases, is_some, unwrap_or, is_yes, length, any, all, find, filter, All, length-append,
  length-filter-le, find-eq_some, length-map, filter_map, Text, lit, text_eq, text_eq-eq,
  text_eq_refl, text_eq_iff, has_char, strip_prefix, strip_prefix-append, strip_prefix-eq_some, ℤ,
  pos, negsuc, try_u64, u64_max, add64, sat_add, add64_exact, sat_add-le_max, Map, get, insert,
  remove, contains_key, values, keys, get-insert, get-remove, text_lt, strip_suffix, trim_start,
  all_chars, starts_with, text_eq_comm, strip_suffix-append,
}
use rclone_vfsmount_tray.Core.Message.{Message}
use rclone_vfsmount_tray.Core.Ipc.{MountView, TransferView, transfer_of_view}
use rclone_vfsmount_tray.Core.Transfer.{TransferState}
use rclone_vfsmount_tray.Tray.Link.{
  LinkError, no_session_bus, not_running, incompatible, too_old, refused, silent, transport,
  Sentence, message,
}

pub data Action : Type 0 where
  mount_it unmount_it open_it : Text → Action
  start_service stop_service refresh quit : Action

-- The first line of the menu while there is no link.
pub data DownLine : Type 0 where
  service_not_running no_bus different_interface : DownLine
  service_too_old : (found : ℕ) (needed : ℕ) → DownLine
  explained : Sentence → DownLine

pub record Down : Type 0 where
  pub headline : DownLine
  pub offer_start : Bool

-- `Down::from_error`.
unfoldable pub from_error : LinkError → Down
unfolding message
from_error not_running = record { headline = service_not_running; offer_start = true }
from_error (no_session_bus e) = record { headline = no_bus; offer_start = false }
from_error incompatible = record { headline = different_interface; offer_start = false }
from_error (too_old needed found) = record {
  headline = service_too_old found needed;
  offer_start = false;
}
from_error e = record { headline = explained (message e); offer_start = false }

pub record ServiceInfo : Type 0 where
  pub service_version : Text
  pub interface_version : ℕ
  pub rclone_version : Text
  pub capability_tier : Text

pub data Link : Type 0 where
  connecting : Link
  down : Down → Link
  up : ServiceInfo → Link

-- What a notice says: the templates of watch.rs with their values.
pub data NoticeText : Type 0 where
  not_reachable : NoticeText
  outcome_of : Text → Sentence → NoticeText
  told : Text → NoticeText

pub record Notice : Type 0 where
  pub mount : Option Text
  pub text : NoticeText
  pub answered_by : Option Bool

-- `Action::target`.
unfoldable pub target : Action → Option Text × Option Bool
target (mount_it name) = (some name, some true)
target (unmount_it name) = (some name, some false)
target _ = (none, none)

unfoldable pub reports_back : Action → Bool
reports_back refresh = false
reports_back quit = false
reports_back _ = true

-- `==` on optional names.
abbrev pub same_name : Option Text → Option Text → Bool
same_name none none = true
same_name (some a) (some b) = text_eq a b
same_name _ _ = false

abbrev pub same_bool : Option Bool → Bool → Bool
same_bool none b = false
same_bool (some true) b = b
same_bool (some false) b = not b

unfoldable pub supersedes : Action → Option Notice → Bool
unfolding target reports_back
supersedes action none = false
supersedes action (some notice) = elim notice.answered_by [
  | none ↦ reports_back action
  | some _ ↦ is_some (target action).0 && same_name (target action).0 notice.mount
]

pub record TrayModel : Type 0 where
  pub link : Link
  pub mounts : Map MountView
  pub transfers : Map TransferState
  pub notice : Option Notice

unfoldable pub tray_new : TrayModel
tray_new = record { link = connecting; mounts = []; transfers = []; notice = none }

-- The model, and the action to send.
unfoldable pub take_action : TrayModel → Action → TrayModel × Action
unfolding supersedes
take_action m action =
    (record m { notice = if supersedes action m.notice then none else m.notice }, action)

unfoldable pub set_notice : TrayModel → Option Text → NoticeText → Option Bool → TrayModel
set_notice m mount text answered_by = record m {
  notice = some (record { mount = mount; text = text; answered_by = answered_by });
}

unfoldable pub go_down : TrayModel → LinkError → TrayModel
unfolding from_error
go_down m e = record { link = down (from_error e); mounts = []; transfers = []; notice = none }

-- `mounts.into_iter().map(|m| (m.name.clone(), m)).collect()`.
unfoldable pub by_name : Map MountView → List MountView → Map MountView
by_name acc [] = acc
by_name acc (v ∷ vs) = by_name (insert acc v.name v) vs

unfoldable pub go_up : TrayModel → ServiceInfo → List MountView → TrayModel
unfolding by_name
go_up m info mounts = record {
  link = up info;
  mounts = by_name [] mounts;
  transfers = [];
  notice = none;
}

unfoldable pub go_connecting : TrayModel → TrayModel
go_connecting m = record { link = connecting; mounts = []; transfers = []; notice = none }

unfoldable pub restate : TrayModel → ServiceInfo → TrayModel
restate m info = elim m.link [ up _ ↦ record m { link = up info } | _ ↦ m ]

unfoldable pub resync : TrayModel → ServiceInfo → List MountView → TrayModel
unfolding by_name
resync m info mounts = record m { link = up info; mounts = by_name [] mounts; transfers = [] }

-- Whether a mount's new state is what a notice waited for.
unfoldable pub answers : Option Notice → MountView → Bool
answers none view = false
answers (some n) view = same_name n.mount (some view.name) && same_bool n.answered_by view.live

unfoldable pub upsert_mount : TrayModel → MountView → TrayModel
unfolding answers
upsert_mount m view = record m {
  notice = if answers m.notice view then none else m.notice;
  mounts = insert m.mounts view.name view;
}

-- Whether a notice is about this mount.
unfoldable pub is_about : Option Notice → Text → Bool
is_about none name = false
is_about (some n) name = same_name n.mount (some name)

unfoldable pub remove_mount : TrayModel → Text → TrayModel
unfolding is_about
remove_mount m name = record m {
  notice = if is_about m.notice name then none else m.notice;
  mounts = remove m.mounts name;
  transfers = remove m.transfers name;
}

unfoldable pub upsert_transfer : TrayModel → TransferView → TrayModel
upsert_transfer m view = record m {
  transfers = insert m.transfers view.mount (transfer_of_view view);
}
