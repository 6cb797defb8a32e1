-- ===== src/Examples/Panel.antt =====
-- The tray.
use rclone_vfsmount_tray.Prelude.{
  ℕ, ◌≤◌, min, ◌≡◌, refl, ◌↔◌, inl, Bool, true, false, ◌||◌, none, some, List, [], ◌∷◌, map, arith,
  ◌==◌, if◌then◌else◌, length, any, Text, lit, text_eq, u64_max, get, insert, remove, contains_key,
  values, keys,
}
use rclone_vfsmount_tray.Core.Capabilities.{t2}
use rclone_vfsmount_tray.Core.Transfer.{TransferState}
use rclone_vfsmount_tray.Core.Ipc.{MountView}
use rclone_vfsmount_tray.Service.Registry.{
  Registry, observe_mounts, observe_all, observe_one, forget_missing, forget_one, differs, drops,
  pollable_view,
}
use rclone_vfsmount_tray.Tray.Link.{backoff_new, other_error, zbus}
use rclone_vfsmount_tray.Tray.Model.{
  TrayModel, up, ServiceInfo, mount_it, unmount_it, refresh, tray_new,
}
use rclone_vfsmount_tray.Tray.Model.Summary.{summary, tray_state}
use rclone_vfsmount_tray.Tray.Model.Lines.{pending_line, all_synced}
use rclone_vfsmount_tray.Tray.Model.Rows.{is_served, row_is_blind, row_is_pending}
use rclone_vfsmount_tray.Tray.Model.State.{tray_state_lem, pending_line-all_synced, shown}
use rclone_vfsmount_tray.Tray.Model.Remaining.{summary-remaining, row_stops, all_left}
use rclone_vfsmount_tray.Tray.Wrap.{
  wrap, all_rows, wrap_lines, wrap_line, place_all, place, join_last, fits, pieces, split_to_width,
  chop, words,
}
use rclone_vfsmount_tray.Core.Mountinfo.{lines, split, end_lines, trim_cr}
use rclone_vfsmount_tray.Tray.Wrap.Rows.{wrap-bounds, Within}
use rclone_vfsmount_tray.Tray.Wrap.Kept.{wrap-ink, ink, run_together}
use rclone_vfsmount_tray.Tray.Act.{Desk, ran, Acting, dispatch}
use rclone_vfsmount_tray.Tray.Act.Gentle.{IsGentle, dispatch-IsGentle}
use rclone_vfsmount_tray.Tray.Watch.{Bus, Linker, answered, call_failed, owned, owner_came, update}
use rclone_vfsmount_tray.Tray.Watch.Serve.{
  Event, state_signal, owner_signal, menu_click, removal_signal, serve, serve_next, serve_one, edit,
  going,
}
use rclone_vfsmount_tray.Tray.Watch.Dropped.{IsDropped}
use rclone_vfsmount_tray.Tray.Watch.Follow.{
  clicked, delay_over, refresh_pressed, owner_changed, unconnected, connected, Turn, link,
}
use rclone_vfsmount_tray.Tray.Watch.Settled.{IsSettled, link-IsSettled}
use rclone_vfsmount_tray.Tray.Watch.Mirror.{serve-mirror, signal_of}

abbrev row : Text → MountView
row name = record {
  name = name;
  state = lit "mounted";
  live = true;
  managed = true;
  reason = none;
  mount_point = some name;
  remote = none;
}

-- One file of ten bytes is still to be sent.
abbrev busy_reading : TransferState
busy_reading = record {
  mount = lit "a";
  fidelity = some t2;
  outstanding_known = true;
  has_progress = false;
  pending = record { files = 1; known_bytes = 10; unknown_size_files = 0 };
  uploading = some 1;
  errored_files = some 0;
  out_of_space = some false;
  rate_bytes_per_sec = some 2;
  files = [];
  degraded_reason = none;
}

abbrev info : ServiceInfo
info = record {
  service_version = lit "1";
  interface_version = 1;
  rclone_version = lit "v1.70";
  capability_tier = lit "T2";
}

abbrev busy_tray : TrayModel
busy_tray = record {
  link = up info;
  mounts = (lit "a", row (lit "a")) ∷ [];
  transfers = (lit "a", busy_reading) ∷ [];
  notice = none;
}

tray_state_lem_example : tray_state busy_tray ≡ shown busy_tray
tray_state_lem_example = tray_state_lem busy_tray

pending_line-all_synced_example : (pending_line (summary busy_tray) ≡ some (all_synced ∷ [])) ↔ (
    (any is_served (values busy_tray.mounts) ≡ true)
    × (any (row_is_blind busy_tray.transfers) (values busy_tray.mounts) ≡ false)
    × (any (row_is_pending busy_tray.transfers) (values busy_tray.mounts) ≡ false))
pending_line-all_synced_example = pending_line-all_synced busy_tray

summary-remaining_example : (summary busy_tray).remaining ≡ (
    if any (row_is_blind busy_tray.transfers) (values busy_tray.mounts)
      || any (row_stops busy_tray.transfers) (values busy_tray.mounts)
    then none
    else some (min (all_left busy_tray.transfers (values busy_tray.mounts)) u64_max))
summary-remaining_example = summary-remaining busy_tray

abbrev white : ℕ → Bool
white c = (c == 32) || (c == 10) || (c == 13)

abbrev refusal : Text
refusal = lit "photos is busy:\nlsof /mnt/photographs"

wrap-bounds_example : (length (wrap white refusal 10 2) ≤ 2) × Within 12 (wrap white refusal 10 2)
wrap-bounds_example = wrap-bounds white refusal 10 2

refusal_rows : length (all_rows white refusal 10) ≤ 9
unfolding all_rows wrap_lines wrap_line place_all place join_last fits pieces split_to_width chop
    words lines split end_lines trim_cr
refusal_rows = omega arith

wrap-ink_example : ink white (run_together (wrap white refusal 10 9)) ≡ ink white refusal
wrap-ink_example = wrap-ink white refusal 10 9 refl refl refl refusal_rows

-- A service that answers everything, and a tray that stays.
abbrev calm_bus : Bus
calm_bus = record {
  World = ℕ;
  min_interface = 1;
  holds_tray = λ w. (true, w);
  too_late = λ w. (false, w);
  name_owner = λ w. (owned, w);
  wait_for_owner = λ w. (owner_came, w);
  destination = λ w. (none, w);
  build_proxy = λ w. (none, w);
  subscribe = λ s w. (none, w);
  interface_version = λ w. (answered 1, w);
  service_version = λ w. (answered (lit "1"), w);
  rclone_version = λ w. (answered (lit "v1.70"), w);
  capability_tier = λ w. (answered (lit "T2"), w);
  list_mounts = λ w. (answered (row (lit "a") ∷ []), w);
  get_transfer_state = λ name w. (call_failed (zbus (other_error (lit "gone"))), w);
}

abbrev fresh_linker : Linker ℕ
fresh_linker = record { model = tray_new; attached = false; backoff = backoff_new; world = 0 }

abbrev some_events : List Event
some_events =
    state_signal (some (row (lit "b")))
    ∷ menu_click (mount_it (lit "c"))
    ∷ removal_signal (some (lit "a"))
    ∷ owner_signal
    ∷ []

fresh_linker-IsDropped : IsDropped calm_bus fresh_linker
unfolding tray_new
fresh_linker-IsDropped = record {
  not_up = refl;
  no_mounts = refl;
  no_readings = refl;
  no_proxy = refl;
}

-- No bus at first; then an attachment that ends with a new owner, and one that goes on.
abbrev some_turns : List Turn
some_turns =
    record {
      connection = unconnected (other_error (lit "no bus"));
      rest = record { deeds = clicked refresh ∷ []; wake = delay_over };
    }
    ∷ record {
      connection = connected none none (
          record { events = some_events; pause = owner_changed [] }
          ∷ record { events = []; pause = owner_changed [] }
          ∷ []);
      rest = record { deeds = []; wake = refresh_pressed };
    }
    ∷ []

link-IsSettled_example : IsSettled calm_bus (link calm_bus some_turns fresh_linker)
link-IsSettled_example = link-IsSettled calm_bus some_turns fresh_linker fresh_linker-IsDropped

abbrev busy_linker : Linker ℕ
busy_linker = record { model = busy_tray; attached = true; backoff = backoff_new; world = 0 }

abbrev one_row : Registry
one_row = record { mounts = (lit "a", row (lit "a")) ∷ []; transfers = []; best = none }

abbrev found : List MountView
found = row (lit "b") ∷ []

sweep_served :
    (serve calm_bus (map signal_of (observe_mounts one_row found).1) busy_linker).0 ≡ going
unfolding serve serve_next serve_one edit update signal_of observe_mounts observe_all observe_one
    forget_missing forget_one differs drops contains_key get insert keys pollable_view text_eq
    remove
sweep_served = refl

serve-mirror_example :
    get
      (serve calm_bus (map signal_of (observe_mounts one_row found).1) busy_linker).1.model.mounts
      (lit "b")
    ≡ get (observe_mounts one_row found).0.mounts (lit "b")
unfolding get
serve-mirror_example =
    serve-mirror calm_bus busy_linker one_row found (inl refl, tt) (λ k. refl) sweep_served
      (lit "b")

-- A service that refuses nothing, and programs that work.
abbrev calm_desk : Desk
calm_desk = record {
  World = ℕ;
  is_whitespace = λ c. c == b' ';
  call = λ asked w. ((false, none), w);
  program = λ asked w. (ran (record { success = true; shown = []; stderr = [] }), w);
}

abbrev at_the_desk : Acting ℕ
at_the_desk = record { model = busy_tray; asked = []; world = 0 }

dispatch-IsGentle_example :
    IsGentle calm_desk true
      (unmount_it (lit "a"))
      at_the_desk
      (dispatch calm_desk true (unmount_it (lit "a")) at_the_desk)
dispatch-IsGentle_example = dispatch-IsGentle calm_desk true (unmount_it (lit "a")) at_the_desk
