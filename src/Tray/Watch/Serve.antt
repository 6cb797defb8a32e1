-- ===== src/Tray/Watch/Serve.antt =====
-- crates/tray/src/watch.rs: an attachment from the question of who owns the name to its end.
use rclone_vfsmount_tray.Prelude.{
  Bool, true, false, Option, none, some, List, [], ◌∷◌, if◌then◌else◌, Text,
}
use rclone_vfsmount_tray.Core.Ipc.{MountView, TransferView}
use rclone_vfsmount_tray.Tray.Link.{not_running, reset, from_zbus}
use rclone_vfsmount_tray.Tray.Model.{
  TrayModel, ServiceInfo, Action, NoticeText, take_action, set_notice, go_up, go_connecting,
  restate, resync, upsert_mount, remove_mount, upsert_transfer,
}
use rclone_vfsmount_tray.Tray.Watch.{
  LinkStep, gone, now_step, bus_step, Owner, owned, no_owner, owner_error, Waited, owner_came,
  owners_ended, refresh_asked, Bus, Got, got, gave, Snapshot, attaching, describe, gather,
  attach_calls, Linking, update, down_link, give_up, bus_lost,
}

-- What one round of the loop waits for: a signal, whose arguments may not parse, or the end of one of
-- the streams; and what the menu and the actions do to the tray in between.
pub data Event : Type 0 where
  state_signal : Option MountView → Event
  removal_signal : Option Text → Event
  transfer_signal : Option TransferView → Event
  owner_signal : Event
  -- Whether the properties are the service's own.
  property_signal : Bool → Event
  refresh_request : Event
  stream_ended : Event
  menu_click : Action → Event
  noted : Option Text → NoticeText → Option Bool → Event

-- Whether the loop goes on, or how the attachment ended.
pub data Attachment : Type 0 where
  going : Attachment
  ended : LinkStep → Attachment

unfoldable pub upsert_all : List TransferView → TrayModel → TrayModel
upsert_all [] m = m
upsert_all (t ∷ ts) m = upsert_all ts (upsert_transfer m t)

module _ (b : Bus) where
  -- `if !edit(..) { return LinkStep::Gone }`
  unfoldable pub edit : (TrayModel → TrayModel) → Linking b → Attachment × Linking b
  unfolding update
  edit f l = let (held, after) = update b f l in (if held then going else ended gone, after)

  unfoldable pub ending : LinkStep × Linking b → Attachment × Linking b
  ending (s, l) = (ended s, l)

  unfoldable pub apply_info : Got ServiceInfo → Linking b → Attachment × Linking b
  unfolding edit ending
  apply_info (got info) l = edit (λ m. restate m info) l
  apply_info (gave e) l = ending (give_up b e l)

  unfoldable pub apply_snapshot : Got Snapshot → Linking b → Attachment × Linking b
  unfolding edit ending upsert_all
  apply_snapshot (got s) l = edit (λ m. upsert_all s.readings (resync m s.info s.mounts)) l
  apply_snapshot (gave e) l = ending (give_up b e l)

  -- One round of the loop.
  unfoldable pub serve_one : Event → Linking b → Attachment × Linking b
  unfolding edit ending apply_info apply_snapshot
  serve_one (state_signal none) l = (going, l)
  serve_one (state_signal (some view)) l = edit (λ m. upsert_mount m view) l
  serve_one (removal_signal none) l = (going, l)
  serve_one (removal_signal (some name)) l = edit (λ m. remove_mount m name) l
  serve_one (transfer_signal none) l = (going, l)
  serve_one (transfer_signal (some t)) l = edit (λ m. upsert_transfer m t) l
  serve_one owner_signal l =
      let (held, after) = update b go_connecting (record l { attached = false }) in
      (ended (if held then now_step else gone), after)
  serve_one (property_signal false) l = (going, l)
  serve_one (property_signal true) l =
      let (answer, w) = attaching b (describe b) l.world in
      apply_info answer (record l { world = w })
  serve_one refresh_request l =
      let (answer, w) = attaching b (gather b) l.world in
      apply_snapshot answer (record l { world = w })
  serve_one stream_ended l = ending (bus_lost b l)
  serve_one (menu_click a) l = (going, record l { model = (take_action l.model a).0 })
  serve_one (noted mount text answered_by) l =
      (going, record l { model = set_notice l.model mount text answered_by })

  unfoldable pub serve_next :
      Attachment × Linking b → (Linking b → Attachment × Linking b) → Attachment × Linking b
  serve_next (going, l) next = next l
  serve_next (ended s, l) next = (ended s, l)

  unfoldable pub serve : List Event → Linking b → Attachment × Linking b
  unfolding serve_one serve_next
  serve [] l = (going, l)
  serve (e ∷ es) l = serve_next (serve_one e l) (serve es)

  -- Once the calls of an attachment are through.
  unfoldable pub attached_with : Got Snapshot → Linking b → Attachment × Linking b
  unfolding edit ending upsert_all
  attached_with (gave e) l = ending (give_up b e l)
  attached_with (got s) l =
      edit (λ m. upsert_all s.readings (go_up m s.info s.mounts))
        (record l { backoff = reset l.backoff; attached = true })

  -- What the wait for the name came back with.
  unfoldable pub waited_end : Waited → Linking b → LinkStep × Linking b
  waited_end owner_came l = (now_step, l)
  waited_end refresh_asked l = (now_step, l)
  waited_end owners_ended l = bus_lost b l

  -- While nobody owns the name: the wait, unless the tray has gone.
  unfoldable pub wait_stopped : Bool → Linking b → LinkStep × Linking b
  unfolding waited_end
  wait_stopped false l = (gone, l)
  wait_stopped true l =
      let (waited, w) = b.wait_for_owner l.world in waited_end waited (record l { world = w })

  unfoldable pub attach_to : Owner → Linking b → Attachment × Linking b
  unfolding attached_with ending wait_stopped
  attach_to owned l =
      let (answer, w) = attach_calls b l.world in attached_with answer (record l { world = w })
  attach_to no_owner l =
      let (held, after) = down_link b not_running l in ending (wait_stopped held after)
  attach_to (owner_error e) l =
      let (held, after) = down_link b (from_zbus e) l in
      (ended (if held then bus_step else gone), after)

  unfoldable pub attach : Linking b → Attachment × Linking b
  unfolding attach_to
  attach l = let (owner, w) = b.name_owner l.world in attach_to owner (record l { world = w })

  unfoldable pub attach_and_serve : List Event → Linking b → Attachment × Linking b
  unfolding attach serve serve_next
  attach_and_serve events l = serve_next (attach l) (serve events)
