-- ===== src/Tray/Watch/Dropped.antt =====
-- crates/tray/src/watch.rs: everything is dropped when the link goes.
use rclone_vfsmount_tray.Prelude.{
  ◌≡◌, refl, ap, ◌∙◌, Bool, true, false, not, none, some, List, [], ◌∷◌, arith, if◌then◌else◌,
}
use rclone_vfsmount_tray.Core.Ipc.{TransferView}
use rclone_vfsmount_tray.Tray.Link.{LinkError, not_running, from_zbus, no_session_bus, reset}
use rclone_vfsmount_tray.Tray.Model.{
  Link, up, TrayModel, ServiceInfo, take_action, set_notice, go_up, go_down, go_connecting, restate,
  resync, upsert_mount, remove_mount, upsert_transfer,
}
use rclone_vfsmount_tray.Tray.Watch.{
  LinkStep, gone, now_step, backoff_step, bus_step, Owner, owned, no_owner, owner_error, Waited,
  owner_came, owners_ended, refresh_asked, Bus, Got, got, gave, Snapshot, attaching, describe,
  gather, attach_calls, Linking, update, down_link, give_up, bus_lost, is_broken,
}
use rclone_vfsmount_tray.Tray.Watch.Serve.{
  Event, state_signal, removal_signal, transfer_signal, owner_signal, property_signal,
  refresh_request, stream_ended, menu_click, noted, Attachment, going, ended, upsert_all, edit,
  ending, apply_info, apply_snapshot, serve_one, serve_next, serve, attached_with, waited_end,
  wait_stopped, attach_to, attach, attach_and_serve,
}

abbrev pub is_up : Link → Bool
is_up (up info) = true
is_up _ = false

module _ (b : Bus) where
  -- Nothing of the service is shown, and no call goes to it.
  pub record IsDropped (l : Linking b) : Type 0 where
    pub not_up : is_up l.model.link ≡ false
    pub no_mounts : l.model.mounts ≡ []
    pub no_readings : l.model.transfers ≡ []
    pub no_proxy : l.attached ≡ false

  pub record IsServing (l : Linking b) : Type 0 where
    pub linked : is_up l.model.link ≡ true
    pub has_proxy : l.attached ≡ true

  -- While it goes on there is a link; when it has ended, and the tray is still there, all is dropped.
  abbrev pub EndsWell : LinkStep → Linking b → Type 0
  EndsWell gone l = Unit
  EndsWell _ l = IsDropped l

  abbrev pub IsOrderly : Attachment × Linking b → Type 0
  IsOrderly (going, l) = IsServing l
  IsOrderly (ended s, l) = EndsWell s l

  -- The linker after an update that found the tray, or did not.
  abbrev updated : Bool → (TrayModel → TrayModel) → Linking b → b.World → Linking b
  updated held f l w = record l { model = if held then f l.model else l.model; world = w }

  abbrev unlinked : Linking b → Linking b
  unlinked l = record l { attached = false }

  go_down-IsDropped :
      (e : LinkError) (l : Linking b) (w : b.World)
      → IsDropped (updated true (λ m. go_down m e) (unlinked l) w)
  unfolding go_down
  go_down-IsDropped e l w = record {
    not_up = refl;
    no_mounts = refl;
    no_readings = refl;
    no_proxy = refl;
  }

  give_up_when :
      (held broken : Bool) (e : LinkError) (l : Linking b) (w : b.World)
      → EndsWell
          (if not held then gone else if broken then bus_step else backoff_step)
          (updated held (λ m. go_down m e) (unlinked l) w)
  give_up_when false broken e l w = tt
  give_up_when true true e l w = go_down-IsDropped e l w
  give_up_when true false e l w = go_down-IsDropped e l w

  give_up-EndsWell : (e : LinkError) (l : Linking b) → EndsWell (give_up b e l).0 (give_up b e l).1
  unfolding give_up down_link update
  give_up-EndsWell e l =
      let (held, w) = b.holds_tray l.world in give_up_when held (is_broken e) e l w

  pub bus_lost_when :
      (held : Bool) (e : LinkError) (l : Linking b) (w : b.World)
      → EndsWell (if held then bus_step else gone) (updated held (λ m. go_down m e) (unlinked l) w)
  bus_lost_when false e l w = tt
  bus_lost_when true e l w = go_down-IsDropped e l w

  pub bus_lost-EndsWell : (l : Linking b) → EndsWell (bus_lost b l).0 (bus_lost b l).1
  unfolding bus_lost down_link update
  bus_lost-EndsWell l =
      let (held, w) = b.holds_tray l.world in bus_lost_when held (no_session_bus _) l w

  connecting_when :
      (held : Bool) (l : Linking b) (w : b.World)
      → EndsWell (if held then now_step else gone) (updated held go_connecting (unlinked l) w)
  unfolding go_connecting
  connecting_when false l w = tt
  connecting_when true l w = record {
    not_up = refl;
    no_mounts = refl;
    no_readings = refl;
    no_proxy = refl;
  }

  edit_when :
      (held : Bool) (f : TrayModel → TrayModel) (l : Linking b) (w : b.World)
      → is_up (f l.model).link ≡ true
      → l.attached ≡ true
      → IsOrderly ((if held then going else ended gone), updated held f l w)
  edit_when false f l w h k = tt
  edit_when true f l w h k = record { linked = h; has_proxy = k }

  edit-IsOrderly :
      (f : TrayModel → TrayModel) (l : Linking b)
      → is_up (f l.model).link ≡ true
      → l.attached ≡ true
      → IsOrderly (edit b f l)
  unfolding edit update
  edit-IsOrderly f l h k = let (held, w) = b.holds_tray l.world in edit_when held f l w h k

  upsert_all-link : (ts : List TransferView) (m : TrayModel) → (upsert_all ts m).link ≡ m.link
  unfolding upsert_all upsert_transfer
  upsert_all-link [] m = refl
  upsert_all-link (t ∷ ts) m = upsert_all-link ts (upsert_transfer m t)

  restate-link : (m : TrayModel) (info : ServiceInfo) → is_up (restate m info).link ≡ is_up m.link
  unfolding restate
  restate-link m info = ground arith

  apply_info-IsOrderly :
      (a : Got ServiceInfo) (l : Linking b) → IsServing l → IsOrderly (apply_info b a l)
  unfolding apply_info ending
  apply_info-IsOrderly (got info) l h =
      edit-IsOrderly (λ m. restate m info) l (restate-link l.model info ∙ h.linked) h.has_proxy
  apply_info-IsOrderly (gave e) l h = give_up-EndsWell e l

  apply_snapshot-IsOrderly :
      (a : Got Snapshot) (l : Linking b) → IsServing l → IsOrderly (apply_snapshot b a l)
  unfolding apply_snapshot ending resync
  apply_snapshot-IsOrderly (got s) l h =
      edit-IsOrderly (λ m. upsert_all s.readings (resync m s.info s.mounts)) l
        (ap is_up (upsert_all-link s.readings (resync l.model s.info s.mounts))) h.has_proxy
  apply_snapshot-IsOrderly (gave e) l h = give_up-EndsWell e l

  serve_one-IsOrderly : (e : Event) (l : Linking b) → IsServing l → IsOrderly (serve_one b e l)
  unfolding serve_one ending update upsert_mount remove_mount upsert_transfer take_action set_notice
  serve_one-IsOrderly (state_signal none) l h = h
  serve_one-IsOrderly (state_signal (some view)) l h =
      edit-IsOrderly (λ m. upsert_mount m view) l h.linked h.has_proxy
  serve_one-IsOrderly (removal_signal none) l h = h
  serve_one-IsOrderly (removal_signal (some name)) l h =
      edit-IsOrderly (λ m. remove_mount m name) l h.linked h.has_proxy
  serve_one-IsOrderly (transfer_signal none) l h = h
  serve_one-IsOrderly (transfer_signal (some t)) l h =
      edit-IsOrderly (λ m. upsert_transfer m t) l h.linked h.has_proxy
  serve_one-IsOrderly owner_signal l h =
      let (held, w) = b.holds_tray l.world in connecting_when held l w
  serve_one-IsOrderly (property_signal false) l h = h
  serve_one-IsOrderly (property_signal true) l h =
      let out = attaching b (describe b) l.world in
      apply_info-IsOrderly out.0 (record l { world = out.1 })
        (record { linked = h.linked; has_proxy = h.has_proxy })
  serve_one-IsOrderly refresh_request l h =
      let out = attaching b (gather b) l.world in
      apply_snapshot-IsOrderly out.0 (record l { world = out.1 })
        (record { linked = h.linked; has_proxy = h.has_proxy })
  serve_one-IsOrderly stream_ended l h = bus_lost-EndsWell l
  serve_one-IsOrderly (menu_click a) l h = record { linked = h.linked; has_proxy = h.has_proxy }
  serve_one-IsOrderly (noted mount text answered_by) l h = record {
    linked = h.linked;
    has_proxy = h.has_proxy;
  }

  serve_next-IsOrderly :
      (out : Attachment × Linking b) (next : Linking b → Attachment × Linking b)
      → IsOrderly out
      → ((l : Linking b) → IsServing l → IsOrderly (next l))
      → IsOrderly (serve_next b out next)
  unfolding serve_next
  serve_next-IsOrderly (going, l) next h k = k l h
  serve_next-IsOrderly (ended s, l) next h k = h

  serve-IsOrderly : (es : List Event) (l : Linking b) → IsServing l → IsOrderly (serve b es l)
  unfolding serve
  serve-IsOrderly [] l h = h
  serve-IsOrderly (e ∷ es) l h =
      serve_next-IsOrderly (serve_one b e l) (serve b es) (serve_one-IsOrderly e l h)
        (serve-IsOrderly es)

  attached_with-IsOrderly : (a : Got Snapshot) (l : Linking b) → IsOrderly (attached_with b a l)
  unfolding attached_with ending go_up
  attached_with-IsOrderly (gave e) l = give_up-EndsWell e l
  attached_with-IsOrderly (got s) l =
      let ready : Linking b = record l { backoff = reset l.backoff; attached = true } in
      edit-IsOrderly (λ m. upsert_all s.readings (go_up m s.info s.mounts)) ready
        (ap is_up (upsert_all-link s.readings (go_up l.model s.info s.mounts))) refl

  waited_end-EndsWell :
      (waited : Waited) (l : Linking b)
      → IsDropped l
      → EndsWell (waited_end b waited l).0 (waited_end b waited l).1
  unfolding waited_end
  waited_end-EndsWell owner_came l h = h
  waited_end-EndsWell refresh_asked l h = h
  waited_end-EndsWell owners_ended l h = bus_lost-EndsWell l

  stopped_when :
      (held : Bool) (e : LinkError) (l : Linking b) (w : b.World)
      → let out = wait_stopped b held (updated held (λ m. go_down m e) (unlinked l) w) in
        EndsWell out.0 out.1
  unfolding wait_stopped go_down
  stopped_when false e l w = tt
  stopped_when true e l w =
      waited_end-EndsWell (b.wait_for_owner w).0 _
        (record { not_up = refl; no_mounts = refl; no_readings = refl; no_proxy = refl })

  attach_to-IsOrderly : (owner : Owner) (l : Linking b) → IsOrderly (attach_to b owner l)
  unfolding attach_to ending down_link update
  attach_to-IsOrderly owned l =
      let (answer, w) = attach_calls b l.world in
      attached_with-IsOrderly answer (record l { world = w })
  attach_to-IsOrderly no_owner l =
      let (held, w) = b.holds_tray l.world in stopped_when held not_running l w
  attach_to-IsOrderly (owner_error e) l =
      let (held, w) = b.holds_tray l.world in bus_lost_when held (from_zbus e) l w

  -- Whatever the tray holds before, the bus and the service answer, and comes to pass while the loop
  -- runs, what the menu and the actions do to the tray included: as long as the attachment goes on,
  -- the tray shows a link and the proxy is published; and when it has ended, unless the panel dropped
  -- the tray, no link, no mount and no reading is shown, and no proxy is published.
  pub attach_and_serve-IsOrderly :
      (events : List Event) (l : Linking b) → IsOrderly (attach_and_serve b events l)
  unfolding attach_and_serve attach
  attach_and_serve-IsOrderly events l =
      let (owner, w) = b.name_owner l.world in
      let asked : Linking b = record l { world = w } in
      serve_next-IsOrderly (attach_to b owner asked) (serve b events)
        (attach_to-IsOrderly owner asked) (serve-IsOrderly events)
