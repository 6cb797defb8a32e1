-- ===== src/Tray/Watch/Mirror.antt =====
-- crates/tray/src/watch.rs with crates/service/src/registry.rs: the tray follows the registry.
use rclone_vfsmount_tray.Prelude.{
  ◌≡◌, refl, sym, ap, ◌∙◌, true, some, List, [], ◌∷◌, map, arith, Text, get,
}
use rclone_vfsmount_tray.Core.Ipc.{MountView}
use rclone_vfsmount_tray.Service.Registry.{
  Change, mount_changed, removed, transfer_changed, capability_tier, Registry, observe_mounts,
}
use rclone_vfsmount_tray.Service.Registry.Mirror.{
  Client, apply, apply_all, Agrees, observe_mounts-mirror,
}
use rclone_vfsmount_tray.Tray.Model.{
  TrayModel, ServiceInfo, restate, upsert_mount, remove_mount, upsert_transfer,
}
use rclone_vfsmount_tray.Tray.Watch.{Bus, Got, got, gave, attaching, describe, Linking, update}
use rclone_vfsmount_tray.Tray.Watch.Serve.{
  Event, state_signal, removal_signal, transfer_signal, property_signal, Attachment, going, ended,
  edit, ending, apply_info, serve_one, serve_next, serve,
}

-- The signal that a change of the registry is published as.
unfoldable pub signal_of : Change → Event
signal_of (mount_changed v) = state_signal (some v)
signal_of (removed name) = removal_signal (some name)
signal_of (transfer_changed t) = transfer_signal (some t)
signal_of capability_tier = property_signal true

module _ (b : Bus) where
  edit-going :
      (f : TrayModel → TrayModel) (l : Linking b)
      → (edit b f l).0 ≡ going
      → (edit b f l).1.model ≡ f l.model
  unfolding edit update
  edit-going f l h = ground (arith, h)

  restate-mounts : (m : TrayModel) (info : ServiceInfo) → (restate m info).mounts ≡ m.mounts
  unfolding restate
  restate-mounts m info = ground arith

  apply_info-mounts :
      (a : Got ServiceInfo) (l : Linking b)
      → (apply_info b a l).0 ≡ going
      → (apply_info b a l).1.model.mounts ≡ l.model.mounts
  unfolding apply_info ending
  apply_info-mounts (got info) l h =
      ap (λ m. m.mounts) (edit-going (λ m. restate m info) l h) ∙ restate-mounts l.model info
  apply_info-mounts (gave e) l h = absurd (cc h)

  serve_one-mounts :
      (x : Change) (l : Linking b) (c : Client)
      → c.mounts ≡ l.model.mounts
      → (serve_one b (signal_of x) l).0 ≡ going
      → (apply c x).mounts ≡ (serve_one b (signal_of x) l).1.model.mounts
  unfolding serve_one signal_of upsert_mount remove_mount upsert_transfer
  serve_one-mounts (mount_changed v) l c e h = cc (e, edit-going (λ m. upsert_mount m v) l h)
  serve_one-mounts (removed name) l c e h = cc (e, edit-going (λ m. remove_mount m name) l h)
  serve_one-mounts (transfer_changed t) l c e h = cc (e, edit-going (λ m. upsert_transfer m t) l h)
  serve_one-mounts capability_tier l c e h =
      let out = attaching b (describe b) l.world in
      e ∙ sym (apply_info-mounts out.0 (record l { world = out.1 }) h)

  serve_next-going :
      (out : Attachment × Linking b) (next : Linking b → Attachment × Linking b)
      → (serve_next b out next).0 ≡ going
      → (out.0 ≡ going) × (serve_next b out next ≡ next out.1)
  unfolding serve_next
  serve_next-going (going, l) next h = (refl, refl)
  serve_next-going (ended s, l) next h = absurd (cc h)

  serve-mounts :
      (xs : List Change) (l : Linking b) (c : Client)
      → c.mounts ≡ l.model.mounts
      → (serve b (map signal_of xs) l).0 ≡ going
      → (apply_all c xs).mounts ≡ (serve b (map signal_of xs) l).1.model.mounts
  unfolding serve
  serve-mounts [] l c e h = e
  serve-mounts (x ∷ xs) l c e h =
      let (first, rest) =
        serve_next-going (serve_one b (signal_of x) l) (serve b (map signal_of xs)) h in
      let next = (serve_one b (signal_of x) l).1 in
      serve-mounts xs next (apply c x) (serve_one-mounts x l c e first)
        (ap (λ o. o.0) (sym rest) ∙ h)
      ∙ ap (λ o. o.1.model.mounts) (sym rest)

  -- A tray that shows the mounts that the registry holds, and is served the signals of a sweep's changes
  -- in the order in which they were published, shows the mounts that the registry holds after the
  -- sweep. The attachment must not end meanwhile, and rows of the sweep that share a name must be equal.
  pub serve-mirror :
      (l : Linking b) (r : Registry) (found : List MountView)
      → Agrees [] found
      → ((k : Text) → get l.model.mounts k ≡ get r.mounts k)
      → (serve b (map signal_of (observe_mounts r found).1) l).0 ≡ going
      → (k : Text)
      → get (serve b (map signal_of (observe_mounts r found).1) l).1.model.mounts k
        ≡ get (observe_mounts r found).0.mounts k
  serve-mirror l r found rows same h k =
      let c : Client = record { mounts = l.model.mounts; transfers = [] } in
      ap (λ m. get m k) (sym (serve-mounts (observe_mounts r found).1 l c refl h))
      ∙ observe_mounts-mirror r found c rows same k
