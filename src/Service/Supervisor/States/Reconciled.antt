-- ===== src/Service/Supervisor/States/Reconciled.antt =====
-- crates/service/src/supervisor.rs: all the rows of `reconcile`.
use rclone_vfsmount_tray.Prelude.{
  ◌≡◌, refl, sym, ap, ◌∙◌, ◌↔◌, ◌⊎◌, Option, some, List, [], ◌∷◌, ◌++◌, map, Text,
}
use mathlib.Core.List.{Memᴰ}
use rclone_vfsmount_tray.Core.Config.{Mount}
use rclone_vfsmount_tray.Core.Mountinfo.{MountEntry}
use rclone_vfsmount_tray.Core.Supervisor.{DiscoveredMount}
use rclone_vfsmount_tray.Service.Host.{Host, M, Outcome, ok, err, stuck, Run, carry_on}
use rclone_vfsmount_tray.Service.Supervisor.{Target, Settings, live_mounts}
use rclone_vfsmount_tray.Service.Supervisor.Orphans.{orphans}
use rclone_vfsmount_tray.Service.Supervisor.States.{
  resolve, configured_rows, claimed_points, orphan_rows, foreign_rows, reconcile,
}
use rclone_vfsmount_tray.Service.Supervisor.States.Rows.{
  IsOrphanRow, IsForeignRow, other_rows-exactly,
}

-- What a step gave, if the steps after it gave something.
abbrev Gave : {W A B : Type 0} → Outcome A × Run W → (A → M W B) → B → Type 0
Gave {W} {A} o f b = (a : A) × (t : Run W) × (o ≡ (ok a, t)) × ((f a t).0 ≡ ok b)

carry_on-Gave :
    {W A B : Type 0} (o : Outcome A × Run W) (f : A → M W B) (b : B)
    → (carry_on o f).0 ≡ ok b
    → Gave o f b
carry_on-Gave (ok a, t) f b h = (a, t, refl, h)
carry_on-Gave (err e, t) f b h = absurd (cc h)
carry_on-Gave (stuck, t) f b h = absurd (cc h)

rows_of : Outcome (List DiscoveredMount) → List DiscoveredMount
rows_of (ok rows) = rows
rows_of (err e) = []
rows_of stuck = []

module _ (h : Host) where
  open h use {World}

  -- The name and the point of each entry, as the client is shown them.
  abbrev pub entry_keys : List Mount → List (Text × Option Text)
  entry_keys = map (λ m. (m.name, some m.mount_point))

  abbrev pub row_keys : List DiscoveredMount → List (Text × Option Text)
  row_keys = map (λ d. (d.name, d.mount_point))

  configured_rows-keys :
      (c : Settings) (found : List Target) (ms : List Mount) (s : Run World)
      (rows : List DiscoveredMount)
      → (configured_rows h c found ms s).0 ≡ ok rows
      → row_keys rows ≡ entry_keys ms
  unfolding configured_rows rows_of
  configured_rows-keys c found [] s rows e = ap (λ o. row_keys (rows_of o)) (sym e)
  configured_rows-keys c found (m ∷ ms) s rows e =
      let (st, t, e1, e2) = carry_on-Gave (resolve h c m found s) _ rows e in
      let (rest, u, e3, e4) = carry_on-Gave (configured_rows h c found ms t) _ rows e2 in
      ap (λ o. row_keys (rows_of o)) (sym e4)
      ∙ ap (λ keys. (m.name, some m.mount_point) ∷ keys)
          (configured_rows-keys c found ms t rest (ap (λ o. o.0) e3))

  -- The rows of a reconciliation, and what was read for them: the table of mounts at its start, the
  -- orphans and the point that each entry resolves to.
  pub record Reconciled (c : Settings) (s : Run World) (rows : List DiscoveredMount) : Type 0 where
    pub live : List MountEntry
    pub found : List Target
    pub claimed : List Text
    pub configured : List DiscoveredMount
    pub others : List DiscoveredMount
    pub live_read : (live_mounts h s).0 ≡ ok live
    pub found_read : (t : Run World) × ((orphans h c t).0 ≡ ok found)
    pub claimed_read : (t : Run World) × ((claimed_points h c.config.mounts t).0 ≡ ok claimed)
    pub in_order : rows ≡ configured ++ others
    -- Each entry has one row, under its name and at the point that it is configured with.
    pub one_each : row_keys configured ≡ entry_keys c.config.mounts
    -- The other rows are those of the orphans that no entry names, and of the rclone mounts at points
    -- that neither an entry nor an orphan claims.
    pub exactly :
        (d : DiscoveredMount)
        → Memᴰ d others ↔ (
            IsOrphanRow c.config.mounts found d
            ⊎ IsForeignRow (claimed ++ map (λ o. o.point) found) live d)

  -- Whatever the host answers: if a reconciliation gives rows, the first of them are one for each
  -- configured mount, in their order, by its name and point. A row is among the others exactly if it is
  -- that of an orphan whose unit no entry names, or that of an rclone mount which the kernel listed at
  -- the start, at a point that neither a configured mount resolved to nor an orphan has.
  pub reconcile_lem :
      (c : Settings) (s : Run World) (rows : List DiscoveredMount)
      → (reconcile h c s).0 ≡ ok rows
      → Reconciled c s rows
  unfolding reconcile rows_of
  reconcile_lem c s rows e =
      let (live, s1, r1, e1) = carry_on-Gave (live_mounts h s) _ rows e in
      let (found, s2, r2, e2) = carry_on-Gave (orphans h c s1) _ rows e1 in
      let (configured, s3, r3, e3) =
        carry_on-Gave (configured_rows h c found c.config.mounts s2) _ rows e2 in
      let (claimed, s4, r4, e4) = carry_on-Gave (claimed_points h c.config.mounts s3) _ rows e3 in
      record {
        live = live;
        found = found;
        claimed = claimed;
        configured = configured;
        others =
            orphan_rows c.config.mounts found
            ++ foreign_rows (claimed ++ map (λ o. o.point) found) live;
        live_read = ap (λ o. o.0) r1;
        found_read = (s1, ap (λ o. o.0) r2);
        claimed_read = (s3, ap (λ o. o.0) r4);
        in_order = ap rows_of (sym e4);
        one_each = configured_rows-keys c found c.config.mounts s2 configured (ap (λ o. o.0) r3);
        exactly =
            other_rows-exactly c.config.mounts found (claimed ++ map (λ o. o.point) found) live;
      }
