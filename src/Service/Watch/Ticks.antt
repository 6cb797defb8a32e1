-- ===== src/Service/Watch/Ticks.antt =====
-- crates/service/src/watch.rs: what a sweep leaves of the readings.
use rclone_vfsmount_tray.Prelude.{
  ◌≡◌, refl, sym, ap, ◌∙◌, Bool, true, false, ◌&&◌, ◌||◌, Option, none, some, List, [], ◌∷◌, map,
  arith, Option-cases, is_some, any, filter, Text, text_eq, text_eq_iff, Map, get, insert,
  contains_key, values, keys,
}
use rclone_vfsmount_tray.Core.Ipc.{MountView}
use rclone_vfsmount_tray.Core.Supervisor.{DiscoveredMount}
use rclone_vfsmount_tray.Service.Registry.{
  Registry, Sweeping, observe_mounts, pollable, pollable_view, observe_all, observe_one,
  forget_missing,
}
use rclone_vfsmount_tray.Service.Registry.Sweep.{
  last_named, has_unpollable, is_missing, observe_mounts-mounts, start_of, forget_missing-seen,
  observe_all-seen, observe_all-transfers, forget_missing-transfers,
}
use rclone_vfsmount_tray.Service.Poller.{MountPoller}
use rclone_vfsmount_tray.Service.Watch.{Machine, contains, view_of, Watcher, forget_cycled, observe}
use rclone_vfsmount_tray.Service.Watch.Rounds.{holds, get-remove_all, IsKept}

-- A row of a sweep that is of this mount and to be polled.
abbrev pub serves : Text → MountView → Bool
serves k v = text_eq v.name k && pollable_view v

-- Rows of a sweep that share a name agree on whether the mount is to be polled.
abbrev pub IsSteady : List MountView → Type 0
IsSteady found = (k : Text) → any (serves k) found ≡ true → has_unpollable found k ≡ false

any-insert :
    (p : MountView → Bool) (m : Map MountView) (k : Text) (v : MountView)
    → any p (values (insert m k v)) ≡ true
    → (p v || any p (values m)) ≡ true
unfolding values insert
any-insert p [] k v h = h
any-insert p ((j, w) ∷ m) k v h = ground (arith, h, any-insert p m k v)

any-seen :
    (p : MountView → Bool) (mounts : Map MountView) (s : Sweeping) (found : List MountView)
    → any p (values (observe_all mounts s found).seen) ≡ true
    → (any p (values s.seen) || any p found) ≡ true
unfolding observe_all observe_one
any-seen p mounts s [] h = ground (arith, h)
any-seen p mounts s (v ∷ vs) h =
    ground (arith, any-seen p mounts (observe_one mounts s v) vs h, any-insert p s.seen v.name v)

pub any-get :
    (p : MountView → Bool) (m : Map MountView) (k : Text) {v : MountView}
    → get m k ≡ some v
    → p v ≡ true
    → any p (values m) ≡ true
unfolding get values
any-get p [] k h e = cc h
any-get p ((j, w) ∷ m) k {v} h e = ground (arith, h, e, any-get p m k {v = v})

pub contains-pollable :
    (k : Text) (vs : List MountView)
    → contains (map (λ v. v.name) (filter pollable_view vs)) k ≡ any (serves k) vs
contains-pollable k [] = refl
contains-pollable k (v ∷ vs) = ground (arith, contains-pollable k vs)

last_named-name :
    (found : List MountView) (k : Text) {v : MountView}
    → last_named found k ≡ some v
    → text_eq v.name k ≡ true
last_named-name [] k h = cc h
last_named-name (w ∷ vs) k {v} h = ground (arith, h, last_named-name vs k {v = v})

last_named-serves :
    (found : List MountView) (k : Text)
    → any (serves k) found ≡ true
    → is_some (last_named found k) ≡ true
last_named-serves [] k h = cc h
last_named-serves (w ∷ vs) k h = ground (arith, h, last_named-serves vs k)

found_unmissing :
    (names : List Text) (seen : Map MountView) (k : Text)
    → contains_key seen k ≡ true
    → is_missing names seen k ≡ false
unfolding contains_key
found_unmissing [] seen k h = refl
found_unmissing (n ∷ ns) seen k h = ground (arith, h, text_eq_iff n k, found_unmissing ns seen k h)

-- Under each key of the registry is a row of that name.
abbrev pub Keyed : Registry → Type 0
Keyed r = (k : Text) (v : MountView) → get r.mounts k ≡ some v → text_eq v.name k ≡ true

observe_mounts-Keyed : (r : Registry) (found : List MountView) → Keyed (observe_mounts r found).0
observe_mounts-Keyed r found k v h =
    last_named-name found k (sym (observe_mounts-mounts r found k) ∙ h)

-- A mount that is to be polled after a sweep is one that the sweep found.
pollable_found :
    (r : Registry) (found : List MountView) (k : Text)
    → contains (pollable (observe_mounts r found).0) k ≡ true
    → any (serves k) found ≡ true
unfolding observe_mounts pollable values
pollable_found r found k h =
    let swept = observe_all r.mounts (start_of r) found in
    let same = forget_missing-seen (keys r.mounts) swept in
    any-seen (serves k) r.mounts (start_of r) found (
      ap (λ m. any (serves k) (values m)) (sym same)
      ∙ sym (contains-pollable k (values (forget_missing (keys r.mounts) swept).seen))
      ∙ h)

seen_found :
    (r : Registry) (found : List MountView) (k : Text)
    → any (serves k) found ≡ true
    → contains_key (observe_all r.mounts (start_of r) found).seen k ≡ true
unfolding contains_key get
seen_found r found k h = ground (
  arith,
  observe_all-seen r.mounts (start_of r) found k,
  last_named-serves found k h,
  Option-cases (last_named found k),
)

-- A sweep leaves the reading of a mount that is to be polled after it.
observe_mounts-reading :
    (r : Registry) (found : List MountView) (k : Text)
    → IsSteady found
    → contains (pollable (observe_mounts r found).0) k ≡ true
    → get (observe_mounts r found).0.transfers k ≡ get r.transfers k
unfolding observe_mounts
observe_mounts-reading r found k steady h =
    let swept = observe_all r.mounts (start_of r) found in
    let served = pollable_found r found k h in
    ground (
      arith,
      forget_missing-transfers (keys r.mounts) swept k,
      observe_all-transfers r.mounts (start_of r) found k,
      found_unmissing (keys r.mounts) swept.seen k (seen_found r found k served),
      steady k served,
    )

module _ (m : Machine) where
  -- What a sweep hands to the polling: as much of what is kept as is to be polled.
  pub record IsSwept (s : Watcher m) : Type 0 where
    pub swept_reading :
        (k : Text)
        → contains (pollable s.registry) k ≡ true
        → holds s.due k ≡ true
        → holds s.registry.transfers k ≡ true
    pub swept_mount : (k : Text) (p : MountPoller m.floats) → get s.pollers k ≡ some p → p.name ≡ k
    pub swept_keys : Keyed s.registry

  pub forget_cycled-IsKept : (s : Watcher m) → IsKept m s → IsKept m (forget_cycled m s)
  unfolding forget_cycled
  forget_cycled-IsKept s h =
      let names = (m.take_cycled s.world).0 in
      record {
        has_reading = λ k due. h.has_reading k (ground (arith, due, get-remove_all names s.due k));
        of_mount =
            λ k p found. h.of_mount k p (ground (arith, found, get-remove_all names s.pollers k));
      }

  pub observe-IsSwept :
      (found : Option (List DiscoveredMount)) (s : Watcher m)
      → ((ds : List DiscoveredMount) → found ≡ some ds → IsSteady (map (view_of s.config) ds))
      → IsKept m s
      → Keyed s.registry
      → IsSwept (observe m found s).0
  unfolding observe
  observe-IsSwept none s steady h keyed = record {
    swept_reading = λ k there due. h.has_reading k due;
    swept_mount = h.of_mount;
    swept_keys = keyed;
  }
  observe-IsSwept (some ds) s steady h keyed =
      let views = map (view_of s.config) ds in
      record {
        swept_reading = λ k there due.
            ap is_some (observe_mounts-reading s.registry views k (steady ds refl) there)
            ∙ h.has_reading k due;
        swept_mount = h.of_mount;
        swept_keys = observe_mounts-Keyed s.registry views;
      }
