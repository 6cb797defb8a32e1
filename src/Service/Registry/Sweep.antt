-- ===== src/Service/Registry/Sweep.antt =====
-- crates/service/src/registry.rs: what a sweep leaves behind, and what a client is told of it.
use rclone_vfsmount_tray.Prelude.{
  ◌≡◌, refl, ap, ◌∙◌, ◌≢◌, inl, inr, Bool, true, false, not, ◌&&◌, Option, none, some, List, [],
  ◌∷◌, arith, if◌then◌else◌, Option-cases, any, Text, text_eq, text_eq_iff, Map, get, insert,
  contains_key, keys, get-insert, get-remove,
}
use rclone_vfsmount_tray.Core.Ipc.{MountView, TransferView, TransferView-discrete}
use rclone_vfsmount_tray.Service.Registry.{
  transfer_changed, Registry, Sweeping, observe_one, observe_all, forget_one, forget_missing,
  observe_mounts, observe_transfer, pollable_view,
}

-- The last row of a sweep with this name.
abbrev pub last_named : List MountView → Text → Option MountView
last_named [] k = none
last_named (v ∷ vs) k = elim (last_named vs k) [
  | some w ↦ some w
  | none ↦ if text_eq v.name k then some v else none
]

abbrev or_else {ℓ} : {A : Type ℓ} → Option A → Option A → Option A
or_else none o = o
or_else (some a) o = some a

pub observe_one-seen :
    (mounts : Map MountView) (s : Sweeping) (v : MountView) (k : Text)
    → get (observe_one mounts s v).seen k ≡ (if text_eq v.name k then some v else get s.seen k)
unfolding observe_one
observe_one-seen mounts s v k = get-insert s.seen v.name v k

pub observe_all-seen :
    (mounts : Map MountView) (s : Sweeping) (found : List MountView) (k : Text)
    → get (observe_all mounts s found).seen k ≡ or_else (last_named found k) (get s.seen k)
unfolding observe_all
observe_all-seen mounts s [] k = refl
observe_all-seen mounts s (v ∷ vs) k =
    ground
      (arith, observe_all-seen mounts (observe_one mounts s v) vs k, observe_one-seen mounts s v k)

pub forget_one-seen : (s : Sweeping) (n : Text) → (forget_one s n).seen ≡ s.seen
unfolding forget_one
forget_one-seen s n = ground arith

pub forget_missing-seen :
    (names : List Text) (s : Sweeping) → (forget_missing names s).seen ≡ s.seen
unfolding forget_missing
forget_missing-seen [] s = refl
forget_missing-seen (n ∷ ns) s = forget_missing-seen ns (forget_one s n) ∙ forget_one-seen s n

-- What a sweep starts from.
abbrev pub start_of : Registry → Sweeping
start_of r = record { transfers = r.transfers; changes = []; seen = [] }

-- After a sweep the registry has exactly the mounts that the sweep found: under each name the last
-- row that the sweep has for it, and nothing under a name that the sweep does not have.
pub observe_mounts-mounts :
    (r : Registry) (found : List MountView) (k : Text)
    → get (observe_mounts r found).0.mounts k ≡ last_named found k
unfolding observe_mounts get
observe_mounts-mounts r found k = ground (
  arith,
  forget_missing-seen (keys r.mounts) (observe_all r.mounts (start_of r) found),
  observe_all-seen r.mounts (start_of r) found k,
)

-- Whether the sweep has a row of this name that is not worth polling.
abbrev pub has_unpollable : List MountView → Text → Bool
has_unpollable found k = any (λ v. text_eq v.name k && not (pollable_view v)) found

observe_one-transfers :
    (mounts : Map MountView) (s : Sweeping) (v : MountView) (k : Text)
    → get (observe_one mounts s v).transfers k
      ≡ (if text_eq v.name k && not (pollable_view v) then none else get s.transfers k)
unfolding observe_one
observe_one-transfers mounts s v k = ground (arith, get-remove s.transfers v.name k)

pub observe_all-transfers :
    (mounts : Map MountView) (s : Sweeping) (found : List MountView) (k : Text)
    → get (observe_all mounts s found).transfers k
      ≡ (if has_unpollable found k then none else get s.transfers k)
unfolding observe_all
observe_all-transfers mounts s [] k = refl
observe_all-transfers mounts s (v ∷ vs) k = ground (
  arith,
  observe_all-transfers mounts (observe_one mounts s v) vs k,
  observe_one-transfers mounts s v k,
)

forget_one-transfers :
    (s : Sweeping) (n k : Text)
    → get (forget_one s n).transfers k
      ≡ (if text_eq n k && not (contains_key s.seen n) then none else get s.transfers k)
unfolding forget_one
forget_one-transfers s n k = ground (arith, get-remove s.transfers n k)

-- Whether a name is among these, and the sweep did not find it.
abbrev pub is_missing : List Text → Map MountView → Text → Bool
is_missing names seen k = any (λ n. text_eq n k && not (contains_key seen n)) names

pub forget_missing-transfers :
    (names : List Text) (s : Sweeping) (k : Text)
    → get (forget_missing names s).transfers k
      ≡ (if is_missing names s.seen k then none else get s.transfers k)
unfolding forget_missing
forget_missing-transfers [] s k = refl
forget_missing-transfers (n ∷ ns) s k = ground (
  arith,
  forget_missing-transfers ns (forget_one s n) k,
  forget_one-transfers s n k,
  forget_one-seen s n,
)

-- Every reading that is held is of a mount that is held and worth polling.
abbrev pub Kept : Registry → Type 0
Kept r =
    (k : Text) (t : TransferView)
    → get r.transfers k ≡ some t
    → (v : MountView) × (get r.mounts k ≡ some v) × (pollable_view v ≡ true)

pub get-mem_keys :
    (m : Map MountView) (seen : Map MountView) (k : Text) {v : MountView}
    → get m k ≡ some v
    → get seen k ≡ none
    → is_missing (keys m) seen k ≡ true
unfolding get keys contains_key
get-mem_keys [] seen k h n = cc
get-mem_keys ((j, w) ∷ m) seen k {v} h n =
    ground (arith, text_eq_iff j k, get-mem_keys m seen k {v = v})

last_named-pollable :
    (found : List MountView) (k : Text) {v : MountView}
    → last_named found k ≡ some v
    → has_unpollable found k ≡ false
    → pollable_view v ≡ true
last_named-pollable [] k h u = cc
last_named-pollable (w ∷ vs) k {v} h u = ground (arith, last_named-pollable vs k {v = v})

kept_reading :
    (r : Registry) (found : List MountView) (k : Text) (t : TransferView)
    → get (observe_mounts r found).0.transfers k ≡ some t
    → (get r.transfers k ≡ some t)
      × (has_unpollable found k ≡ false)
      × (is_missing (keys r.mounts) (observe_mounts r found).0.mounts k ≡ false)
unfolding observe_mounts
kept_reading r found k t h = ground (
  arith,
  forget_missing-seen (keys r.mounts) (observe_all r.mounts (start_of r) found),
  forget_missing-transfers (keys r.mounts) (observe_all r.mounts (start_of r) found) k,
  observe_all-transfers r.mounts (start_of r) found k,
)

-- If every reading held is of a mount that is held and serving as one of ours, then so it is after a
-- sweep, whatever the sweep found: no figure outlives the mount that it was read from.
pub observe_mounts-Kept :
    (r : Registry) (found : List MountView) → Kept r → Kept (observe_mounts r found).0
observe_mounts-Kept r found inv k t h = elim (Option-cases (last_named found k)) [
  | inl gone ↦
      let (v, old, _) = inv k t (kept_reading r found k t h).0 in
      let now = observe_mounts-mounts r found k in
      absurd (
        ground (
          arith,
          kept_reading r found k t h,
          get-mem_keys r.mounts (observe_mounts r found).0.mounts k {v = v},
        ))
  | inr (v, e) ↦ (
    v,
    observe_mounts-mounts r found k ∙ e,
    last_named-pollable found k e (kept_reading r found k t h).1,
  )
]

observe_transfer-mounts :
    (r : Registry) (t : TransferView) → (observe_transfer r t).0.mounts ≡ r.mounts
unfolding observe_transfer
observe_transfer-mounts r t = ground arith

Option-discrete : Discrete (Option TransferView)
Option-discrete = hlevel TransferView-discrete

observe_same :
    (r : Registry) (t : TransferView)
    → get r.transfers t.mount ≡ some t
    → observe_transfer r t ≡ (r, none)
unfolding observe_transfer
observe_same r t e = elim (TransferView-discrete t t) [
  | yes p ↦ ground arith
  | no n ↦ absurd (n refl)
]

observe_new :
    (r : Registry) (t : TransferView)
    → get r.transfers t.mount ≢ some t
    → observe_transfer r t
      ≡ (record r { transfers = insert r.transfers t.mount t }, some (transfer_changed t))
unfolding observe_transfer
observe_new r t n = elim (Option-cases (get r.transfers t.mount)) [
  | inl e ↦ ground arith
  | inr (old, e) ↦ elim (TransferView-discrete old t) [
    | yes p ↦ absurd (n (e ∙ ap some p))
    | no q ↦ ground arith
  ]
]

-- Recording a reading makes it the one held for its mount and leaves every other reading and all
-- mounts alone. A reading that is already held is not published again and any other one is.
pub observe_transfer_lem :
    (r : Registry) (t : TransferView) (k : Text)
    → (get (observe_transfer r t).0.transfers k
        ≡ (if text_eq t.mount k then some t else get r.transfers k))
      × ((observe_transfer r t).0.mounts ≡ r.mounts)
      × (get r.transfers t.mount ≡ some t → (observe_transfer r t).1 ≡ none)
      × (get r.transfers t.mount ≢ some t → (observe_transfer r t).1 ≡ some (transfer_changed t))
observe_transfer_lem r t k = (
  elim (Option-discrete (get r.transfers t.mount) (some t)) [
    | yes e ↦ rw (observe_same r t e) (ground (arith, text_eq_iff t.mount k))
    | no n ↦ rw (observe_new r t n) (get-insert r.transfers t.mount t k)
  ],
  observe_transfer-mounts r t,
  λ e. cc (observe_same r t e),
  λ n. cc (observe_new r t n),
)
