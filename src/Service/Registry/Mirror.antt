-- ===== src/Service/Registry/Mirror.antt =====
-- crates/service/src/registry.rs: a client that applies the changes it is told of stays in step.
use rclone_vfsmount_tray.Prelude.{
  ◌≡◌, refl, ◌⊎◌, inl, inr, true, false, not, ◌&&◌, Option, none, some, List, [], ◌∷◌, ◌++◌, arith,
  if◌then◌else◌, Option-cases, is_some, Text, text_eq, text_eq_iff, Map, get, insert, remove,
  contains_key, keys, get-insert, get-remove,
}
use rclone_vfsmount_tray.Core.Ipc.{MountView, TransferView, MountView-discrete}
use rclone_vfsmount_tray.Service.Registry.{
  Change, mount_changed, removed, transfer_changed, capability_tier, Registry, Sweeping, differs,
  observe_one, observe_all, forget_one, forget_missing, observe_mounts, nothing_to_say,
}
use rclone_vfsmount_tray.Service.Registry.Sweep.{
  start_of, observe_one-seen, forget_one-seen, forget_missing-seen, is_missing, get-mem_keys,
}

-- What a client keeps of the service's mounts and readings.
pub record Client : Type 0 where
  pub mounts : Map MountView
  pub transfers : Map TransferView

-- What a client does with a change.
abbrev pub apply : Client → Change → Client
apply c (mount_changed v) = record c { mounts = insert c.mounts v.name v }
apply c (removed name) = record {
  mounts = remove c.mounts name;
  transfers = remove c.transfers name;
}
apply c (transfer_changed t) = record c { transfers = insert c.transfers t.mount t }
apply c capability_tier = c

abbrev pub apply_all : Client → List Change → Client
apply_all c [] = c
apply_all c (x ∷ xs) = apply_all (apply c x) xs

apply_all-append :
    (c : Client) (xs ys : List Change) → apply_all c (xs ++ ys) ≡ apply_all (apply_all c xs) ys
apply_all-append c [] ys = refl
apply_all-append c (x ∷ xs) ys = apply_all-append (apply c x) xs ys

-- The mounts as a client has them in the course of a sweep: those seen so far, else the old ones.
abbrev blend : Map MountView → Map MountView → Text → Option MountView
blend seen old k = elim (get seen k) [ some v ↦ some v | none ↦ get old k ]

-- Two rows of a sweep that have one name are one row.
abbrev pub Agrees : Map MountView → List MountView → Type 0
Agrees seen [] = Unit {0}
Agrees seen (v ∷ vs) =
    ((get seen v.name ≡ none) ⊎ (get seen v.name ≡ some v)) × Agrees (insert seen v.name v) vs

not_differs :
    (old : Map MountView) (v : MountView) → differs old v ≡ false → get old v.name ≡ some v
unfolding differs
not_differs old v h = elim (Option-cases (get old v.name)) [
  | inl e ↦ ground arith
  | inr (w, e) ↦ elim (MountView-discrete w v) [ yes p ↦ cc | no n ↦ ground arith ]
]

-- The client after one round of the first loop.
observe_one-client :
    (old : Map MountView) (s : Sweeping) (v : MountView) (c : Client) (k : Text)
    → get (apply_all c (observe_one old s v).changes).mounts k
      ≡ (if differs old v && text_eq v.name k then some v else get (apply_all c s.changes).mounts k)
unfolding observe_one
observe_one-client old s v c k = ground (
  arith,
  apply_all-append c s.changes (transfer_changed (nothing_to_say v) ∷ []),
  apply_all-append c s.changes (mount_changed v ∷ []),
  apply_all-append c (s.changes ++ transfer_changed (nothing_to_say v) ∷ []) (mount_changed v ∷ []),
  get-insert (apply_all c s.changes).mounts v.name v k,
)

-- The client has the mounts seen so far, and the old ones under the names not yet seen.
abbrev InStep : Map MountView → Client → Sweeping → Type 0
InStep old c s = (k : Text) → get (apply_all c s.changes).mounts k ≡ blend s.seen old k

observe_one-InStep :
    (old : Map MountView) (c : Client) (s : Sweeping) (v : MountView)
    → (get s.seen v.name ≡ none) ⊎ (get s.seen v.name ≡ some v)
    → InStep old c s
    → InStep old c (observe_one old s v)
observe_one-InStep old c s v a h k = ground (
  arith,
  h k,
  observe_one-client old s v c k,
  observe_one-seen old s v k,
  not_differs old v,
  text_eq_iff v.name k,
)

observe_all-InStep :
    (old : Map MountView) (c : Client) (s : Sweeping) (found : List MountView)
    → Agrees s.seen found
    → InStep old c s
    → InStep old c (observe_all old s found)
unfolding observe_all observe_one
observe_all-InStep old c s [] a h = h
observe_all-InStep old c s (v ∷ vs) a h =
    observe_all-InStep old c (observe_one old s v) vs a.1 (observe_one-InStep old c s v a.0 h)

forget_one-client :
    (s : Sweeping) (n : Text) (c : Client) (k : Text)
    → get (apply_all c (forget_one s n).changes).mounts k ≡ (
        if text_eq n k && not (contains_key s.seen n)
        then none
        else get (apply_all c s.changes).mounts k)
unfolding forget_one
forget_one-client s n c k = ground (
  arith,
  apply_all-append c s.changes (removed n ∷ []),
  get-remove (apply_all c s.changes).mounts n k,
)

forget_missing-client :
    (names : List Text) (s : Sweeping) (c : Client) (k : Text)
    → get (apply_all c (forget_missing names s).changes).mounts k
      ≡ (if is_missing names s.seen k then none else get (apply_all c s.changes).mounts k)
unfolding forget_missing
forget_missing-client [] s c k = refl
forget_missing-client (n ∷ ns) s c k = ground (
  arith,
  forget_missing-client ns (forget_one s n) c k,
  forget_one-client s n c k,
  forget_one-seen s n,
)

is_missing_unseen :
    (names : List Text) (seen : Map MountView) (k : Text)
    → is_missing names seen k ≡ true
    → get seen k ≡ none
unfolding contains_key
is_missing_unseen [] seen k h = cc
is_missing_unseen (n ∷ ns) seen k h =
    ground (arith, text_eq_iff n k, is_missing_unseen ns seen k, Option-cases (get seen k))

unmissing :
    (old seen : Map MountView) (k : Text)
    → is_missing (keys old) seen k ≡ false
    → (get old k ≡ none) ⊎ (is_some (get seen k) ≡ true)
unmissing old seen k h = elim (Option-cases (get old k)) [
  | inl e ↦ inl e
  | inr (v, e) ↦ elim (Option-cases (get seen k)) [
    | inl n ↦ absurd (ground (arith, get-mem_keys old seen k {v = v} e n))
    | inr (w, f) ↦ inr (rw f)
  ]
]

InStep-at_start :
    (r : Registry) (c : Client)
    → ((k : Text) → get c.mounts k ≡ get r.mounts k)
    → InStep r.mounts c (start_of r)
unfolding get
InStep-at_start r c same = same

-- A client that holds the mounts that the registry holds, and applies the changes that a sweep
-- publishes, in their order, holds the mounts that the registry holds after the sweep. Rows of the
-- sweep that share a name must be equal.
pub observe_mounts-mirror :
    (r : Registry) (found : List MountView) (c : Client)
    → Agrees [] found
    → ((k : Text) → get c.mounts k ≡ get r.mounts k)
    → (k : Text)
    → get (apply_all c (observe_mounts r found).1).mounts k
      ≡ get (observe_mounts r found).0.mounts k
unfolding observe_mounts
observe_mounts-mirror r found c a same k =
    let s = observe_all r.mounts (start_of r) found in
    let seen = observe_all-InStep r.mounts c (start_of r) found a (InStep-at_start r c same) k in
    ground (
      arith,
      seen,
      forget_missing-client (keys r.mounts) s c k,
      forget_missing-seen (keys r.mounts) s,
      is_missing_unseen (keys r.mounts) s.seen k,
      unmissing r.mounts s.seen k,
    )
