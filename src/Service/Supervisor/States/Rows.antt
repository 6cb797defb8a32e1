-- ===== src/Service/Supervisor/States/Rows.antt =====
-- crates/service/src/supervisor.rs: which rows `reconcile` makes of the orphans and of the mounts of
-- others.
use rclone_vfsmount_tray.Prelude.{
  ◌≡◌, refl, sym, ap, ◌∙◌, subst, ◌↔◌, ◌⊎◌, inl, inr, Bool, true, false, not, ◌&&◌, some, List, [],
  ◌∷◌, ◌++◌, arith, if◌then◌else◌, any, Text, text_eq,
}
use mathlib.Core.List.{Memᴰ}
use mathlib.Core.List.Memᴰ
use rclone_vfsmount_tray.Core.Config.{Mount, unit_name}
use rclone_vfsmount_tray.Core.Mountinfo.{path_eq, MountEntry, is_rclone}
use rclone_vfsmount_tray.Core.Supervisor.{DiscoveredMount, foreign, orphaned}
use rclone_vfsmount_tray.Service.Supervisor.{Target}
use rclone_vfsmount_tray.Service.Supervisor.States.{foreign_rows, orphan_rows}

abbrev pub is_claimed : List Text → Text → Bool
is_claimed claimed p = any (λ q. path_eq q p) claimed

abbrev pub is_named : List Mount → Text → Bool
is_named ms unit = any (λ m. text_eq (unit_name m) unit) ms

-- The row of an rclone mount of somebody else: one that the kernel lists at a point that is not ours.
abbrev pub IsForeignRow : List Text → List MountEntry → DiscoveredMount → Type 0
IsForeignRow claimed live d =
    (e : MountEntry) × Memᴰ e live
    × (is_rclone e ≡ true)
    × (is_claimed claimed e.mount_point ≡ false)
    × (d ≡ record { name = e.mount_point; state = foreign; mount_point = some e.mount_point })

-- The row of a unit of ours that no entry of the configuration names.
abbrev pub IsOrphanRow : List Mount → List Target → DiscoveredMount → Type 0
IsOrphanRow ms found d =
    (o : Target) × Memᴰ o found
    × (is_named ms o.unit ≡ false)
    × (d ≡ record { name = o.name; state = orphaned; mount_point = some o.point })

-- What is in a list that a test chose.
in_chosen {ℓ} :
    {A : Type ℓ} (b : Bool) (d : A) (xs ys : List A)
    → Memᴰ d (if b then xs else ys)
    → ((b ≡ true) × Memᴰ d xs) ⊎ ((b ≡ false) × Memᴰ d ys)
in_chosen true d xs ys m = inl (refl, m)
in_chosen false d xs ys m = inr (refl, m)

chosen {ℓ} :
    {A : Type ℓ} (b c : Bool) (d : A) (xs ys : List A)
    → b ≡ c
    → Memᴰ d (if c then xs else ys)
    → Memᴰ d (if b then xs else ys)
chosen b c d xs ys e m = subst (λ x. Memᴰ d (if x then xs else ys)) (sym e) m

foreign_rows-only :
    (claimed : List Text) (es : List MountEntry) (d : DiscoveredMount)
    → Memᴰ d (foreign_rows claimed es)
    → IsForeignRow claimed es d
unfolding foreign_rows
foreign_rows-only claimed [] d m = absurd (Memᴰ.not-nil m)
foreign_rows-only claimed (e ∷ es) d m =
    let more : IsForeignRow claimed es d → IsForeignRow claimed (e ∷ es) d =
      λ (f, among, k, l, row). (f, Memᴰ.tail among, k, l, row) in
    elim (in_chosen (is_rclone e && not (is_claimed claimed e.mount_point)) d _ _ m) [
      | inl (b, n) ↦ elim (Memᴰ.cases_cons n) [
        | inl same ↦ (e, Memᴰ.head refl, ground (arith, b), ground (arith, b), same)
        | inr k ↦ more (foreign_rows-only claimed es d k)
      ]
      | inr (b, n) ↦ more (foreign_rows-only claimed es d n)
    ]

-- A row is not lost by the rows before it.
keeps_row {ℓ} :
    {A : Type ℓ} (b : Bool) (d x : A) (xs : List A) → Memᴰ d xs → Memᴰ d (if b then x ∷ xs else xs)
keeps_row true d x xs m = Memᴰ.tail m
keeps_row false d x xs m = m

foreign_rows-all :
    (claimed : List Text) (es : List MountEntry) (d : DiscoveredMount)
    → IsForeignRow claimed es d
    → Memᴰ d (foreign_rows claimed es)
unfolding foreign_rows
foreign_rows-all claimed [] d (f, among, k, l, row) = absurd (Memᴰ.not-nil among)
foreign_rows-all claimed (e ∷ es) d (f, among, of_rclone, free, row) =
    elim (Memᴰ.cases_cons among) [
      | inl same ↦
          chosen (is_rclone e && not (is_claimed claimed e.mount_point)) true d _ _
            (cc
              (ap is_rclone same, ap (λ x. is_claimed claimed x.mount_point) same, of_rclone, free))
            (Memᴰ.head (
              row
              ∙ ap
                  (λ x. record {
                    name = x.mount_point;
                    state = foreign;
                    mount_point = some x.mount_point;
                  })
                  same))
      | inr k ↦ keeps_row _ d _ _ (foreign_rows-all claimed es d (f, k, of_rclone, free, row))
    ]

orphan_rows-only :
    (ms : List Mount) (os : List Target) (d : DiscoveredMount)
    → Memᴰ d (orphan_rows ms os)
    → IsOrphanRow ms os d
unfolding orphan_rows
orphan_rows-only ms [] d m = absurd (Memᴰ.not-nil m)
orphan_rows-only ms (o ∷ os) d m =
    let more : IsOrphanRow ms os d → IsOrphanRow ms (o ∷ os) d =
      λ (f, among, k, row). (f, Memᴰ.tail among, k, row) in
    elim (in_chosen (is_named ms o.unit) d _ _ m) [
      | inl (b, n) ↦ more (orphan_rows-only ms os d n)
      | inr (b, n) ↦ elim (Memᴰ.cases_cons n) [
        | inl same ↦ (o, Memᴰ.head refl, b, same)
        | inr k ↦ more (orphan_rows-only ms os d k)
      ]
    ]

passes_row {ℓ} :
    {A : Type ℓ} (b : Bool) (d x : A) (xs : List A) → Memᴰ d xs → Memᴰ d (if b then xs else x ∷ xs)
passes_row true d x xs m = m
passes_row false d x xs m = Memᴰ.tail m

orphan_rows-all :
    (ms : List Mount) (os : List Target) (d : DiscoveredMount)
    → IsOrphanRow ms os d
    → Memᴰ d (orphan_rows ms os)
unfolding orphan_rows
orphan_rows-all ms [] d (f, among, k, row) = absurd (Memᴰ.not-nil among)
orphan_rows-all ms (o ∷ os) d (f, among, unnamed, row) = elim (Memᴰ.cases_cons among) [
  | inl same ↦
      chosen (is_named ms o.unit) false d _ _ (sym (ap (λ x. is_named ms x.unit) same) ∙ unnamed) (
        Memᴰ.head (
          row
          ∙ ap (λ x. record { name = x.name; state = orphaned; mount_point = some x.point }) same))
  | inr k ↦ passes_row _ d _ _ (orphan_rows-all ms os d (f, k, unnamed, row))
]

-- The rows after those of the configuration.
pub other_rows-exactly :
    (ms : List Mount) (found : List Target) (claimed : List Text) (live : List MountEntry)
    (d : DiscoveredMount)
    → Memᴰ d (orphan_rows ms found ++ foreign_rows claimed live)
      ↔ (IsOrphanRow ms found d ⊎ IsForeignRow claimed live d)
other_rows-exactly ms found claimed live d = (
  λ m. elim (Memᴰ.append_cases (orphan_rows ms found) m) [
    | inl k ↦ inl (orphan_rows-only ms found d k)
    | inr k ↦ inr (foreign_rows-only claimed live d k)
  ],
  λ k. elim k [
    | inl o ↦ Memᴰ.append_left (foreign_rows claimed live) (orphan_rows-all ms found d o)
    | inr f ↦ Memᴰ.append_right (orphan_rows ms found) (foreign_rows-all claimed live d f)
  ],
)
