-- ===== src/Service/Supervisor/Unmounting/Order.antt =====
-- crates/service/src/supervisor.rs: what a stage of `unmount` may do, given what was done before it.
use rclone_vfsmount_tray.Prelude.{◌≡◌, Bool, true, false, ◌||◌, List, [], ◌∷◌, Text, text_eq}
use rclone_vfsmount_tray.Core.Supervisor.{}
use rclone_vfsmount_tray.Service.Host.{
  refuse, detach, Event, saw, released, stopped, started, cleared, locked, forgot_lock, Outcome, ok,
  err, stuck,
}
use rclone_vfsmount_tray.Service.Supervisor.{Target}

-- The kernel gave the point up on being asked without force.
abbrev pub gave_up : Text → List Event → Bool
gave_up point [] = false
gave_up point (released p refuse true ∷ es) = text_eq p point || gave_up point es
gave_up point (e ∷ es) = gave_up point es

-- The mount table was seen without the point.
abbrev pub seen_free : Text → List Event → Bool
seen_free point [] = false
seen_free point (saw p false ∷ es) = text_eq p point || seen_free point es
seen_free point (e ∷ es) = seen_free point es

-- The unit was told to stop.
abbrev pub told_to_stop : Text → List Event → Bool
told_to_stop unit [] = false
told_to_stop unit (stopped u ∷ es) = text_eq u unit || told_to_stop unit es
told_to_stop unit (e ∷ es) = told_to_stop unit es

-- What an unmount of a target may do, after what it did before, the latest first.
abbrev pub Allowed : Target → Bool → List Event → Event → Type 0
Allowed t force es (saw p b) = Unit {0}
Allowed t force es (released p refuse b) = p ≡ t.point
Allowed t force es (released p detach b) =
    (p ≡ t.point) × (force ≡ true) × (told_to_stop t.unit es ≡ true)
Allowed t force es (stopped u) =
    (u ≡ t.unit) × ((gave_up t.point es || seen_free t.point es || force) ≡ true)
Allowed t force es (started u) = ⊥
Allowed t force es (cleared u) = (u ≡ t.unit) × (seen_free t.point es ≡ true)
Allowed t force es (locked n) = Unit {0}
Allowed t force es (forgot_lock n) = Unit {0}

abbrev pub Lawful : Target → Bool → List Event → Type 0
Lawful t force [] = Unit {0}
Lawful t force (e ∷ es) = Allowed t force es e × Lawful t force es

-- Facts of the past that a stage may rest on.
pub record Known : Type 0 where
  pub may_stop : Bool
  pub free : Bool
  pub told : Bool

abbrev pub nothing_known : Known
nothing_known = record { may_stop = false; free = false; told = false }

abbrev pub Has : Target → Bool → Known → List Event → Type 0
Has t force k es =
    Lawful t force es
    × (k.may_stop ≡ true → (gave_up t.point es || seen_free t.point es || force) ≡ true)
    × (k.free ≡ true → seen_free t.point es ≡ true)
    × (k.told ≡ true → told_to_stop t.unit es ≡ true)

-- After a failure only the law is known.
abbrev pub Leaves : {A : Type 0} → Target → Bool → (A → Known) → Outcome A → List Event → Type 0
Leaves t force g (ok a) es = Has t force (g a) es
Leaves t force g (err e) es = Has t force nothing_known es
Leaves t force g stuck es = Has t force nothing_known es
