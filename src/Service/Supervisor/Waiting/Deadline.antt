-- ===== src/Service/Supervisor/Waiting/Deadline.antt =====
-- crates/service/src/supervisor.rs: the waiting loops end.
use rclone_vfsmount_tray.Prelude.{
  ℕ, zero, suc, ◌+◌, ◌*◌, ◌/◌, ◌≤◌, ◌<◌, inl, inr, Bool, true, false, not, none, some, [], ◌∷◌,
  arith, leb, if◌then◌else◌, Bool-cases, Text,
}
use rclone_vfsmount_tray.Core.Message.{did_not_start, shutting_down}
use rclone_vfsmount_tray.Core.Config.{Mount, unit_name}
use rclone_vfsmount_tray.Core.Mountinfo.{parse, is_mounted_at}
use rclone_vfsmount_tray.Core.Supervisor.{supervision, rclone_failed}
use rclone_vfsmount_tray.Service.Units.{UnitStatus}
use rclone_vfsmount_tray.Service.Host.{
  Reply, done, fault, Host, saw, Outcome, ok, err, stuck, Run, M, carry_on, fail,
}
use rclone_vfsmount_tray.Service.Supervisor.{
  Settings, poll_interval, live_mounts, mounted_at, resolved, resolved_point, status_of, start,
}
use rclone_vfsmount_tray.Service.Supervisor.Waiting.{
  gone_by, await_gone, is_over, unit_gone_by, await_unit_gone, is_failed, ready_by, await_ready,
  failure_reason,
}

-- What the loops rely on: the clock is monotonic, and a sleep takes the time that was asked for.
pub record IsMonotonic (h : Host) : Type 0 where
  pub slept : (d : ℕ) (w : h.World) → h.clock w + d ≤ h.clock (h.sleep d w)
  pub read : (w : h.World) → h.clock w ≤ h.clock (h.read_mountinfo w).1
  pub asked : (u : Text) (w : h.World) → h.clock w ≤ h.clock (h.unit_status u w).1
  pub looked : (p : Text) (w : h.World) → h.clock w ≤ h.clock (h.canonicalize p w).1

abbrev pub Ends : {A : Type 0} → Outcome A → Type 0
Ends (ok a) = Unit {0}
Ends (err e) = Unit {0}
Ends stuck = ⊥

if_Ends :
    {W A : Type 0} (b : Bool) (x y : Outcome A × Run W)
    → Ends x.0
    → Ends y.0
    → Ends (if b then x else y).0
if_Ends true x y p q = p
if_Ends false x y p q = q

module _ (h : Host) (law : IsMonotonic h) where
  open h use {World}
  open law use {slept, read, asked, looked}

  -- What a later round is left with, after a round that began at `start`.
  abbrev LaterEnds : {A : Type 0} → ℕ → ℕ → M World A → Type 0
  LaterEnds deadline start rest =
      (r : Run World) → start ≤ h.clock r.world → h.clock r.world < deadline → Ends (rest r).0

  gone_round :
      (point : Text) (deadline : ℕ) (rest : M World Bool) (s : Run World)
      → LaterEnds deadline (h.clock s.world) rest
      → let q : Outcome Bool × Run World = carry_on (mounted_at h point s) (λ live r.
        if not live
        then (ok true, r)
        else if leb deadline (h.clock r.world)
        then (ok false, r)
        else rest r) in
        Ends q.0
  unfolding mounted_at live_mounts
  gone_round point deadline rest s later = ground (
    arith,
    read s.world,
    later
        (record {
          world = (h.read_mountinfo s.world).1;
          trace =
              saw point (
                is_mounted_at (elim (h.read_mountinfo s.world).0 [ none ↦ [] | some t ↦ parse t ])
                  point)
              ∷ s.trace;
        })
        (read s.world),
  )

  gone_by-Ends :
      (n : ℕ) (point : Text) (deadline : ℕ) (s : Run World)
      → deadline ≤ h.clock s.world + n * 250
      → Ends (gone_by h (suc n) point deadline s).0
  unfolding gone_by
  gone_by-Ends zero point deadline s l = gone_round point deadline _ s (λ r a b. ground (arith, l))
  gone_by-Ends (suc n) point deadline s l =
      gone_round point deadline
        (λ r. gone_by h (suc n) point deadline (record r { world = h.sleep poll_interval r.world }))
        s (λ r a b. gone_by-Ends n point deadline _ (omega (arith, slept poll_interval r.world)))

  unit_round :
      (unit : Text) (timeout deadline : ℕ) (rest : M World (Unit {0})) (s : Run World)
      → LaterEnds deadline (h.clock s.world) rest
      → let q : Outcome (Unit {0}) × Run World = carry_on (status_of h unit s) (λ status r.
        if is_over status
        then (ok tt, r)
        else if leb deadline (h.clock r.world)
        then (err (supervision (shutting_down unit (timeout / 1000)) none), r)
        else rest r) in
        Ends q.0
  unfolding status_of
  unit_round unit timeout deadline rest s later = ground (
    arith,
    asked unit s.world,
    later (record { world = (h.unit_status unit s.world).1; trace = s.trace }) (asked unit s.world),
  )

  unit_gone_by-Ends :
      (n : ℕ) (unit : Text) (timeout deadline : ℕ) (s : Run World)
      → deadline ≤ h.clock s.world + n * 250
      → Ends (unit_gone_by h (suc n) unit timeout deadline s).0
  unfolding unit_gone_by
  unit_gone_by-Ends zero unit timeout deadline s l =
      unit_round unit timeout deadline _ s (λ r a b. ground (arith, l))
  unit_gone_by-Ends (suc n) unit timeout deadline s l =
      unit_round unit timeout deadline
        (λ r.
          unit_gone_by h (suc n) unit timeout deadline
            (record r { world = h.sleep poll_interval r.world }))
        s
        (λ r a b.
          unit_gone_by-Ends n unit timeout deadline _ (omega (arith, slept poll_interval r.world)))

  -- What a round of `await_ready` does once the unit's status is known.
  status_round :
      (c : Settings) (m : Mount) (deadline : ℕ) (rest : M World (Unit {0})) (status : UnitStatus)
      → (q : Run World) → (h.clock q.world < deadline → Ends (rest q).0)
      → let o : Outcome (Unit {0}) × Run World =
          if is_failed status
          then carry_on (failure_reason h c (unit_name m) q) (λ why. fail (rclone_failed why))
          else if leb deadline (h.clock q.world)
          then carry_on (failure_reason h c (unit_name m) q) (λ why.
            fail (rclone_failed (did_not_start m.mount_point (c.ready_timeout / 1000) why)))
          else rest q in
        Ends o.0
  unfolding failure_reason
  status_round c m deadline rest status q later = elim (Bool-cases (is_failed status)) [
    | inl e ↦ ground arith
    | inr e ↦ ground (arith, later)
  ]

  after_status :
      (unit : Text) (f : UnitStatus → M World (Unit {0})) (r : Run World)
      → ((status : UnitStatus) (q : Run World)
          → h.clock r.world ≤ h.clock q.world
          → Ends (f status q).0)
      → Ends (carry_on (status_of h unit r) f).0
  unfolding status_of
  after_status unit f r each =
      answered (h.unit_status unit r.world) (λ status. each status _ (asked unit r.world))
    where
      answered :
          (a : Reply UnitStatus × World)
          → ((status : UnitStatus) → Ends (f status (record r { world = a.1 })).0)
          → let o : Outcome UnitStatus × Run World = elim a.0 [
            | done b ↦ (ok b, record r { world = a.1 })
            | fault e ↦ (err e, record r { world = a.1 })
          ] in
            Ends (carry_on o f).0
      answered (done b, w) each = each b
      answered (fault e, w) each = tt

  after_look :
      (point : Text) (f : Bool → M World (Unit {0})) (s : Run World)
      → ((live : Bool) (r : Run World) → h.clock s.world ≤ h.clock r.world → Ends (f live r).0)
      → Ends (carry_on (mounted_at h point s) f).0
  unfolding mounted_at live_mounts
  after_look point f s each = each _ _ (read s.world)

  ready_round :
      (c : Settings) (m : Mount) (point : Text) (deadline : ℕ) (rest : M World (Unit {0}))
      (s : Run World)
      → LaterEnds deadline (h.clock s.world) rest
      → let o : Outcome (Unit {0}) × Run World = carry_on (mounted_at h point s) (λ live r.
        if live
        then (ok tt, r)
        else carry_on (status_of h (unit_name m) r) (λ status q.
          if is_failed status
          then carry_on (failure_reason h c (unit_name m) q) (λ why. fail (rclone_failed why))
          else if leb deadline (h.clock q.world)
          then carry_on (failure_reason h c (unit_name m) q) (λ why.
            fail (rclone_failed (did_not_start m.mount_point (c.ready_timeout / 1000) why)))
          else rest q)) in
        Ends o.0
  ready_round c m point deadline rest s later = after_look point _ s (λ live r a.
      if_Ends live (ok tt, r) _ tt
        (after_status (unit_name m) _ r
          (λ status q b. status_round c m deadline rest status q (later q (omega arith)))))

  ready_by-Ends :
      (n : ℕ) (c : Settings) (m : Mount) (point : Text) (deadline : ℕ) (s : Run World)
      → deadline ≤ h.clock s.world + n * 250
      → Ends (ready_by h (suc n) c m point deadline s).0
  unfolding ready_by
  ready_by-Ends zero c m point deadline s l =
      ready_round c m point deadline _ s (λ r a b. ground (arith, l))
  ready_by-Ends (suc n) c m point deadline s l =
      ready_round c m point deadline
        (λ r.
          ready_by h (suc n) c m point deadline
            (record r { world = h.sleep poll_interval r.world }))
        s
        (λ r a b. ready_by-Ends n c m point deadline _ (omega (arith, slept poll_interval r.world)))

-- On a monotonic clock whose sleeps take the time that was asked for, every wait ends: for a mount
-- point to go, for a unit to be over and for a mount to come up, within the rounds that fit before
-- its deadline and two.
pub waits_end :
    (h : Host)
    → IsMonotonic h
    → (c : Settings) (m : Mount) (point : Text) (timeout : ℕ) (s : Run h.World)
    → Ends (await_gone h point timeout s).0
      × Ends (await_unit_gone h point timeout s).0
      × Ends (await_ready h c m s).0
unfolding await_gone await_unit_gone await_ready resolved_point resolved
waits_end h law c m point timeout s = (
  gone_by-Ends h law (suc (timeout / 250)) point _ s (omega arith),
  unit_gone_by-Ends h law (suc (timeout / 250)) point timeout _ s (omega arith),
  ready_by-Ends h law (suc (c.ready_timeout / 250)) c m _ _ _
      (omega (arith, law.looked m.mount_point s.world)),
)
