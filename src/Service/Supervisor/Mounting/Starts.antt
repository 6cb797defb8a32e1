-- ===== src/Service/Supervisor/Mounting/Starts.antt =====
-- crates/service/src/supervisor.rs: what a mount may do, and that waiting for it keeps to that.
use rclone_vfsmount_tray.Prelude.{
  ℕ, zero, suc, ◌/◌, ◌≡◌, refl, Bool, true, false, ◌||◌, none, List, [], ◌∷◌, arith, leb,
  if◌then◌else◌, Text, text_eq, text_eq_refl,
}
use rclone_vfsmount_tray.Core.Message.{Message, shutting_down}
use rclone_vfsmount_tray.Core.Config.{Mount, unit_name}
use rclone_vfsmount_tray.Core.Supervisor.{SupervisorError, supervision}
use rclone_vfsmount_tray.Service.Host.{
  refuse, detach, Host, Event, saw, released, stopped, started, cleared, locked, forgot_lock, ok,
  err, M, carry_on, fail,
}
use rclone_vfsmount_tray.Service.Supervisor.{
  Settings, poll_interval, live_mounts, mounted_at, resolved_point, status_of,
}
use rclone_vfsmount_tray.Service.Host.Steps.{
  Quiet, bind_Quiet, Step, bind_Step, quiet_Step, carry_on-Post, if_trace, if_Post,
}
use rclone_vfsmount_tray.Service.Supervisor.Waiting.{
  await_unit_gone, unit_gone_by, is_over, await_ready, ready_by, failure_reason, is_failed, rounds,
}
use rclone_vfsmount_tray.Service.Supervisor.Orphans.Unnoted.{resolved_point-Quiet, status_of-Quiet}

-- The mount table was seen with the point.
abbrev pub seen_live : Text → List Event → Bool
seen_live point [] = false
seen_live point (saw p true ∷ es) = text_eq p point || seen_live point es
seen_live point (e ∷ es) = seen_live point es

-- The mount table was seen with a point that was asked for.
abbrev pub seen_mounted : List Event → Bool
seen_mounted [] = false
seen_mounted (saw p true ∷ es) = true
seen_mounted (e ∷ es) = seen_mounted es

abbrev pub was_cleared : Text → List Event → Bool
was_cleared unit [] = false
was_cleared unit (cleared u ∷ es) = text_eq u unit || was_cleared unit es
was_cleared unit (e ∷ es) = was_cleared unit es

-- What a mount may do, after what it did before, the latest first.
abbrev pub MayDo : Mount → List Event → Event → Type 0
MayDo m es (saw p b) = Unit {0}
MayDo m es (released p refuse b) = seen_live p es ≡ true
MayDo m es (released p detach b) = ⊥
MayDo m es (stopped u) = ⊥
MayDo m es (started u) = (u ≡ unit_name m) × (was_cleared u es ≡ true)
MayDo m es (cleared u) = u ≡ unit_name m
MayDo m es (locked n) = n ≡ m.name
MayDo m es (forgot_lock n) = ⊥

abbrev pub Orderly : Mount → List Event → Type 0
Orderly m [] = Unit {0}
Orderly m (e ∷ es) = MayDo m es e × Orderly m es

-- Orderly, and a point that was asked for is up.
abbrev pub Up : Mount → List Event → Type 0
Up m es = Orderly m es × (seen_mounted es ≡ true)

module _ (h : Host) (m : Mount) where
  open h use {World}

  abbrev pub Looked : Text → Bool → List Event → Type 0
  Looked p live es =
      Orderly m es × (live ≡ true → (seen_live p es ≡ true) × (seen_mounted es ≡ true))

  look_lem : (p : Text) (b : Bool) (es : List Event) → Orderly m es → Looked p b (saw p b ∷ es)
  look_lem p true es l = ground (arith, text_eq_refl p)
  look_lem p false es l = ground arith

  pub mounted_at-Step : (p : Text) → Step (Orderly m) (Orderly m) (mounted_at h p) (Looked p)
  unfolding mounted_at live_mounts
  mounted_at-Step p s l = look_lem p _ s.trace l

  failure_reason-Quiet : (c : Settings) (unit : Text) → Quiet (failure_reason h c unit)
  unfolding failure_reason
  failure_reason-Quiet c unit s = refl

  unit_gone_by-Quiet :
      (n : ℕ) (unit : Text) (timeout deadline : ℕ) → Quiet (unit_gone_by h n unit timeout deadline)
  unfolding unit_gone_by
  unit_gone_by-Quiet zero unit timeout deadline = λ s. refl
  unit_gone_by-Quiet (suc n) unit timeout deadline =
      bind_Quiet
        (λ status r.
          if is_over status
          then (ok tt, r)
          else if leb deadline (h.clock r.world)
          then (err (supervision (shutting_down unit (timeout / 1000)) none), r)
          else unit_gone_by h n unit timeout deadline
              (record r { world = h.sleep poll_interval r.world }))
        (status_of h unit) (status_of-Quiet h unit)
        (λ status r. if_trace (is_over status) _ _ refl (
          if_trace (leb deadline (h.clock r.world)) _ _ refl
            (unit_gone_by-Quiet n unit timeout deadline _)))

  pub await_unit_gone-Quiet : (unit : Text) (timeout : ℕ) → Quiet (await_unit_gone h unit timeout)
  unfolding await_unit_gone
  await_unit_gone-Quiet unit timeout s = unit_gone_by-Quiet (rounds timeout) unit timeout _ s

  -- A step that notes nothing keeps the order.
  pub kept :
      {A : Type 0} (f : M World A) → Quiet f → Step (Orderly m) (Orderly m) f (λ _. Orderly m)
  kept f q = quiet_Step (Orderly m) (Orderly m) f (λ fs p. p) q

  failing :
      (c : Settings) (unit : Text) (f : Message → SupervisorError)
      → Step
          (Orderly m)
          (Orderly m)
          (λ q. carry_on (failure_reason h c unit q) (λ why. fail {A = Unit {0}} (f why)))
          (λ _. Up m)
  failing c unit f =
      bind_Step (Orderly m) _ (λ _. Orderly m) (λ _. Up m) (Orderly m) (failure_reason h c unit)
        (kept (failure_reason h c unit) (failure_reason-Quiet c unit)) (λ why s p. p)

  ready_by-Step :
      (n : ℕ) (c : Settings) (point : Text) (deadline : ℕ)
      → Step (Orderly m) (Orderly m) (ready_by h n c m point deadline) (λ _. Up m)
  unfolding ready_by
  ready_by-Step zero c point deadline s p = p
  ready_by-Step (suc n) c point deadline s p =
      carry_on-Post (Orderly m) _ (Looked point) (λ _. Up m) (mounted_at h point s)
        (λ live r l.
          if_Post (Orderly m) (λ _. Up m) live _ _ (λ e. (l.0, (l.1 e).1))
            (λ e.
              carry_on-Post (Orderly m) _ (λ _. Orderly m) (λ _. Up m) (status_of h (unit_name m) r)
                (λ status q k.
                  if_Post (Orderly m) (λ _. Up m) (is_failed status) _ _
                    (λ e. failing c (unit_name m) _ q k)
                    (λ e.
                      if_Post (Orderly m) (λ _. Up m) (leb deadline (h.clock q.world)) _ _
                        (λ e. failing c (unit_name m) _ q k)
                        (λ e. ready_by-Step n c point deadline _ k)))
                (kept (status_of h (unit_name m)) (status_of-Quiet h (unit_name m)) r l.0)))
        (mounted_at-Step point s p)

  pub await_ready-Step :
      (c : Settings) → Step (Orderly m) (Orderly m) (await_ready h c m) (λ _. Up m)
  unfolding await_ready
  await_ready-Step c s p =
      carry_on-Post (Orderly m) _ (λ _. Orderly m) (λ _. Up m) (resolved_point h m s)
        (λ point r l. ready_by-Step (rounds c.ready_timeout) c point _ r l)
        (kept (resolved_point h m) (resolved_point-Quiet h m) s p)
