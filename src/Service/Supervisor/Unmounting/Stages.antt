-- ===== src/Service/Supervisor/Unmounting/Stages.antt =====
-- crates/service/src/supervisor.rs: every stage of `unmount` keeps the law of Order.
use rclone_vfsmount_tray.Prelude.{
  ℕ, zero, suc, ◌≡◌, inl, inr, Bool, true, false, not, List, ◌∷◌, arith, leb, if◌then◌else◌,
  Bool-cases, Text, text_eq_refl,
}
use rclone_vfsmount_tray.Core.Supervisor.{}
use rclone_vfsmount_tray.Service.Host.{
  refuse, detach, Exit, success, refusal, no_program, not_run, Host, Event, saw, released, Outcome,
  ok, err, stuck, Run, M, carry_on, ◌>>=◌, Tried, fine, failed_with, attempt,
}
use rclone_vfsmount_tray.Service.Supervisor.{
  Target, poll_interval, live_mounts, mounted_at, status_of, release_point, stop, clear, exit_error,
  is_success, run_fusermount,
}
use rclone_vfsmount_tray.Service.Supervisor.Waiting.{await_gone, gone_by, rounds}
use rclone_vfsmount_tray.Service.Supervisor.Unmounting.Order.{Known, Has, Leaves}

-- A stage that starts where `k` is known leaves, if it succeeds with `a`, what `g a` says.
abbrev pub Stage : {W A : Type 0} → Target → Bool → Known → M W A → (A → Known) → Type 0
Stage {W} t force k m g =
    (s : Run W) → Has t force k s.trace → Leaves t force g (m s).0 (m s).1.trace

module _ {W A B : Type 0} (t : Target) (force : Bool) (f : A → M W B) (g : A → Known)
    (k : B → Known) where
  pub carry_on_lem :
      (r : Outcome A × Run W)
      → ((a : A) → Stage t force (g a) (f a) k)
      → Leaves t force g r.0 r.1.trace
      → Leaves t force k (carry_on r f).0 (carry_on r f).1.trace
  carry_on_lem (ok a, s) each h = each a s h
  carry_on_lem (err e, s) each h = h
  carry_on_lem (stuck, s) each h = h

  pub bind_Stage :
      (p : Known) (m : M W A)
      → Stage t force p m g
      → ((a : A) → Stage t force (g a) (f a) k)
      → Stage t force p (m >>= f) k
  bind_Stage p m first each s h = carry_on_lem (m s) each (first s h)

module _ {A : Type 0} (t : Target) (force : Bool) (g k : A → Known) where
  weaken_outcome :
      (o : Outcome A) (es : List Event)
      → ((a : A) (fs : List Event) → Has t force (g a) fs → Has t force (k a) fs)
      → Leaves t force g o es
      → Leaves t force k o es
  weaken_outcome (ok a) es w h = w a es h
  weaken_outcome (err e) es w h = h
  weaken_outcome stuck es w h = h

  pub weaken_Stage :
      {W : Type 0} (p : Known) (m : M W A)
      → ((a : A) (fs : List Event) → Has t force (g a) fs → Has t force (k a) fs)
      → Stage t force p m g
      → Stage t force p m k
  weaken_Stage p m w stage s h = weaken_outcome (m s).0 _ w (stage s h)

module _ (h : Host) (t : Target) (force : Bool) where
  open h use {World}

  abbrev pub if_free : Known → Bool → Known
  if_free k false = record k { free = true; may_stop = true }
  if_free k true = k

  sight_lem :
      (k : Known) (b : Bool) (es : List Event)
      → Has t force k es
      → Has t force (if_free k b) (saw t.point b ∷ es)
  sight_lem k true es p = (ground arith, p.1, p.2, p.3)
  sight_lem k false es p = ground (arith, text_eq_refl t.point)

  pub mounted_at-Stage : (k : Known) → Stage t force k (mounted_at h t.point) (if_free k)
  unfolding mounted_at live_mounts
  mounted_at-Stage k s p = sight_lem k _ _ p

  pub status_of-Stage : (k : Known) (unit : Text) → Stage t force k (status_of h unit) (λ _. k)
  unfolding status_of
  status_of-Stage k unit s p = ground (arith, p)

  abbrev pub if_fine : Known → Tried → Known
  if_fine k fine = record k { may_stop = true }
  if_fine k (failed_with e) = k

  refuse_exit :
      (k : Known) (last : Exit) (w : World) (es : List Event)
      → Has t force k es
      → let r : Run World = record {
        world = w;
        trace = released t.point refuse (is_success last) ∷ es;
      } in
        let m : M World (Unit {0}) = λ q. (exit_error t.point last, q) in
        Leaves t force (if_fine k) (attempt m r).0 (attempt m r).1.trace
  unfolding exit_error
  refuse_exit k success w es p = ground (arith, text_eq_refl t.point)
  refuse_exit k (refusal x) w es p = ground arith
  refuse_exit k no_program w es p = ground arith
  refuse_exit k (not_run x) w es p = ground arith

  pub refuse_Stage :
      (k : Known) → Stage t force k (attempt (release_point h t.point refuse)) (if_fine k)
  unfolding release_point
  refuse_Stage k s p =
      let (last, w) = run_fusermount h t.point refuse s.world in refuse_exit k last w s.trace p

  detach_exit :
      (k : Known) (last : Exit) (es : List Event)
      → force ≡ true
      → k.told ≡ true
      → Has t force k es
      → Leaves t force
          (λ _. k)
          (exit_error t.point last)
          (released t.point detach (is_success last) ∷ es)
  unfolding exit_error
  detach_exit k success es f e p = ground arith
  detach_exit k (refusal x) es f e p = ground arith
  detach_exit k no_program es f e p = ground arith
  detach_exit k (not_run x) es f e p = ground arith

  pub detach_Stage :
      (k : Known)
      → force ≡ true
      → k.told ≡ true
      → Stage t force k (release_point h t.point detach) (λ _. k)
  unfolding release_point
  detach_Stage k f e s p = detach_exit k (run_fusermount h t.point detach s.world).0 s.trace f e p

  pub stop-Stage :
      (k : Known)
      → k.may_stop ≡ true
      → Stage t force k (stop h t.unit) (λ _. record k { told = true })
  unfolding stop
  stop-Stage k m s p = ground (arith, text_eq_refl t.unit)

  pub clear-Stage : (k : Known) → k.free ≡ true → Stage t force k (clear h t.unit) (λ _. k)
  unfolding clear
  clear-Stage k f s p = ground arith

  -- Waiting for the point only looks at the mount table.
  abbrev pub if_gone : Known → Bool → Known
  if_gone k true = record k { free = true; may_stop = true }
  if_gone k false = k

  look_again :
      (k : Known) (deadline : ℕ) (rest : M World Bool)
      → Stage t force k rest (if_gone k)
      → (live : Bool)
      → Stage t force
          (if_free k live)
          (λ r.
            if not live
            then (ok true, r)
            else if leb deadline (h.clock r.world)
            then (ok false, r)
            else rest r)
          (if_gone k)
  look_again k deadline rest later false r p = p
  look_again k deadline rest later true r p = elim (Bool-cases (leb deadline (h.clock r.world))) [
    | inl e ↦ ground (arith, later r p)
    | inr e ↦ ground (arith, later r p)
  ]

  gone_by-Stage :
      (n : ℕ) (k : Known) (deadline : ℕ)
      → Stage t force k (gone_by h n t.point deadline) (if_gone k)
  unfolding gone_by
  gone_by-Stage zero k deadline s p = ground (arith, p)
  gone_by-Stage (suc n) k deadline s p =
      carry_on_lem t force _ (if_free k) (if_gone k) (mounted_at h t.point s)
        (look_again k deadline
          (λ r. gone_by h n t.point deadline (record r { world = h.sleep poll_interval r.world }))
          (λ r q. gone_by-Stage n k deadline _ q))
        (mounted_at-Stage k s p)

  pub await_gone-Stage :
      (k : Known) (timeout : ℕ) → Stage t force k (await_gone h t.point timeout) (if_gone k)
  unfolding await_gone
  await_gone-Stage k timeout s p = gone_by-Stage (rounds timeout) k _ s p
