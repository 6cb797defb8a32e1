-- ===== src/Core/Transfer/Rate.antt =====
-- crates/core/src/transfer.rs: the rate, from the totals of one poll and the next. What a 64-bit float
-- does is a parameter. An instant is a number of nanoseconds.
use rclone_vfsmount_tray.Prelude.{ℕ, ◌-◌, Bool, Option, none, some, if◌then◌else◌}

pub record Floats : Type 1 where
  pub F : Type 0
  pub of_u64 : ℕ → F
  -- `as u64`, which saturates.
  pub to_u64 : F → ℕ
  pub as_secs : ℕ → F
  pub div : F → F → F
  pub mul : F → F → F
  pub add : F → F → F
  -- `<= 0.0`
  pub at_most_zero : F → Bool
  -- `SMOOTHING`, and one less it.
  pub smoothing : F
  pub kept : F

module _ (fl : Floats) where
  pub record RateEstimator : Type 0 where
    pub last : Option (ℕ × ℕ)
    pub smoothed : Option fl.F

  unfoldable pub rate_new : RateEstimator
  rate_new = record { last = none; smoothed = none }

  -- `RateEstimator::reset`.
  unfoldable pub rate_reset : RateEstimator → RateEstimator
  unfolding rate_new
  rate_reset r = rate_new

  unfoldable pub smooth : Option fl.F → fl.F → fl.F
  smooth none instant = instant
  smooth (some prev) instant = fl.add (fl.mul prev fl.kept) (fl.mul instant fl.smoothing)

  -- From the second sample on.
  unfoldable pub sample_after : ℕ → ℕ → ℕ → ℕ → Option fl.F → Option ℕ × Option fl.F
  unfolding smooth
  sample_after then_at before now pending_bytes smoothed =
      let secs = fl.as_secs (now - then_at) in
      if fl.at_most_zero secs
      then (elim smoothed [ none ↦ none | some r ↦ some (fl.to_u64 r) ], smoothed)
      else (let next = smooth smoothed (fl.div (fl.of_u64 (before - pending_bytes)) secs) in
          (some (fl.to_u64 next), some next))

  unfoldable pub sample_at : RateEstimator → ℕ → ℕ → Option ℕ × RateEstimator
  unfolding sample_after
  sample_at r now pending_bytes = elim r.last [
    | none ↦ (none, record r { last = some (now, pending_bytes) })
    | some (then_at, before) ↦
        let (rate, smoothed) = sample_after then_at before now pending_bytes r.smoothed in
        (rate, record { last = some (now, pending_bytes); smoothed = smoothed })
  ]
