-- ===== src/Tray/Link/Waits.antt =====
-- crates/tray/src/link.rs: the delays of an outage, one after the other.
use rclone_vfsmount_tray.Prelude.{
  ℕ, zero, suc, ◌*◌, min, ◌≡◌, refl, ap, ◌∙◌, List, [], ◌∷◌, ◌++◌, arith,
}
use rclone_vfsmount_tray.Tray.Link.{Backoff, backoff_new, take, reset, ceiling}

-- What is done to the delay: waiting once, or starting over after a connection that worked.
pub data Turn : Type 0 where
  waits starts_over : Turn

abbrev pub turned : Backoff → List Turn → Backoff
turned b [] = b
turned b (waits ∷ ts) = turned (take b).1 ts
turned b (starts_over ∷ ts) = turned (reset b) ts

abbrev pub outage : ℕ → List Turn
outage zero = []
outage (suc n) = waits ∷ outage n

abbrev pub power_of_two : ℕ → ℕ
power_of_two zero = 1
power_of_two (suc n) = power_of_two n * 2

turned-append : (b : Backoff) (xs ys : List Turn) → turned b (xs ++ ys) ≡ turned (turned b xs) ys
turned-append b [] ys = refl
turned-append b (waits ∷ xs) ys = turned-append (take b).1 xs ys
turned-append b (starts_over ∷ xs) ys = turned-append (reset b) xs ys

outage_last : (b : Backoff) (n : ℕ) → turned b (outage (suc n)) ≡ (take (turned b (outage n))).1
outage_last b zero = refl
outage_last b (suc n) = outage_last (take b).1 n

outage_next : (n : ℕ) → (turned backoff_new (outage n)).next ≡ min (power_of_two n) ceiling
unfolding take backoff_new
outage_next zero = refl
outage_next (suc n) = omega (arith, outage_next n, ap (λ b. b.next) (outage_last backoff_new n))

-- Whatever waits and fresh starts came before, the wait that comes after a fresh start and `n` more
-- waits is two to the power `n` seconds, or a minute where that is shorter.
pub take-outage :
    (before : List Turn) (n : ℕ)
    → (take (turned backoff_new (before ++ starts_over ∷ outage n))).0
      ≡ min (power_of_two n) ceiling
unfolding take reset
take-outage before n =
    ap (λ b. b.next) (turned-append backoff_new before (starts_over ∷ outage n)) ∙ outage_next n
