-- ===== src/Service/Host/Steps.antt =====
-- crates/service/src/supervisor.rs: what a run of calls says of the trace that it leaves. A step keeps
-- a promise `Q` if it succeeds and `E` if not.
use rclone_vfsmount_tray.Prelude.{
  ◌≡◌, refl, subst, sym, ◌∙◌, Bool, true, false, if◌then◌else◌, List, Option, none, some, arith,
}
use rclone_vfsmount_tray.Service.Host.{
  Reply, Event, Outcome, ok, err, stuck, Run, M, carry_on, ◌>>=◌, ◌>>◌, ask,
}

-- Nothing is noted.
abbrev pub Quiet : {W A : Type 0} → M W A → Type 0
Quiet {W} m = (s : Run W) → (m s).1.trace ≡ s.trace

module _ {W A B : Type 0} (f : A → M W B) where
  carry_on-Quiet :
      (r : Outcome A × Run W) → ((a : A) → Quiet (f a)) → (carry_on r f).1.trace ≡ r.1.trace
  carry_on-Quiet (ok a, s) q = q a s
  carry_on-Quiet (err e, s) q = refl
  carry_on-Quiet (stuck, s) q = refl

  pub bind_Quiet : (m : M W A) → Quiet m → ((a : A) → Quiet (f a)) → Quiet (m >>= f)
  bind_Quiet m p q s = carry_on-Quiet (m s) q ∙ p s

module _ {W A : Type 0} where
  pub ask-Quiet : (f : W → Reply A × W) → Quiet (ask f)
  ask-Quiet f s = ground arith

  pub if_Quiet : (b : Bool) (m n : M W A) → Quiet m → Quiet n → Quiet (if b then m else n)
  if_Quiet true m n p q = p
  if_Quiet false m n p q = q

module _ {W A C : Type 0} where
  pub option_Quiet :
      (o : Option C) (m : M W A) (f : C → M W A)
      → Quiet m
      → ((c : C) → Quiet (f c))
      → Quiet (elim o [ none ↦ m | some c ↦ f c ])
  option_Quiet none m f p q = p
  option_Quiet (some c) m f p q = q c

abbrev pub Post :
    {A : Type 0}
    → (List Event → Type 0)
    → (A → List Event → Type 0)
    → Outcome A
    → List Event
    → Type 0
Post E Q (ok a) es = Q a es
Post E Q (err e) es = E es
Post E Q stuck es = E es

abbrev pub Step :
    {W A : Type 0}
    → (List Event → Type 0)
    → (List Event → Type 0)
    → M W A
    → (A → List Event → Type 0)
    → Type 0
Step {W} E P m Q = (s : Run W) → P s.trace → Post E Q (m s).0 (m s).1.trace

module _ {W A B : Type 0} (E : List Event → Type 0) (f : A → M W B) (Q : A → List Event → Type 0)
    (R : B → List Event → Type 0) where
  pub carry_on-Post :
      (r : Outcome A × Run W)
      → ((a : A) → Step E (Q a) (f a) R)
      → Post E Q r.0 r.1.trace
      → Post E R (carry_on r f).0 (carry_on r f).1.trace
  carry_on-Post (ok a, s) each h = each a s h
  carry_on-Post (err e, s) each h = h
  carry_on-Post (stuck, s) each h = h

  pub bind_Step :
      (P : List Event → Type 0) (m : M W A)
      → Step E P m Q
      → ((a : A) → Step E (Q a) (f a) R)
      → Step E P (m >>= f) R
  bind_Step P m first each s h = carry_on-Post (m s) each (first s h)

module _ {A : Type 0} (E P : List Event → Type 0) where
  quiet_outcome :
      (o : Outcome A) (es : List Event)
      → ((fs : List Event) → P fs → E fs)
      → P es
      → Post E (λ _. P) o es
  quiet_outcome (ok a) es w h = h
  quiet_outcome (err e) es w h = w es h
  quiet_outcome stuck es w h = w es h

  -- A quiet step keeps what is known.
  pub quiet_Step :
      {W : Type 0} (m : M W A) → ((fs : List Event) → P fs → E fs) → Quiet m → Step E P m (λ _. P)
  quiet_Step m w q s h = quiet_outcome (m s).0 _ w (subst P (sym (q s)) h)

module _ {W A : Type 0} (E P : List Event → Type 0) (Q : A → List Event → Type 0) where
  pub if_Step :
      (b : Bool) (m n : M W A)
      → (b ≡ true → Step E P m Q)
      → (b ≡ false → Step E P n Q)
      → Step E P (if b then m else n) Q
  if_Step true m n on off = on refl
  if_Step false m n on off = off refl

module _ {W A : Type 0} where
  pub if_trace :
      (b : Bool) (x y : Outcome A × Run W) {es : List Event}
      → x.1.trace ≡ es
      → y.1.trace ≡ es
      → (if b then x else y).1.trace ≡ es
  if_trace true x y p q = p
  if_trace false x y p q = q

  pub if_Post :
      (E : List Event → Type 0) (Q : A → List Event → Type 0) (b : Bool) (x y : Outcome A × Run W)
      → (b ≡ true → Post E Q x.0 x.1.trace)
      → (b ≡ false → Post E Q y.0 y.1.trace)
      → Post E Q (if b then x else y).0 (if b then x else y).1.trace
  if_Post E Q true x y on off = on refl
  if_Post E Q false x y on off = off refl

module _ {W B : Type 0} (E P Q : List Event → Type 0) (R : B → List Event → Type 0) where
  pub then_Step :
      (m : M W (Unit {0})) (k : M W B) → Step E P m (λ _. Q) → Step E Q k R → Step E P (m >> k) R
  then_Step m k first later s h = carry_on-Post E (λ _. k) (λ _. Q) R (m s) (λ _. later) (first s h)
