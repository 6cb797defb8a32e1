-- ===== src/Tray/Act/Gentle.antt =====
-- crates/tray/src/watch.rs: what an action of the menu may do.
use rclone_vfsmount_tray.Prelude.{
  ℕ, zero, suc, ◌+◌, ◌≤◌, ◌≡◌, refl, ap, subst, ◌⊎◌, inl, inr, Bool, true, false, Option, none,
  some, [], ◌∷◌, ◌++◌, arith, unwrap_or, length, length-append, Text, lit,
}
use rclone_vfsmount_tray.Core.Mountinfo.{lines}
use rclone_vfsmount_tray.Tray.Link.{LinkError, message}
use rclone_vfsmount_tray.Tray.Model.{
  Action, mount_it, unmount_it, open_it, start_service, stop_service, refresh, quit, NoticeText,
  outcome_of, told, not_reachable, target, set_notice,
}
use rclone_vfsmount_tray.Tray.Act.{
  Asked, asked_mount, asked_unmount, ran_xdg_open, ran_systemctl, Desk, Doing, say, unreachable_now,
  say_outcome, outcome, acting, call_service, run_program, open_in_file_manager, unit, dispatch,
  cut_at, capped, complaint, last_said, cap,
}

abbrev pub is_forced : Asked → Bool
is_forced (asked_unmount name force) = force
is_forced _ = false

abbrev pub goes_to_service : Asked → Bool
goes_to_service (asked_mount name) = true
goes_to_service (asked_unmount name force) = true
goes_to_service _ = false

module _ (d : Desk) where
  -- One call at most, never a forced one, and to the service only over a proxy; and one notice at
  -- most, about what was asked for.
  pub record IsGentle (proxy : Bool) (a : Action) (s after : Doing d) : Type 0 where
    pub asks :
        (after.asked ≡ s.asked)
        ⊎ ((c : Asked) × (after.asked ≡ s.asked ++ c ∷ [])
            × (is_forced c ≡ false)
            × (goes_to_service c ≡ true → proxy ≡ true))
    pub says :
        (after.model ≡ s.model)
        ⊎ ((t : NoticeText) × (after.model ≡ set_notice s.model (target a).0 t (target a).1))

  outcome-IsGentle :
      (a : Action) (r : Option LinkError) (c : Asked) (s after : Doing d)
      → is_forced c ≡ false
      → after.asked ≡ s.asked ++ c ∷ []
      → after.model ≡ s.model
      → IsGentle true a s (say_outcome d a r after)
  unfolding say_outcome outcome
  outcome-IsGentle a none c s after gentle e same = record {
    asks = inr (c, e, gentle, λ h. refl);
    says = inl same;
  }
  outcome-IsGentle a (some err) c s after gentle e same = record {
    asks = inr (c, e, gentle, λ h. refl);
    says =
        let text = outcome_of (unwrap_or (target a).0 []) (message err) in
        inr (text, ap (λ m. set_notice m (target a).0 text (target a).1) same);
  }

  call_service-IsGentle :
      (proxy : Bool) (a : Action) (c : Asked) (s : Doing d)
      → is_forced c ≡ false
      → IsGentle proxy a s (call_service d proxy a c s)
  unfolding call_service unreachable_now acting
  call_service-IsGentle false a c s gentle = record {
    asks = inl refl;
    says = inr (not_reachable, refl);
  }
  call_service-IsGentle true a c s gentle =
      outcome-IsGentle a (acting d c s).0 c s (acting d c s).1 gentle refl refl

  say-IsGentle :
      (proxy : Bool) (a : Action) (t : Option Text) (c : Asked) (s after : Doing d)
      → target a ≡ (none, none)
      → is_forced c ≡ false
      → goes_to_service c ≡ false
      → after.asked ≡ s.asked ++ c ∷ []
      → after.model ≡ s.model
      → IsGentle proxy a s (say d t after)
  unfolding say
  say-IsGentle proxy a none c s after about gentle local e same = record {
    asks = inr (c, e, gentle, λ h. absurd (cc (h, local)));
    says = inl same;
  }
  say-IsGentle proxy a (some text) c s after about gentle local e same = record {
    asks = inr (c, e, gentle, λ h. absurd (cc (h, local)));
    says = inr (told text, cc (same, about));
  }

  -- Whatever the service answers and the programs do, an action of the menu makes one call or runs one
  -- program at most, never asks for a forced unmount, and calls the service only over a proxy. Of the
  -- tray it changes at most the notice, which is then about the mount that the action names, if it
  -- names one, and goes away with the state that the action was to reach.
  pub dispatch-IsGentle :
      (proxy : Bool) (a : Action) (s : Doing d) → IsGentle proxy a s (dispatch d proxy a s)
  unfolding dispatch open_in_file_manager unit run_program target
  dispatch-IsGentle proxy (mount_it name) s =
      call_service-IsGentle proxy (mount_it name) (asked_mount name) s refl
  dispatch-IsGentle proxy (unmount_it name) s =
      call_service-IsGentle proxy (unmount_it name) (asked_unmount name false) s refl
  dispatch-IsGentle proxy (open_it path) s =
      say-IsGentle proxy (open_it path) _ (ran_xdg_open path) s _ refl refl refl refl refl
  dispatch-IsGentle proxy start_service s =
      say-IsGentle proxy start_service _ (ran_systemctl (lit "start")) s _ refl refl refl refl refl
  dispatch-IsGentle proxy stop_service s =
      say-IsGentle proxy stop_service _ (ran_systemctl (lit "stop")) s _ refl refl refl refl refl
  dispatch-IsGentle proxy refresh s = record { asks = inl refl; says = inl refl }
  dispatch-IsGentle proxy quit s = record { asks = inl refl; says = inl refl }

-- What a cut leaves, or that there is nothing to cut.
abbrev Fits : ℕ → Text → Option Text → Type 0
Fits n s none = length s ≤ n
Fits n s (some start) = length start ≡ n

Fits-suc :
    (n c : ℕ) (s : Text) (r : Option Text)
    → Fits n s r
    → Fits (suc n) (c ∷ s) (elim r [ none ↦ none | some start ↦ some (c ∷ start) ])
Fits-suc n c s none h = omega (arith, h)
Fits-suc n c s (some start) h = omega (arith, h)

cut_at-Fits : (n : ℕ) (s : Text) → Fits n s (cut_at n s)
unfolding cut_at
cut_at-Fits n [] = omega arith
cut_at-Fits zero (c ∷ cs) = refl
cut_at-Fits (suc n) (c ∷ cs) = Fits-suc n c cs (cut_at n cs) (cut_at-Fits n cs)

capped_by :
    (s : Text) (r : Option Text)
    → Fits cap s r
    → length (elim r as (λ x. Text) [ none ↦ s | some start ↦ start ++ b' ' ∷ 8230 ∷ [] ]) ≤ cap + 2
capped_by s none h = omega (arith, h)
capped_by s (some start) h = omega (arith, h, length-append start (b' ' ∷ 8230 ∷ []))

capped-length : (s : Text) → length (capped s) ≤ cap + 2
unfolding capped
capped-length s = capped_by s (cut_at cap s) (cut_at-Fits cap s)

said_by :
    (r : Option Text) (line : Text)
    → elim r [ none ↦ none | some l ↦ some (capped l) ] ≡ some line
    → length line ≤ cap + 2
said_by none line h = absurd (cc h)
said_by (some l) line h = subst (λ x. length (unwrap_or x []) ≤ cap + 2) h (capped-length l)

-- What a program said before it failed is told in the characters that fit and the mark of a cut.
pub complaint-length :
    (ws : ℕ → Bool) (stderr line : Text) → complaint ws stderr ≡ some line → length line ≤ cap + 2
unfolding complaint
complaint-length ws stderr line h = said_by (last_said ws (lines stderr)) line h
