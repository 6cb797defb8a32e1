-- ===== src/Core/Discovery/Chosen.antt =====
-- crates/core/src/rclone.rs: which rclone is taken.
use rclone_vfsmount_tray.Prelude.{
  ◌≡◌, refl, sym, ap, ◌∙◌, ◌⊎◌, inl, inr, Bool, true, false, not, Option, none, some, List, [], ◌∷◌,
  ◌++◌, unwrap_or, All, Text, if-holds,
}
use rclone_vfsmount_tray.Core.Mountinfo.{lines}
use rclone_vfsmount_tray.Core.Discovery.{
  Version, minimum_version, version_lt, Output, Environment, RcloneError, Probed, usable, unusable,
  check_minimum, probe_output, probe_binary, candidates, try_each, discover, parse_version_output,
}

abbrev pub is_usable : Probed → Bool
is_usable (usable r) = true
is_usable (unusable e) = false

-- Every one of some candidates fails.
abbrev pub AllFail : Environment → List Text → Type 0
AllFail m cs = All (λ c. is_usable (probe_binary m c) ≡ false) cs

-- The first candidate that can be used is taken, and it is none too old; or there is none.
abbrev pub IsChosen : Environment → List Text → Probed → Type 0
IsChosen m cs (usable r) =
    (before : List Text) × (after : List Text) × (cs ≡ before ++ r.path ∷ after)
    × AllFail m before
    × (probe_binary m r.path ≡ usable r)
    × (version_lt r.version minimum_version ≡ false)
IsChosen m cs (unusable e) = AllFail m cs

-- What a probe finds is at the path that was probed, and not too old.
abbrev IsSupported : Text → Probed → Type 0
IsSupported path (usable r) = (r.path ≡ path) × (version_lt r.version minimum_version ≡ false)
IsSupported path (unusable e) = Unit

check_minimum-IsSupported :
    (path : Text) (out : List Text) (v : Option Version)
    → IsSupported path (check_minimum path out v)
unfolding check_minimum
check_minimum-IsSupported path out none = tt
check_minimum-IsSupported path out (some v) =
    if-holds (IsSupported path) (version_lt v minimum_version) _ _ (λ e. tt) (λ e. (refl, e))

probe_output-IsSupported :
    (m : Environment) (path : Text) (o : Output ⊎ Text) → IsSupported path (probe_output m path o)
unfolding probe_output
probe_output-IsSupported m path (inr why) = tt
probe_output-IsSupported m path (inl out) =
    if-holds (IsSupported path) (not out.success) _ _ (λ e. tt)
      (λ e.
        check_minimum-IsSupported path (lines out.stdout)
          (parse_version_output m (lines out.stdout)))

probe_binary-IsSupported : (m : Environment) (path : Text) → IsSupported path (probe_binary m path)
unfolding probe_binary
probe_binary-IsSupported m path = probe_output-IsSupported m path (m.run_version path)

-- One candidate more, that fails.
IsChosen-cons :
    (m : Environment) (c : Text) (cs : List Text) (out : Probed)
    → is_usable (probe_binary m c) ≡ false
    → IsChosen m cs out
    → IsChosen m (c ∷ cs) out
IsChosen-cons m c cs (usable r) f (before, after, e, fails, p, v) =
    (c ∷ before, after, ap (λ x. c ∷ x) e, (f, fails), p, v)
IsChosen-cons m c cs (unusable e) f fails = (f, fails)

try_one :
    (m : Environment) (first_err : Option RcloneError) (c : Text) (cs : List Text) (p : Probed)
    → probe_binary m c ≡ p
    → IsSupported c p
    → ((e : Option RcloneError) → IsChosen m cs (try_each m e cs))
    → IsChosen m (c ∷ cs) (elim p as (λ x. Probed) [
      | usable r ↦ usable r
      | unusable e ↦ try_each m (some (unwrap_or first_err e)) cs
    ])
try_one m first_err c cs (usable r) h s k =
    ([], cs, ap (λ x. x ∷ cs) (sym s.0), tt, ap (probe_binary m) s.0 ∙ h, s.1)
try_one m first_err c cs (unusable e) h s k =
    IsChosen-cons m c cs _ (ap is_usable h) (k (some (unwrap_or first_err e)))

try_each-IsChosen :
    (m : Environment) (first_err : Option RcloneError) (cs : List Text)
    → IsChosen m cs (try_each m first_err cs)
unfolding try_each
try_each-IsChosen m first_err [] = tt
try_each-IsChosen m first_err (c ∷ cs) =
    try_one m first_err c cs (probe_binary m c) refl (probe_binary-IsSupported m c)
      (λ e. try_each-IsChosen m e cs)

-- Without a path of the user's own, discovery takes the first candidate whose probe succeeds, after
-- candidates that all fail, and its version is not below the minimum; or it fails, and then every
-- candidate fails.
pub discover-IsChosen : (m : Environment) → IsChosen m (candidates m) (discover m none)
unfolding discover
discover-IsChosen m = try_each-IsChosen m none (candidates m)
