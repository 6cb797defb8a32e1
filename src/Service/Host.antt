-- ===== src/Service/Host.antt =====
-- What the supervisor works against: systemd, the kernel's mount table, the file system and the
-- clock, none of which is code of the repository. Every call may change the world in any way, so
-- whatever else goes on between two calls is included. The supervisor's own state is the world and
-- the calls that it has made, the latest first.
pub mod Steps
use rclone_vfsmount_tray.Prelude.{
  ℕ, zero, suc, ◌+◌, ◌-◌, ◌*◌, ◌/◌, ◌%◌, ◌^◌, ◌≤◌, ◌<◌, min, max, ◌≡◌, refl, sym, ap, ◌∙◌, subst,
  ◌≢◌, ◌↔◌, ◌⊎◌, inl, inr, Bool, true, false, not, ◌&&◌, ◌||◌, Option, none, some, List, [], ◌∷◌,
  ◌++◌, map, arith, dec_lt, ℕ_discrete, ltb, leb, ◌==◌, if◌then◌else◌, ==_iff, Bool-cases,
  Option-cases, is_some, unwrap_or, is_yes, length, any, all, find, filter, All, length-append,
  length-filter-le, find-eq_some, length-map, filter_map, Text, lit, text_eq, text_eq-eq,
  text_eq_refl, text_eq_iff, has_char, strip_prefix, strip_prefix-append, strip_prefix-eq_some, ℤ,
  pos, negsuc, try_u64, u64_max, add64, sat_add, add64_exact, sat_add-le_max, Map, get, insert,
  remove, contains_key, values, keys, get-insert, get-remove, text_lt, strip_suffix, trim_start,
  all_chars, starts_with, text_eq_comm, strip_suffix-append,
}
use rclone_vfsmount_tray.Core.Message.{Message}
use rclone_vfsmount_tray.Core.Supervisor.{SupervisorError}
use rclone_vfsmount_tray.Service.Units.{UnitStatus, LoadedUnit, UnitSpec}

-- How hard to ask the kernel for a mount point: `Release` of supervisor.rs.
pub data Release : Type 0 where
  refuse detach : Release

-- How a run of `fusermount3` or `fusermount` ends.
pub data Exit : Type 0 where
  success : Exit
  refusal : Text → Exit
  no_program : Exit
  not_run : Text → Exit

-- What `stat` says of a path; `none` of it is a probe that did not answer in time.
pub data Stat : Type 0 where
  directory other_file not_found not_connected : Stat
  stat_error : Text → Stat

pub data Reply {ℓ} (A : Type ℓ) : Type ℓ where
  done : A → Reply A
  fault : SupervisorError → Reply A

-- The clock counts milliseconds. A text that is returned is an error, rendered.
pub record Host : Type 1 where
  pub World : Type 0
  -- `{:?}` of a `str`, which quotes and escapes it.
  pub debug : Text → Text
  pub clock : World → ℕ
  pub sleep : ℕ → World → World
  pub read_mountinfo : World → Option Text × World
  pub canonicalize : Text → World → Option Text × World
  pub stat : Text → World → Option Stat × World
  -- `stat` on the thread of the caller, which waits as long as it takes.
  pub metadata : Text → World → Stat × World
  pub list_units : Text → World → Reply (List LoadedUnit) × World
  pub unit_status : Text → World → Reply UnitStatus × World
  pub stop_unit : Text → World → Reply (Unit {0}) × World
  pub start_transient : UnitSpec → World → Reply (Unit {0}) × World
  pub reset_failed : Text → World → Reply (Unit {0}) × World
  pub recent_output : Text → World → Text × World
  pub fusermount : Bool → Text → Release → World → Exit × World
  pub create_dir_all : Text → World → Option Text × World
  pub make_private : Text → World → Option Text × World
  pub remove_socket : Text → World → World
  pub current_exe : World → Option Text × World
  pub is_file : Text → World → Bool × World
  pub lock : Text → World → World
  pub lock_within : ℕ → Text → World → Bool × World
  pub lock_references : Text → World → ℕ × World

-- What the supervisor did, and what it was told by the mount table.
pub data Event : Type 0 where
  saw : Text → Bool → Event
  -- Whether the kernel gave the point up.
  released : Text → Release → Bool → Event
  stopped : Text → Event
  started : Text → Event
  cleared : Text → Event
  locked : Text → Event
  forgot_lock : Text → Event

pub data Outcome {ℓ} (A : Type ℓ) : Type ℓ where
  ok : A → Outcome A
  err : SupervisorError → Outcome A
  -- A waiting loop that ran out of rounds.
  stuck : Outcome A

pub record Run (W : Type 0) : Type 0 where
  pub world : W
  pub trace : List Event

abbrev pub M : Type 0 → Type 0 → Type 0
M W A = Run W → Outcome A × Run W

abbrev pub carry_on : {W A B : Type 0} → Outcome A × Run W → (A → M W B) → Outcome B × Run W
carry_on (ok a, s) f = f a s
carry_on (err e, s) f = (err e, s)
carry_on (stuck, s) f = (stuck, s)

infixl 5 ◌>>=◌ ◌>>◌
abbrev pub ◌>>=◌ : {W A B : Type 0} → M W A → (A → M W B) → M W B
◌>>=◌ m f s = carry_on (m s) f

abbrev pub ◌>>◌ : {W B : Type 0} → M W (Unit {0}) → M W B → M W B
◌>>◌ m k s = carry_on (m s) (λ _. k)

abbrev pub pure : {W A : Type 0} → A → M W A
pure a s = (ok a, s)

abbrev pub fail : {W A : Type 0} → SupervisorError → M W A
fail e s = (err e, s)

-- A step whose failure the caller looks at.
pub data Tried : Type 0 where
  fine : Tried
  failed_with : SupervisorError → Tried

abbrev pub try_outcome : {W : Type 0} → Outcome (Unit {0}) × Run W → Outcome Tried × Run W
try_outcome (ok _, s) = (ok fine, s)
try_outcome (err e, s) = (ok (failed_with e), s)
try_outcome (stuck, s) = (stuck, s)

abbrev pub attempt : {W : Type 0} → M W (Unit {0}) → M W Tried
attempt m s = try_outcome (m s)

-- A call of the host that cannot fail.
abbrev pub call : {W A : Type 0} → (W → A × W) → M W A
call f s = let (a, w) = f s.world in (ok a, record s { world = w })

-- A call of the host that may.
abbrev pub ask : {W A : Type 0} → (W → Reply A × W) → M W A
ask f s =
    let (r, w) = f s.world in
    elim r [ done a ↦ (ok a, record s { world = w }) | fault e ↦ (err e, record s { world = w }) ]

abbrev pub note : {W : Type 0} → Event → M W (Unit {0})
note e s = (ok tt, record s { trace = e ∷ s.trace })

abbrev pub act : {W : Type 0} → (W → W) → M W (Unit {0})
act f s = (ok tt, record s { world = f s.world })
