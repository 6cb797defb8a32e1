-- ===== src/Tray/Watch.antt =====
-- crates/tray/src/watch.rs: keeping the tray in step with the service. The bus, the service behind it,
-- the clock and the panel that holds the tray are parameters; each may change the world in any way.
-- What the waits of a loop come back with is a list of events, which includes what the menu does to
-- the tray meanwhile.
pub mod Serve
pub mod Mirror
pub mod Dropped
pub mod Follow
pub mod Settled
use rclone_vfsmount_tray.Prelude.{
  ℕ, zero, suc, ◌+◌, ◌-◌, ◌*◌, ◌/◌, ◌%◌, ◌^◌, ◌≤◌, ◌<◌, min, max, ◌≡◌, refl, sym, ap, ◌∙◌, subst,
  ◌≢◌, ◌↔◌, ◌⊎◌, inl, inr, Bool, true, false, not, ◌&&◌, ◌||◌, Option, none, some, List, [], ◌∷◌,
  ◌++◌, map, arith, dec_lt, ℕ_discrete, ltb, leb, ◌==◌, if◌then◌else◌, ==_iff, Bool-cases,
  Option-cases, is_some, unwrap_or, is_yes, length, any, all, find, filter, All, length-append,
  length-filter-le, find-eq_some, length-map, filter_map, Text, lit, text_eq, text_eq-eq,
  text_eq_refl, text_eq_iff, has_char, strip_prefix, strip_prefix-append, strip_prefix-eq_some, ℤ,
  pos, negsuc, try_u64, u64_max, add64, sat_add, add64_exact, sat_add-le_max, Map, get, insert,
  remove, contains_key, values, keys, get-insert, get-remove, text_lt, strip_suffix, trim_start,
  all_chars, starts_with, text_eq_comm, strip_suffix-append, if-holds,
}
use rclone_vfsmount_tray.Core.Ipc.{MountView, TransferView}
use rclone_vfsmount_tray.Tray.Link.{
  ZbusError, other_error, CallError, LinkError, no_session_bus, silent, transport, from_zbus,
  from_ipc, check_version, Backoff, reset,
}
use rclone_vfsmount_tray.Tray.Model.{TrayModel, ServiceInfo, go_down}

pub data LinkStep : Type 0 where
  gone now_step backoff_step bus_step : LinkStep

-- What a call to the service comes back with.
pub data Called {ℓ} (A : Type ℓ) : Type ℓ where
  answered : A → Called A
  call_failed : CallError → Called A

pub data Owner : Type 0 where
  owned no_owner : Owner
  owner_error : ZbusError → Owner

-- The wait for a service that is not running.
pub data Waited : Type 0 where
  owner_came owners_ended refresh_asked : Waited

pub data Stream : Type 0 where
  states removals transfers properties : Stream

pub record Bus : Type 1 where
  pub World : Type 0
  -- `MIN_INTERFACE`.
  pub min_interface : ℕ
  -- Whether the panel still holds the tray: `handle.update` changes nothing if not.
  pub holds_tray : World → Bool × World
  -- Whether a step takes longer than `attaching` waits.
  pub too_late : World → Bool × World
  pub name_owner : World → Owner × World
  pub wait_for_owner : World → Waited × World
  -- The address of the owner and the building of the proxy.
  pub destination : World → Option ZbusError × World
  pub build_proxy : World → Option ZbusError × World
  pub subscribe : Stream → World → Option ZbusError × World
  pub interface_version : World → Called ℕ × World
  pub service_version : World → Called Text × World
  pub rclone_version : World → Called Text × World
  pub capability_tier : World → Called Text × World
  pub list_mounts : World → Called (List MountView) × World
  pub get_transfer_state : Text → World → Called TransferView × World

-- `Result<A, LinkError>`.
pub data Got {ℓ} (A : Type ℓ) : Type ℓ where
  got : A → Got A
  gave : LinkError → Got A

pub record Snapshot : Type 0 where
  pub info : ServiceInfo
  pub mounts : List MountView
  pub readings : List TransferView

-- What the linker keeps: the tray, whether the proxy is published, and the delay.
pub record Linker (W : Type 0) : Type 0 where
  pub model : TrayModel
  pub attached : Bool
  pub backoff : Backoff
  pub world : W

abbrev carry : {W A B : Type 0} → Got A × W → (A → W → Got B × W) → Got B × W
carry (got a, w) f = f a w
carry (gave e, w) f = (gave e, w)

-- `map_err(link::from_ipc)?`
abbrev called : {W A : Type 0} → Called A × W → Got A × W
called (answered a, w) = (got a, w)
called (call_failed e, w) = (gave (from_ipc e), w)

-- `map_err(link::from_zbus)?`
abbrev wired : {W : Type 0} → Option ZbusError × W → Got (Unit {0}) × W
wired (none, w) = (got tt, w)
wired (some e, w) = (gave (from_zbus e), w)

-- `matches!(e, LinkError::Transport(_) | LinkError::NoSessionBus(_))`
unfoldable pub is_broken : LinkError → Bool
is_broken (transport e) = true
is_broken (no_session_bus e) = true
is_broken _ = false

module _ (b : Bus) where
  unfoldable pub attaching : {A : Type 0} → (b.World → Got A × b.World) → b.World → Got A × b.World
  attaching step w =
      let (late, after) = b.too_late w in if late then (gave silent, after) else step after

  -- `open_owner`, with `build`.
  unfoldable pub open_owner : b.World → Got (Unit {0}) × b.World
  unfolding check_version
  open_owner w = carry (wired (b.destination w)) (λ _ w1. carry (wired (b.build_proxy w1)) (λ _ w2.
      carry (called (b.interface_version w2)) (λ version w3.
        (elim (check_version b.min_interface version) [ none ↦ got tt | some e ↦ gave e ], w3))))

  unfoldable pub describe : b.World → Got ServiceInfo × b.World
  describe w = carry (called (b.interface_version w)) (λ interface w1.
      carry (called (b.service_version w1)) (λ service w2.
        carry (called (b.rclone_version w2)) (λ rclone w3.
          carry (called (b.capability_tier w3)) (λ tier w4. (
            got (record {
              service_version = service;
              interface_version = interface;
              rclone_version = rclone;
              capability_tier = tier;
            }),
            w4,
          )))))

  -- The reading of each mount that has one.
  unfoldable pub readings_of : List MountView → b.World → List TransferView × b.World
  readings_of [] w = ([], w)
  readings_of (m ∷ ms) w =
      let (answer, after) = b.get_transfer_state m.name w in
      let (rest, last) = readings_of ms after in
      (elim answer [ answered t ↦ t ∷ rest | call_failed e ↦ rest ], last)

  unfoldable pub gather : b.World → Got Snapshot × b.World
  unfolding describe readings_of
  gather w = carry (describe w) (λ info w1. carry (called (b.list_mounts w1)) (λ mounts w2.
      let (readings, w3) = readings_of mounts w2 in
      (got (record { info = info; mounts = mounts; readings = readings }), w3)))

  unfoldable pub subscribe_to : List Stream → b.World → Got (Unit {0}) × b.World
  subscribe_to [] w = (got tt, w)
  subscribe_to (s ∷ ss) w = carry (wired (b.subscribe s w)) (λ _ w1. subscribe_to ss w1)

  -- The calls of an attachment: subscribe, then list.
  unfoldable pub attach_calls : b.World → Got Snapshot × b.World
  unfolding attaching open_owner subscribe_to gather
  attach_calls w = carry (attaching open_owner w) (λ _ w1. carry (attaching open_owner w1) (λ _ w2.
      carry (subscribe_to (states ∷ removals ∷ transfers ∷ properties ∷ []) w2)
        (λ _ w3. attaching gather w3)))

  abbrev pub Linking : Type 0
  Linking = Linker b.World

  -- `handle.update`, and whether it found the tray.
  unfoldable pub update : (TrayModel → TrayModel) → Linking → Bool × Linking
  update f l =
      let (held, after) = b.holds_tray l.world in
      (held, record l { model = if held then f l.model else l.model; world = after })

  unfoldable pub down_link : LinkError → Linking → Bool × Linking
  unfolding update
  down_link e l = update (λ m. go_down m e) (record l { attached = false })

  unfoldable pub give_up : LinkError → Linking → LinkStep × Linking
  unfolding down_link is_broken
  give_up e l =
      let (held, after) = down_link e l in
      (if not held then gone else if is_broken e then bus_step else backoff_step, after)

  unfoldable pub bus_lost : Linking → LinkStep × Linking
  unfolding down_link
  bus_lost l =
      let ended = other_error (lit "the connection to the session bus ended") in
      let (held, after) = down_link (no_session_bus ended) l in
      (if held then bus_step else gone, after)
