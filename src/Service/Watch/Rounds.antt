-- ===== src/Service/Watch/Rounds.antt =====
-- crates/service/src/watch.rs: what one round of polling adds to the registry.
use rclone_vfsmount_tray.Prelude.{
  ℕ, ◌+◌, ◌*◌, ◌≡◌, refl, sym, ap, ◌∙◌, subst, ◌⊎◌, inl, inr, Bool, true, ◌||◌, Option, none, some,
  List, [], ◌∷◌, arith, if◌then◌else◌, Bool-cases, Option-cases, is_some, Text, text_eq,
  text_eq_iff, Map, get, remove, get-insert, get-remove,
}
use rclone_vfsmount_tray.Core.Capabilities.{Tier}
use rclone_vfsmount_tray.Core.Ipc.{transfer_view}
use rclone_vfsmount_tray.Core.Transfer.{TransferState}
use rclone_vfsmount_tray.Service.Supervisor.Mounting.{socket_path}
use rclone_vfsmount_tray.Service.Registry.{Registry, note_tier}
use rclone_vfsmount_tray.Service.Registry.Sweep.{observe_transfer_lem}
use rclone_vfsmount_tray.Service.Poller.{MountPoller, connect_poller, interval}
use rclone_vfsmount_tray.Service.Poller.Round.{poll}
use rclone_vfsmount_tray.Service.Poller.Honest.{poll-IsHonest}
use rclone_vfsmount_tray.Service.Watch.{
  Machine, answered_tier, retain, remove_all, contains, rclone_at, Watcher, poller_for, note_answer,
  record_poll, poll_now, is_early, poll_one, poll_names, second,
}

-- Whether there is something under a key.
abbrev pub holds {ℓ} : {V : Type ℓ} → Map V → Text → Bool
holds m k = is_some (get m k)

pub get-retain {ℓ} :
    {V : Type ℓ} (keep : Text → Bool) (m : Map V) (k : Text)
    → get (retain keep m) k ≡ (if keep k then get m k else none)
unfolding get retain
get-retain keep [] k = ground arith
get-retain keep ((j, v) ∷ m) k = ground (arith, text_eq_iff j k, get-retain keep m k)

pub get-remove_all {ℓ} :
    {V : Type ℓ} (ks : List Text) (m : Map V) (k : Text)
    → get (remove_all ks m) k ≡ (if contains ks k then none else get m k)
unfolding remove_all
get-remove_all [] m k = refl
get-remove_all (j ∷ ks) m k = ground (arith, get-remove_all ks (remove m j) k, get-remove m j k)

module _ (m : Machine) where
  -- A mount that is not to be polled yet has a reading, and a poller is of the mount it is kept under.
  pub record IsKept (s : Watcher m) : Type 0 where
    pub has_reading : (k : Text) → holds s.due k ≡ true → holds s.registry.transfers k ≡ true
    pub of_mount : (k : Text) (p : MountPoller m.floats) → get s.pollers k ≡ some p → p.name ≡ k

  note_tier-transfers : (r : Registry) (t : Tier) → (note_tier r t).0.transfers ≡ r.transfers
  unfolding note_tier
  note_tier-transfers r t = ground arith

  note_answer-transfers :
      (r : Registry) (t : Option Tier) → (note_answer m r t).0.transfers ≡ r.transfers
  unfolding note_answer
  note_answer-transfers r none = refl
  note_answer-transfers r (some t) = note_tier-transfers r t

  note_tier-mounts : (r : Registry) (t : Tier) → (note_tier r t).0.mounts ≡ r.mounts
  unfolding note_tier
  note_tier-mounts r t = ground arith

  note_answer-mounts : (r : Registry) (t : Option Tier) → (note_answer m r t).0.mounts ≡ r.mounts
  unfolding note_answer
  note_answer-mounts r none = refl
  note_answer-mounts r (some t) = note_tier-mounts r t

  -- What recording a poll's state does to the readings.
  record_poll-holds :
      (name : Text) (state : TransferState) (p : MountPoller m.floats) (w : m.World) (s : Watcher m)
      (k : Text)
      → holds (record_poll m name state p w s).0.registry.transfers k
        ≡ (text_eq state.mount k || holds s.registry.transfers k)
  unfolding record_poll transfer_view
  record_poll-holds name state p w s k =
      let r = rclone_at m (socket_path s.runtime_dir name) in
      let noted = (note_answer m s.registry (answered_tier r p)).0 in
      ground (
        arith,
        (observe_transfer_lem noted (transfer_view state) k).0,
        note_answer-transfers s.registry (answered_tier r p),
      )

  record_poll-mounts :
      (name : Text) (state : TransferState) (p : MountPoller m.floats) (w : m.World) (s : Watcher m)
      → (record_poll m name state p w s).0.registry.mounts ≡ s.registry.mounts
  unfolding record_poll
  record_poll-mounts name state p w s =
      let r = rclone_at m (socket_path s.runtime_dir name) in
      let noted = (note_answer m s.registry (answered_tier r p)).0 in
      (observe_transfer_lem noted (transfer_view state) name).1
      ∙ note_answer-mounts s.registry (answered_tier r p)

  record_poll-due :
      (name : Text) (state : TransferState) (p : MountPoller m.floats) (w : m.World) (s : Watcher m)
      (k : Text)
      → holds (record_poll m name state p w s).0.due k ≡ (text_eq name k || holds s.due k)
  unfolding record_poll
  record_poll-due name state p w s k =
      ground (arith, get-insert s.due name (m.now w + interval state s.config.poll * second) k)

  record_poll-pollers :
      (name : Text) (state : TransferState) (p : MountPoller m.floats) (w : m.World) (s : Watcher m)
      (k : Text)
      → get (record_poll m name state p w s).0.pollers k
        ≡ (if text_eq name k then some p else get s.pollers k)
  unfolding record_poll
  record_poll-pollers name state p w s k = get-insert s.pollers name p k

  -- The poller that a mount is polled with is one of that mount.
  poller_for-name : (name : Text) (s : Watcher m) → IsKept s → (poller_for m name s).0.name ≡ name
  unfolding poller_for connect_poller
  poller_for-name name s h = elim (Option-cases (get s.pollers name)) [
    | inl e ↦ ground (arith, e)
    | inr (p, e) ↦ ground (arith, e, h.of_mount name p e)
  ]

  -- The poll behind `poll_now`.
  abbrev poll_of : Text → Watcher m → TransferState × MountPoller m.floats × m.World
  poll_of name s =
      let (p, w) = poller_for m name s in poll (rclone_at m (socket_path s.runtime_dir name)) p w

  poll_of-names :
      (name : Text) (s : Watcher m)
      → IsKept s
      → ((poll_of name s).0.mount ≡ name) × ((poll_of name s).1.name ≡ name)
  poll_of-names name s h =
      let (p, w) = poller_for m name s in
      let honest = poll-IsHonest (rclone_at m (socket_path s.runtime_dir name)) p w in
      let same = poller_for-name name s h in (honest.0 ∙ same, honest.1 ∙ same)

  poll_now-holds :
      (name : Text) (s : Watcher m) (k : Text)
      → IsKept s
      → holds (poll_now m name s).0.registry.transfers k
        ≡ (text_eq name k || holds s.registry.transfers k)
  unfolding poll_now
  poll_now-holds name s k h =
      let (state, after, last) = poll_of name s in
      record_poll-holds name state after last s k
      ∙ ap (λ n. text_eq n k || holds s.registry.transfers k) (poll_of-names name s h).0

  poll_now-IsKept : (name : Text) (s : Watcher m) → IsKept s → IsKept (poll_now m name s).0
  unfolding poll_now
  poll_now-IsKept name s h =
      let (state, after, last) = poll_of name s in
      record {
        has_reading = λ k due. ground (
          arith,
          due,
          poll_now-holds name s k h,
          record_poll-due name state after last s k,
          h.has_reading k,
        );
        of_mount = λ k p found. elim (Bool-cases (text_eq name k)) [
          | inl e ↦ cc (
            found,
            record_poll-pollers name state after last s k,
            e,
            (text_eq_iff name k).0 e,
            (poll_of-names name s h).1,
          )
          | inr e ↦ h.of_mount k p (cc (found, record_poll-pollers name state after last s k, e))
        ];
      }

  poll_now-mounts :
      (name : Text) (s : Watcher m) → (poll_now m name s).0.registry.mounts ≡ s.registry.mounts
  unfolding poll_now
  poll_now-mounts name s =
      let (state, after, last) = poll_of name s in record_poll-mounts name state after last s

  poll_one-cases :
      (now : ℕ) (name : Text) (s : Watcher m)
      → ((poll_one m now name s).0 ≡ (poll_now m name s).0)
        ⊎ (((poll_one m now name s).0 ≡ s) × (holds s.due name ≡ true))
  unfolding poll_one is_early
  poll_one-cases now name s = ground arith

  poll_one-IsKept :
      (now : ℕ) (name : Text) (s : Watcher m) → IsKept s → IsKept (poll_one m now name s).0
  poll_one-IsKept now name s h = elim (poll_one-cases now name s) [
    | inl e ↦ subst IsKept (sym e) (poll_now-IsKept name s h)
    | inr (e, _) ↦ subst IsKept (sym e) h
  ]

  -- A round leaves each reading that was there, and one for the mount that it is about.
  poll_one-holds :
      (now : ℕ) (name : Text) (s : Watcher m) (k : Text)
      → IsKept s
      → (text_eq name k || holds s.registry.transfers k) ≡ true
      → holds (poll_one m now name s).0.registry.transfers k ≡ true
  poll_one-holds now name s k h there = elim (poll_one-cases now name s) [
    | inl e ↦ ap (λ t. holds t.registry.transfers k) e ∙ poll_now-holds name s k h ∙ there
    | inr (e, due) ↦
        ap (λ t. holds t.registry.transfers k) e
        ∙ ground (arith, there, h.has_reading name due, text_eq_iff name k)
  ]

  poll_one-mounts :
      (now : ℕ) (name : Text) (s : Watcher m)
      → (poll_one m now name s).0.registry.mounts ≡ s.registry.mounts
  poll_one-mounts now name s = elim (poll_one-cases now name s) [
    | inl e ↦ ap (λ t. t.registry.mounts) e ∙ poll_now-mounts name s
    | inr (e, _) ↦ ap (λ t. t.registry.mounts) e
  ]

  pub poll_names-mounts :
      (now : ℕ) (names : List Text) (s : Watcher m)
      → (poll_names m now names s).0.registry.mounts ≡ s.registry.mounts
  unfolding poll_names
  poll_names-mounts now [] s = refl
  poll_names-mounts now (name ∷ names) s =
      poll_names-mounts now names (poll_one m now name s).0 ∙ poll_one-mounts now name s

  -- After the rounds for these mounts each of them has a reading, and so has what had one before.
  pub poll_names-reads :
      (now : ℕ) (names : List Text) (s : Watcher m)
      → IsKept s
      → let after = (poll_names m now names s).0 in
        IsKept after
        × (after.registry.mounts ≡ s.registry.mounts)
        × ((k : Text)
            → (contains names k || holds s.registry.transfers k) ≡ true
            → holds after.registry.transfers k ≡ true)
  unfolding poll_names
  poll_names-reads now [] s h = (h, refl, λ k e. e)
  poll_names-reads now (name ∷ names) s h =
      let next = (poll_one m now name s).0 in
      let (kept, same, read) = poll_names-reads now names next (poll_one-IsKept now name s h) in
      (
        kept,
        same ∙ poll_one-mounts now name s,
        λ k e. read k (ground (arith, e, poll_one-holds now name s k h)),
      )
