-- ===== src/Core/Message.antt =====
-- The sentences that the service shows. A sentence is the template it is formatted from, with the
-- values put in; `said` is text that came from elsewhere.
use rclone_vfsmount_tray.Prelude.{ℕ, Text, ℕ_discrete}
use rclone_vfsmount_tray.Core.Rc.{RcError}

pub data Message : Type 0 where
  said : Text → Message
  -- transfer.rs and registry.rs
  no_write_back_queue : Message
  started_outside : Message
  no_configuration : Message
  not_polled_yet : Message
  not_serving : Message
  not_swept_yet : Message
  -- poller.rs
  rc_error : RcError → Message
  no_rc_commands : Message
  neither_queue_nor_cache : Message
  neither_queue_nor_stats : Message
  cache_but_no_queue : Message
  mode_minimal : Message
  mode_not_queued : Message
  mode_unrecognised : Message
  queue_but_no_cache : Message
  no_vfs_stats : Message
  scan_timed_out : RcError → Message
  cache_gone : RcError → Message
  cache_unreadable : RcError → Text → Message
  scan_panicked : RcError → Text → Message
  read_from_cache : RcError → ℕ → Message
  entries_unreadable : ℕ → Message
  too_large_to_walk : Message
  cache_is_floor : Message
  cache_mode_never_reported : Message
  joined : Message → Message → Message
  -- service/src/supervisor.rs
  still_held_by : Text → Text → Text → Text → Message
  serving_elsewhere : Text → Text → Text → Text → Message
  not_responding : Text → Message
  still_served_by : Text → Text → Text → Message
  did_not_start : Text → ℕ → Message → Message
  logged_nothing : Text → Message
  runtime_directory : Text → Text → Message
  shutting_down : Text → ℕ → Message
  leftover_unit : Text → Text → Message
  still_serving : Text → Text → Text → Message
  mounted_by_other : Text → Text → Message
  gave_up_waiting : Text → Text → Text → Message
  named : Text → Message
  serving_other_source : Text → Text → Text → Text → Message
  still_mounted : Text → Message
  could_not_unmount : Text → Text → Message
  running_fusermount : Text → Text → Message
  in_use : Message → Text → Message

pub RcError-discrete : Discrete RcError
RcError-discrete = hlevel ℕ_discrete

pub Message-discrete : Discrete Message
Message-discrete = hlevel (ℕ_discrete, RcError-discrete)
