-- ===== src/Tray/Watch/Follow.antt =====
-- crates/tray/src/watch.rs: attaching again, on one connection to the bus and on the next. A pause is
-- over when its delay is, or when something cuts it short; the delay counts as taken either way.
use rclone_vfsmount_tray.Prelude.{Bool, Option, none, some, List, [], ◌∷◌, if◌then◌else◌, Text}
use rclone_vfsmount_tray.Tray.Link.{ZbusError, no_session_bus, from_zbus, take, reset}
use rclone_vfsmount_tray.Tray.Model.{Action, NoticeText, take_action, set_notice}
use rclone_vfsmount_tray.Tray.Watch.{
  LinkStep, gone, now_step, backoff_step, bus_step, Bus, Linking, down_link, bus_lost,
}
use rclone_vfsmount_tray.Tray.Watch.Serve.{Event, Attachment, going, ended, attach_and_serve}

-- What the menu and the actions do to the tray in a pause.
pub data Deed : Type 0 where
  clicked : Action → Deed
  reported : Option Text → NoticeText → Option Bool → Deed

-- What ends a pause without a link.
pub data Wake : Type 0 where
  delay_over refresh_pressed : Wake

pub record Rest : Type 0 where
  pub deeds : List Deed
  pub wake : Wake

-- What ends a pause of `follow`, which hears of a new owner of the name as well.
pub data Pause : Type 0 where
  rested : Rest → Pause
  owner_changed : List Deed → Pause
  owners_over : List Deed → Pause

-- An attempt to attach: what its loop waits for, and the pause after it.
pub record Attempt : Type 0 where
  pub events : List Event
  pub pause : Pause

-- A connection to the bus that failed, for signals or for calls; or one on which the proxy of the bus
-- and the stream of owners were made or not, with the attempts on it.
pub data Connection : Type 0 where
  unconnected : ZbusError → Connection
  connected : (proxy owners : Option ZbusError) (attempts : List Attempt) → Connection

pub record Turn : Type 0 where
  pub connection : Connection
  pub rest : Rest

-- How far the loops have come.
pub data Following : Type 0 where
  serving between : Following
  over : LinkStep → Following

module _ (b : Bus) where
  unfoldable pub do_deed : Deed → Linking b → Linking b
  do_deed (clicked a) l = record l { model = (take_action l.model a).0 }
  do_deed (reported mount text answered_by) l = record l {
    model = set_notice l.model mount text answered_by;
  }

  unfoldable pub do_deeds : List Deed → Linking b → Linking b
  unfolding do_deed
  do_deeds [] l = l
  do_deeds (d ∷ ds) l = do_deeds ds (do_deed d l)

  -- `backoff.take()`, and what happens while the delay lasts.
  unfoldable pub pause_for : List Deed → Linking b → Linking b
  unfolding do_deeds
  pause_for deeds l = do_deeds deeds (record l { backoff = (take l.backoff).1 })

  unfoldable pub rest_for : Rest → Linking b → Linking b
  unfolding pause_for
  rest_for r l =
      let after = pause_for r.deeds l in
      elim r.wake [
        | delay_over ↦ after
        | refresh_pressed ↦ record after { backoff = reset after.backoff }
      ]

  abbrev pub Followed : Type 0
  Followed = Following × Linking b

  unfoldable pub pause_then : Pause → Linking b → (Linking b → Followed) → Followed
  unfolding rest_for pause_for
  pause_then (rested r) l next = next (rest_for r l)
  pause_then (owner_changed deeds) l next = next (pause_for deeds l)
  pause_then (owners_over deeds) l next =
      let (step, after) = bus_lost b (pause_for deeds l) in (over step, after)

  -- What `follow` does once an attempt has ended.
  unfoldable pub follow_on : Attachment × Linking b → Pause → (Linking b → Followed) → Followed
  unfolding pause_then
  follow_on (going, l) pause next = (serving, l)
  follow_on (ended gone, l) pause next = (over gone, l)
  follow_on (ended bus_step, l) pause next = (over bus_step, l)
  follow_on (ended now_step, l) pause next = next l
  follow_on (ended backoff_step, l) pause next = pause_then pause l next

  unfoldable pub follow_attempts : List Attempt → Linking b → Followed
  unfolding follow_on
  follow_attempts [] l = (between, l)
  follow_attempts (a ∷ attempts) l =
      follow_on (attach_and_serve b a.events l) a.pause (follow_attempts attempts)

  unfoldable pub follow : (proxy owners : Option ZbusError) → List Attempt → Linking b → Followed
  unfolding follow_attempts
  follow (some e) owners attempts l = (over bus_step, (down_link b (from_zbus e) l).1)
  follow none (some e) attempts l = (over bus_step, (down_link b (from_zbus e) l).1)
  follow none none attempts l = follow_attempts attempts l

  -- What `link` does once a connection is finished.
  unfoldable pub link_on : Followed → Rest → (Linking b → Followed) → Followed
  unfolding rest_for
  link_on (serving, l) rest next = (serving, l)
  link_on (between, l) rest next = (between, l)
  link_on (over gone, l) rest next = (over gone, l)
  link_on (over _, l) rest next = next (rest_for rest l)

  unfoldable pub connect : Connection → Linking b → Followed
  unfolding follow
  connect (unconnected e) l =
      let (held, after) = down_link b (no_session_bus e) l in
      (over (if held then bus_step else gone), after)
  connect (connected proxy owners attempts) l = follow proxy owners attempts l

  unfoldable pub link : List Turn → Linking b → Followed
  unfolding connect link_on
  link [] l = (between, l)
  link (t ∷ turns) l = link_on (connect t.connection l) t.rest (link turns)
