-- ===== src/Tray/Watch/Settled.antt =====
-- crates/tray/src/watch.rs: whatever the loops have come to, the tray shows a service only while there
-- is a link to it.
use rclone_vfsmount_tray.Prelude.{
  ◌≡◌, refl, ap, ◌∙◌, Bool, true, false, none, some, List, [], ◌∷◌, if◌then◌else◌,
}
use rclone_vfsmount_tray.Tray.Link.{LinkError, no_session_bus, from_zbus}
use rclone_vfsmount_tray.Tray.Model.{go_down, take_action, set_notice}
use rclone_vfsmount_tray.Tray.Watch.{
  gone, now_step, backoff_step, bus_step, Bus, Linking, down_link, update,
}
use rclone_vfsmount_tray.Tray.Watch.Serve.{Attachment, going, ended, attach_and_serve}
use rclone_vfsmount_tray.Tray.Watch.Dropped.{
  is_up, IsDropped, IsServing, EndsWell, IsOrderly, attach_and_serve-IsOrderly, bus_lost-EndsWell,
  bus_lost_when,
}
use rclone_vfsmount_tray.Tray.Watch.Follow.{
  Deed, clicked, reported, Wake, delay_over, refresh_pressed, Rest, Pause, rested, owner_changed,
  owners_over, Attempt, Connection, unconnected, connected, Turn, serving, between, over, do_deed,
  do_deeds, pause_for, rest_for, Followed, pause_then, follow_on, follow_attempts, follow, link_on,
  connect, link,
}

module _ (b : Bus) where
  -- Serving, there is a link; otherwise nothing of the service is shown, if the tray is still there.
  abbrev pub IsSettled : Followed b → Type 0
  IsSettled (serving, l) = IsServing b l
  IsSettled (between, l) = IsDropped b l
  IsSettled (over s, l) = EndsWell b s l

  still-IsDropped :
      (l after : Linking b)
      → after.model.link ≡ l.model.link
      → after.model.mounts ≡ l.model.mounts
      → after.model.transfers ≡ l.model.transfers
      → after.attached ≡ l.attached
      → IsDropped b l
      → IsDropped b after
  still-IsDropped l after e0 e1 e2 e3 h = record {
    not_up = ap is_up e0 ∙ h.not_up;
    no_mounts = e1 ∙ h.no_mounts;
    no_readings = e2 ∙ h.no_readings;
    no_proxy = e3 ∙ h.no_proxy;
  }

  do_deeds-IsDropped :
      (ds : List Deed) (l : Linking b) → IsDropped b l → IsDropped b (do_deeds b ds l)
  unfolding do_deeds do_deed take_action set_notice
  do_deeds-IsDropped [] l h = h
  do_deeds-IsDropped (clicked a ∷ ds) l h =
      do_deeds-IsDropped ds _ (still-IsDropped _ _ refl refl refl refl h)
  do_deeds-IsDropped (reported mount text answered_by ∷ ds) l h =
      do_deeds-IsDropped ds _ (still-IsDropped _ _ refl refl refl refl h)

  pause_for-IsDropped :
      (ds : List Deed) (l : Linking b) → IsDropped b l → IsDropped b (pause_for b ds l)
  unfolding pause_for
  pause_for-IsDropped ds l h = do_deeds-IsDropped ds _ (still-IsDropped _ _ refl refl refl refl h)

  wake-IsDropped :
      (ds : List Deed) (wake : Wake) (l : Linking b)
      → IsDropped b l
      → IsDropped b (rest_for b (record { deeds = ds; wake = wake }) l)
  unfolding rest_for
  wake-IsDropped ds delay_over l h = pause_for-IsDropped ds l h
  wake-IsDropped ds refresh_pressed l h =
      let k = pause_for-IsDropped ds l h in still-IsDropped _ _ refl refl refl refl k

  -- A continuation that keeps the tray settled.
  abbrev Settles : (Linking b → Followed b) → Type 0
  Settles next = (l : Linking b) → IsDropped b l → IsSettled (next l)

  pause_then-IsSettled :
      (p : Pause) (l : Linking b) (next : Linking b → Followed b)
      → IsDropped b l
      → Settles next
      → IsSettled (pause_then b p l next)
  unfolding pause_then
  pause_then-IsSettled (rested r) l next h k = k _ (wake-IsDropped r.deeds r.wake l h)
  pause_then-IsSettled (owner_changed ds) l next h k = k _ (pause_for-IsDropped ds l h)
  pause_then-IsSettled (owners_over ds) l next h k = bus_lost-EndsWell b (pause_for b ds l)

  follow_on-IsSettled :
      (out : Attachment × Linking b) (p : Pause) (next : Linking b → Followed b)
      → IsOrderly b out
      → Settles next
      → IsSettled (follow_on b out p next)
  unfolding follow_on
  follow_on-IsSettled (going, l) p next h k = h
  follow_on-IsSettled (ended gone, l) p next h k = tt
  follow_on-IsSettled (ended bus_step, l) p next h k = h
  follow_on-IsSettled (ended now_step, l) p next h k = k l h
  follow_on-IsSettled (ended backoff_step, l) p next h k = pause_then-IsSettled p l next h k

  follow_attempts-IsSettled :
      (attempts : List Attempt) (l : Linking b)
      → IsDropped b l
      → IsSettled (follow_attempts b attempts l)
  unfolding follow_attempts
  follow_attempts-IsSettled [] l h = h
  follow_attempts-IsSettled (a ∷ attempts) l h =
      follow_on-IsSettled (attach_and_serve b a.events l) a.pause (follow_attempts b attempts)
        (attach_and_serve-IsOrderly b a.events l) (follow_attempts-IsSettled attempts)

  told_when :
      (held : Bool) (e : LinkError) (l : Linking b) (w : b.World)
      → IsDropped b l
      → IsDropped b (record l {
        model = if held then go_down l.model e else l.model;
        attached = false;
        world = w;
      })
  unfolding go_down
  told_when true e l w h = record {
    not_up = refl;
    no_mounts = refl;
    no_readings = refl;
    no_proxy = refl;
  }
  told_when false e l w h = record {
    not_up = h.not_up;
    no_mounts = h.no_mounts;
    no_readings = h.no_readings;
    no_proxy = refl;
  }

  -- A tray that showed nothing shows nothing of a service that is down, whether it is told or not.
  down_link-IsDropped :
      (e : LinkError) (l : Linking b) → IsDropped b l → IsDropped b (down_link b e l).1
  unfolding down_link update
  down_link-IsDropped e l h = let (held, w) = b.holds_tray l.world in told_when held e l w h

  connect-IsSettled : (c : Connection) (l : Linking b) → IsDropped b l → IsSettled (connect b c l)
  unfolding connect follow down_link update
  connect-IsSettled (unconnected e) l h =
      let (held, w) = b.holds_tray l.world in bus_lost_when b held (no_session_bus e) l w
  connect-IsSettled (connected (some e) owners attempts) l h = down_link-IsDropped (from_zbus e) l h
  connect-IsSettled (connected none (some e) attempts) l h = down_link-IsDropped (from_zbus e) l h
  connect-IsSettled (connected none none attempts) l h = follow_attempts-IsSettled attempts l h

  link_on-IsSettled :
      (out : Followed b) (r : Rest) (next : Linking b → Followed b)
      → IsSettled out
      → Settles next
      → IsSettled (link_on b out r next)
  unfolding link_on
  link_on-IsSettled (serving, l) r next h k = h
  link_on-IsSettled (between, l) r next h k = h
  link_on-IsSettled (over gone, l) r next h k = tt
  link_on-IsSettled (over now_step, l) r next h k = k _ (wake-IsDropped r.deeds r.wake l h)
  link_on-IsSettled (over backoff_step, l) r next h k = k _ (wake-IsDropped r.deeds r.wake l h)
  link_on-IsSettled (over bus_step, l) r next h k = k _ (wake-IsDropped r.deeds r.wake l h)

  -- From a linker that shows nothing, whatever the connections, the attempts on them, what they wait
  -- for and what ends their pauses are, what the menu does included: while the linker serves, the tray
  -- shows a link and the proxy is published; while it does not, it shows no link, no mount and no
  -- reading, and no proxy is published, unless the panel dropped the tray.
  pub link-IsSettled :
      (turns : List Turn) (l : Linking b) → IsDropped b l → IsSettled (link b turns l)
  unfolding link
  link-IsSettled [] l h = h
  link-IsSettled (t ∷ turns) l h =
      link_on-IsSettled (connect b t.connection l) t.rest (link b turns)
        (connect-IsSettled t.connection l h) (link-IsSettled turns)
