-- ===== src/Lib.antt =====
-- rclone-vfsmount-tray: a service that supervises rclone mounts as transient systemd units and polls
-- what they have still to upload, and a tray that shows it. The service publishes mounts and
-- readings on D-Bus; the tray holds a copy of them.
--
-- Prelude: lists, texts as lists of code points, 64-bit arithmetic and ordered maps as association
--   lists.
-- Core: crates/core/src. Rc (rc.rs) has the errors of the rc socket and the names of the sockets;
--   Models (models.rs), Capabilities (capabilities.rs), Scan (scan.rs) and Transfer (transfer.rs) go
--   from the answers of rclone to a reading of what is outstanding; Units and Config (config.rs)
--   have the validation, the unit names and, in Config/Args, the arguments of rclone; Ipc (ipc.rs)
--   has what crosses the bus; Mountinfo (mountinfo.rs) reads the mount table; Supervisor
--   (supervisor.rs) has the states and errors of a mount. Core/Scan/Walk (scan.rs) is the walk of a
--   cache, Core/Discovery (rclone.rs) the search for rclone and Core/Transfer/Rate (transfer.rs) the
--   estimate of a rate. A message is a value of Core/Message, one constructor for each sentence of the
--   source with the values that it names.
-- Service: crates/service/src. Registry (registry.rs) keeps mounts and readings and says what
--   changed; Units (systemd.rs, orphan_name of supervisor.rs) has units and their names; Redact
--   (redact_extra_args of supervisor.rs) takes secrets out of a log; Supervisor (supervisor.rs) has the
--   operations: Waiting its loops, Orphans the sweep for units that the configuration does not
--   place, States `resolve`, `state` and `reconcile`, Unmounting `unmount` and Mounting `mount` and
--   `prepare_for_start`.
--   Poller (poller.rs) polls one mount over its rc socket, against an Rclone that answers each call;
--   Watch (watch.rs) has the ticks of the loop that sweeps the mounts, polls those that are due and
--   records both in the registry.
-- Tray: crates/tray/src. Link (link.rs) has the errors of the bus and the delays between attempts;
--   Model (model.rs) has the copy of the service's state and the lines drawn from it, Wrap (model.rs)
--   the wrapping of a notice; Watch (watch.rs) attaches to the service and edits the model by what
--   the service sends, Watch/Follow (watch.rs) attaches again and
--   Act (watch.rs) carries out what the menu asks for.
-- Examples: the theorems at concrete inputs.
--
-- The supervisor runs against a Host (Service/Host): systemd, the mount table, the file system, the
-- locks and the clock are functions of a world of any type, so whatever another process does between
-- two calls is included. An operation is a function from a world and a trace to an outcome, a world
-- and a trace; the trace has the calls that change something and what the mount table showed. The
-- code's `?` is the bind of that monad, and the order of the calls is the code's.
--
-- The poller and the watcher run the same way against records of the calls that they make
-- (Service/Poller, Service/Watch), and the tray against the calls of an attachment and the sequence
-- of what it is sent (Tray/Watch).
--
-- A waiting loop runs on fuel: a round sleeps 250 ms, and the fuel of a wait is its timeout divided by
-- 250, and two. That is enough on a monotonic clock. The walk of a cache runs on its cap and two more
-- rounds, since each directory but the root was counted as an entry.
--
-- A path is a text. Where the code compares paths the model compares their components (`path_eq` of
-- Core/Mountinfo).
--
-- Numbers are natural numbers; where the code adds in 64 bits the model wraps or saturates as the
-- code does. Logging is left out. Floating point is a parameter.
-- Not modelled: D-Bus, HTTP, TOML and JSON; what rclone is asked once it was found (config_paths and
-- list_remotes of rclone.rs); the D-Bus interface of the service (dbus.rs); the menu, the D-Bus client
-- and the icon of the tray (menu.rs, client.rs, sni.rs); what starts the tray and hands the menu's
-- actions on (`run` in tray/src/watch.rs); the rendering of byte counts.
pub mod Prelude
pub mod Core
pub mod Service
pub mod Tray
pub mod Examples
