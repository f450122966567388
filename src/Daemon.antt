-- ===== src/Daemon.antt =====
-- daemon.rs: the life of the daemon on Unix, from its socket to the shutdown of its devices. The calls of the
-- operating system are functions on a type of worlds.
pub mod Cleanup
use rusbmux.Base.{ℕ, Bool, true, false, Option, none, some, List, [], ◌∷◌}
use rusbmux.Extern.{Extern}
use rusbmux.Error.{Result, ok, err, RusbmuxError}
use rusbmux.Conn.{Progress, done, failed, pending}
use rusbmux.Devices
use rusbmux.Devices.{Device}
use rusbmux.Watcher.{Connected}

-- How the shutdown of one device ended: it succeeded, or its error was logged.
pub data Ended : Type 0 where
  stopped : Device → Ended
  logged : RusbmuxError → Ended

abbrev pub push : ℕ → Ended → Option (List (ℕ × Ended)) → Option (List (ℕ × Ended))
push id e none = none
push id e (some ends) = some ((id, e) ∷ ends)

-- The devices are asked one after the other; one whose shutdown never returns holds up the rest, which is `none`.
-- `gone` says of each device whether its aborted writer has already left its channel.
module _ (x : Extern) (gone : ℕ → Bool) where
  abbrev pub after_one : ℕ → Progress Device → Option (List (ℕ × Ended)) → Option (List (ℕ × Ended))
  after_one id (done d) rest = push id (stopped d) rest
  after_one id (failed e) rest = push id (logged e) rest
  after_one id pending rest = none

  unfoldable pub cleanup : Connected → Option (List (ℕ × Ended))
  cleanup [] = some []
  cleanup ((id, d) ∷ m) = let rest = cleanup m in after_one id (Devices.shutdown x (gone id) d) rest

-- `start_accepting`: a task for each connection that can be accepted.
unfoldable pub start_accepting : {Socket : Type 0} → List (Result Socket) → List Socket
start_accepting [] = []
start_accepting (ok socket ∷ accepted) = socket ∷ start_accepting accepted
start_accepting (err e ∷ accepted) = start_accepting accepted

-- What `run` calls. A failure of the calls that give a Bool, and of `create_lockdown_dir`, is logged.
pub record Host (World : Type 0) : Type 0 where
  pub socket_exists : World → Bool
  pub remove_file : World → World × Bool
  pub bind : World → World × Result (Unit {0})
  pub create_dir_all : World → World × Result (Unit {0})
  pub set_socket_reuseaddr : World → World × Bool
  pub set_permissions : World → World × Bool
  pub spawn_watchers : World → World
  -- Whether a handler for SIGTERM can be registered.
  pub registers : World → Bool
  -- The clients that are served until a signal comes: Ctrl+C, or SIGTERM where its handler is registered.
  pub serve : World → World
  pub clean : World → World

module _ {World : Type 0} (host : Host World) where
  abbrev remove_old : Bool → World → World
  remove_old true w = (host.remove_file w).0
  remove_old false w = w

  -- handler/mod.rs
  unfoldable pub create_lockdown_dir : World → World × Result (Unit {0})
  create_lockdown_dir w = host.create_dir_all w

  -- The `select!`: without the handler `wait_shutdown` returns at once.
  abbrev pub wait_for_end : Bool → World → World
  wait_for_end true w = host.clean (host.serve w)
  wait_for_end false w = host.clean w

  abbrev serving : World → World
  serving w =
      let w1 = (create_lockdown_dir w).0 in
      let w2 = (host.set_socket_reuseaddr w1).0 in
      let w3 = (host.set_permissions w2).0 in
      let w4 = host.spawn_watchers w3 in wait_for_end (host.registers w4) w4

  abbrev pub bound : World × Result (Unit {0}) → World × Result (Unit {0})
  bound (w, err e) = (w, err e)
  bound (w, ok t) = (serving w, ok tt)

  unfoldable pub run : World → World × Result (Unit {0})
  unfolding create_lockdown_dir
  run w = bound (host.bind (remove_old (host.socket_exists w) w))
