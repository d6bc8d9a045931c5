-- ===== src/Controller/Threads.antt =====
-- The goroutines of pkg/controller/controller.go under the mutex and the condition variable `cond`:
-- the two informers, which call the handlers one event at a time, and the workers. What a goroutine
-- does under the lock, after its loop of waits, is one turn.
pub mod Counts
pub mod Sync
pub mod Moved
pub mod Kept
pub mod WorkersKept
pub mod Reached
pub mod Energy
pub mod Progress
pub mod Settled
pub mod Served
pub mod Blocked
use lvs_nginx_controller.Base.{
  ℕ, zero, suc, ◌+◌, ◌≡◌, ◌≢◌, Bool, true, false, not, ◌&&◌, ◌||◌, List, [], ◌∷◌, ◌==◌, nat_eq,
  list_eq, length,
}
use lvs_nginx_controller.Base.Text.{Text}
use lvs_nginx_controller.Base.Dict.DeepEqual.{deep_equal}
use lvs_nginx_controller.Ipvs.Go.{ok}
use lvs_nginx_controller.Ipvs.System.{System}
use lvs_nginx_controller.Controller.Cluster.{same_data, Pod, ConfigMap, Client}
use lvs_nginx_controller.Controller.State.{Controller, Pointer, tcp_service, udp_service}
use lvs_nginx_controller.Controller.Handlers.{update_ports, addr_add_func, addr_update_func}
use lvs_nginx_controller.Controller.Worker.{process_func}
use lvs_nginx_controller.Controller.Threads.Counts.{Replaced, count}

-- The test of `addrUpdateFunc` before it locks; n is the namespace of the controller.
abbrev pub is_addressed : Text → Pod → Bool
is_addressed n pod = pod.namespace == n && not (pod.pod_ip == [])

-- The tests of `updatePorts` before it locks.
abbrev pub is_changed : ConfigMap → ConfigMap → Bool
is_changed old new = not (same_data old new) && (new.name == tcp_service || new.name == udp_service)

pub data Source : Type 0 where
  pods config_maps : Source

-- An event for which a handler locks.
pub data Event (n : Text) : Type 0 where
  pod_event : (old new : Pod) → is_addressed n old ≡ true → Event n
  map_event : (old new : ConfigMap) → is_changed old new ≡ true → Event n

abbrev pub source_of : {n : Text} → Event n → Source
source_of (pod_event old new h) = pods
source_of (map_event old new h) = config_maps

-- Where the goroutine of an informer stands.
pub data Phase (n : Text) : Type 0 where
  idle : Source → Phase n  -- no event is under way
  wanting : Event n → Phase n  -- at `cond.L.Lock()`, or woken up in `cond.Wait()`
  inside : Event n → Phase n  -- with the lock, at the test of the loop
  sleeping : Event n → Phase n  -- in `cond.Wait()`
  sent : Source → Phase n  -- after `cond.L.Unlock()`, before `cond.Signal()`

-- Where a worker stands.
pub data WorkerPhase : Type 0 where
  worker_wanting : WorkerPhase
  worker_inside : WorkerPhase
  worker_sleeping : WorkerPhase
  taken : WorkerPhase  -- after `cond.L.Unlock()`, before `cond.Broadcast()`

abbrev pub is_sleeping : {n : Text} → Phase n → Bool
is_sleeping (sleeping e) = true
is_sleeping _ = false

abbrev pub is_worker_sleeping : WorkerPhase → Bool
is_worker_sleeping worker_sleeping = true
is_worker_sleeping _ = false

-- What a wake-up makes of a goroutine.
abbrev pub woken : {n : Text} → Phase n → Phase n
woken (sleeping e) = wanting e
woken (idle s) = idle s
woken (wanting e) = wanting e
woken (inside e) = inside e
woken (sent s) = sent s

abbrev pub worker_woken : WorkerPhase → WorkerPhase
worker_woken worker_sleeping = worker_wanting
worker_woken worker_wanting = worker_wanting
worker_woken worker_inside = worker_inside
worker_woken taken = taken

abbrev pub wake_all : {n : Text} → List (Phase n) → List (Phase n)
wake_all [] = []
wake_all (p ∷ ps) = woken p ∷ wake_all ps

abbrev pub wake_workers : List WorkerPhase → List WorkerPhase
wake_workers [] = []
wake_workers (p ∷ ps) = worker_woken p ∷ wake_workers ps

-- `cond.Signal()` wakes any one of the goroutines that sleep, if there is one.
pub data Signal {n : Text} (hs hs' : List (Phase n)) (ws ws' : List WorkerPhase) : Type 0 where
  wakes_worker : Replaced worker_sleeping worker_wanting ws ws' → hs' ≡ hs → Signal hs hs' ws ws'
  wakes_handler :
      (e : Event n) → Replaced (sleeping e) (wanting e) hs hs' → ws' ≡ ws → Signal hs hs' ws ws'
  wakes_nobody :
      count is_sleeping hs ≡ 0
      → count is_worker_sleeping ws ≡ 0
      → hs' ≡ hs
      → ws' ≡ ws
      → Signal hs hs' ws ws'

module _ (S : System) (C : Client S.World) (n : Text) where
  -- The goroutines, whether one has locked the mutex, and what they share.
  pub record Threads : Type 0 where
    pub handlers : List (Phase n)
    pub workers : List WorkerPhase
    pub held : Bool
    pub shared : Controller S × S.World

  -- What a handler does with the lock.
  abbrev pub handle : Event n → Controller S × S.World → Controller S × S.World
  handle (pod_event old new h) s = addr_update_func S C old new s
  handle (map_event old new h) s = update_ports S C old new s

  -- A turn of a goroutine that has something to do.
  pub data Turn (s t : Threads) : Type 0 where
    locks :
        (e : Event n) (hs : List (Phase n))
        → Replaced (wanting e) (inside e) s.handlers hs
        → s.held ≡ false
        → t ≡ record s { handlers = hs; held = true }
        → Turn s t
    waits :
        (e : Event n) (hs : List (Phase n))
        → Replaced (inside e) (sleeping e) s.handlers hs
        → length s.shared.0.lbstore ≡ 3
        → t ≡ record s { handlers = hs; held = false }
        → Turn s t
    sends :
        (e : Event n) (hs : List (Phase n))
        → Replaced (inside e) (sent (source_of e)) s.handlers hs
        → length s.shared.0.lbstore ≢ 3
        → t ≡ record s { handlers = hs; held = false; shared = handle e s.shared }
        → Turn s t
    signals :
        (source : Source) (hs hs' : List (Phase n)) (ws : List WorkerPhase)
        → Replaced (sent source) (idle source) s.handlers hs
        → Signal hs hs' s.workers ws
        → t ≡ record s { handlers = hs'; workers = ws }
        → Turn s t
    worker_locks :
        (ws : List WorkerPhase)
        → Replaced worker_wanting worker_inside s.workers ws
        → s.held ≡ false
        → t ≡ record s { workers = ws; held = true }
        → Turn s t
    worker_waits :
        (ws : List WorkerPhase)
        → Replaced worker_inside worker_sleeping s.workers ws
        → s.shared.0.lbstore ≡ []
        → t ≡ record s { workers = ws; held = false }
        → Turn s t
    worker_takes :
        (ws : List WorkerPhase) (p : Pointer) (rest : List Pointer)
        → Replaced worker_inside taken s.workers ws
        → s.shared.0.lbstore ≡ p ∷ rest
        → (process_func S s.shared.0 p s.shared.1).0 ≡ ok tt
        → t ≡ record s {
          workers = ws;
          held = false;
          shared =
              (record s.shared.0 { lbstore = rest }, (process_func S s.shared.0 p s.shared.1).1);
        }
        → Turn s t
    worker_broadcasts :
        (ws : List WorkerPhase)
        → Replaced taken worker_wanting s.workers ws
        → t ≡ record s { handlers = wake_all s.handlers; workers = wake_workers ws }
        → Turn s t

  -- An informer calls a handler. `addrAddFunc` does not lock.
  pub data Arrival (s t : Threads) : Type 0 where
    arrives :
        (e : Event n) (hs : List (Phase n))
        → Replaced (idle (source_of e)) (wanting e) s.handlers hs
        → t ≡ record s { handlers = hs }
        → Arrival s t
    adds :
        (pod : Pod)
        → Replaced (idle pods) (idle pods) s.handlers s.handlers
        → t ≡ record s { shared = addr_add_func S C pod s.shared }
        → Arrival s t

  pub data Turns (s : Threads) : Threads → Type 0 where
    none_yet : Turns s s
    and_turn : {t u : Threads} → Turns s t → Turn t u → Turns s u

  pub data Execution (s : Threads) : Threads → Type 0 where
    at_start : Execution s s
    then_turn : {t u : Threads} → Execution s t → Turn t u → Execution s u
    then_arrival : {t u : Threads} → Execution s t → Arrival t u → Execution s u

  -- The loop of `Run` that starts the workers.
  abbrev pub started_workers : ℕ → List WorkerPhase
  started_workers zero = []
  started_workers (suc k) = worker_wanting ∷ started_workers k

  -- `Run`, once the caches have synced. The lock is held where `Initial` has left it held.
  unfoldable pub run : ℕ → Controller S → S.World → Threads
  run workers c w = record {
    handlers = idle pods ∷ idle config_maps ∷ [];
    workers = started_workers workers;
    held = c.locked;
    shared = (c, w);
  }
