-- ===== src/Controller/Threads/Moved.antt =====
-- What one move of a goroutine does to the number of goroutines in each phase.
use lvs_nginx_controller.Base.{◌+◌, ◌≡◌, List, nat_eq, list_eq, if◌then◌else◌, length}
use lvs_nginx_controller.Base.Text.{Text}
use lvs_nginx_controller.Controller.Threads.{Phase, WorkerPhase, is_sleeping, is_worker_sleeping}
use lvs_nginx_controller.Controller.Threads.Counts.{
  Replaced, count, total-Replaced, length-Replaced,
}
use lvs_nginx_controller.Controller.Threads.Sync.{
  is_inside, is_sent, is_worker_inside, is_worker_wanting, is_taken, worker_phases,
}

-- How the counts change when one handler goes from a phase to another.
pub record Moved {n : Text} (p q : Phase n) (hs hs' : List (Phase n)) : Type 0 where
  pub sleepers :
      count is_sleeping hs' + (if is_sleeping p then 1 else 0)
      ≡ count is_sleeping hs + (if is_sleeping q then 1 else 0)
  pub insiders :
      count is_inside hs' + (if is_inside p then 1 else 0)
      ≡ count is_inside hs + (if is_inside q then 1 else 0)
  pub senders :
      count is_sent hs' + (if is_sent p then 1 else 0)
      ≡ count is_sent hs + (if is_sent q then 1 else 0)
  pub as_many : length hs' ≡ length hs

pub moved :
    {n : Text} {p q : Phase n} {hs hs' : List (Phase n)} → Replaced p q hs hs' → Moved p q hs hs'
moved r = record {
  sleepers = total-Replaced _ r;
  insiders = total-Replaced _ r;
  senders = total-Replaced _ r;
  as_many = length-Replaced r;
}

-- The same of the workers.
pub record WorkerMoved (p q : WorkerPhase) (ws ws' : List WorkerPhase) : Type 0 where
  pub sleepers :
      count is_worker_sleeping ws' + (if is_worker_sleeping p then 1 else 0)
      ≡ count is_worker_sleeping ws + (if is_worker_sleeping q then 1 else 0)
  pub insiders :
      count is_worker_inside ws' + (if is_worker_inside p then 1 else 0)
      ≡ count is_worker_inside ws + (if is_worker_inside q then 1 else 0)
  pub takers :
      count is_taken ws' + (if is_taken p then 1 else 0)
      ≡ count is_taken ws + (if is_taken q then 1 else 0)
  pub as_many : length ws' ≡ length ws
  pub phases :
      count is_worker_sleeping ws'
        + count is_taken ws'
        + count is_worker_inside ws'
        + count is_worker_wanting ws'
      ≡ length ws'

pub worker_moved :
    {p q : WorkerPhase} {ws ws' : List WorkerPhase} → Replaced p q ws ws' → WorkerMoved p q ws ws'
worker_moved {ws' = ws'} r = record {
  sleepers = total-Replaced _ r;
  insiders = total-Replaced _ r;
  takers = total-Replaced _ r;
  as_many = length-Replaced r;
  phases = worker_phases ws';
}
