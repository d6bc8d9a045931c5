-- ===== src/Controller.antt =====
-- The controller that turns Kubernetes events into changes of the kernel's table
-- (pkg/controller/controller.go).
pub mod Cluster
pub mod State
pub mod Listing
pub mod Handlers
pub mod Collect
pub mod Updates
pub mod UdpUpdates
pub mod Unique
pub mod Worker
pub mod Pods
pub mod Steps
pub mod Listed
pub mod Routing
pub mod Reconcile
pub mod FirstPass
pub mod Drain
pub mod Panic
pub mod PodPass
pub mod Threads
pub mod UdpPass
pub mod Processing
