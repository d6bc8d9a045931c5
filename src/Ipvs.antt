-- ===== src/Ipvs.antt =====
-- The provider that programs the kernel's table of virtual services (pkg/provider/ipvs/ipvsdr.go).
pub mod Go
pub mod System
pub mod Table
pub mod Manager
