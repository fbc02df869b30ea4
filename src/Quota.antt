-- ===== src/Quota.antt =====
-- Quotas as the admin enters them: CPU in tenths of a core (src/internal/mgr/cpu.go), and the
-- monthly traffic (src/internal/mgr/traffic.go).
pub mod Cpu
pub mod Throttle
pub mod Sizes
mod Tests
