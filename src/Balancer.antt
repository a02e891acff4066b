-- ===== src/Balancer.antt =====
-- internal/pkg/util/balancer/balancer.go: target selection. Each call holds the mutex of its
-- balancer, or touches fields that are never written after construction, so a call is one step.
pub mod Rotation
pub mod Weighted
mod Tests
