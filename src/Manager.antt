-- ===== src/Manager.antt =====
-- The program entry: cmd/main.go and `SetupWithManager` of
-- internal/controller/kubenova_controller.go.
pub mod Flags
pub mod Options
pub mod Start
pub mod RoundTrip
pub mod Hardening
pub mod Registered
