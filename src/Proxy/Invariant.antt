-- ===== src/Proxy/Invariant.antt =====
-- The invariant of a race, for every event that can reach the proxy.
mod Judge
mod Steps
pub use Judge.*
pub use Steps.*
