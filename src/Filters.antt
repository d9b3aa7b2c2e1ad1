-- ===== src/Filters.antt =====
-- pkg/server/filters: the handlers that a request passes through.
pub mod Routes
pub mod Gate
pub mod Host
pub mod Component
pub mod Plugin
pub mod Response
pub mod Assembly
pub mod Small
pub mod Chain
