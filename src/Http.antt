-- ===== src/Http.antt =====
-- internal/adapter/httphandler and packages/api-matchmaking: the REST interface.
pub mod Messages
pub mod Handler
pub mod Router
pub mod Validation
pub mod Client
pub mod Agreement
pub mod Access
pub mod Kept
