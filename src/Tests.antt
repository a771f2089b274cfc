-- ===== src/Tests.antt =====
-- Concrete worlds, and each result at one of them.
pub mod World
pub mod Queue
pub mod Matcher
pub mod Http
pub mod Loop
pub mod Rest
pub mod System
pub mod Config
pub mod Codec
pub mod Network
pub mod Server
pub mod MatcherTest
pub mod Match
pub mod Report
