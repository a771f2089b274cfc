-- ===== src/MatcherTest.antt =====
-- internal/usecase/matcher/matchertest: the clock, the queue and the publisher that the matcher's tests
-- put in place of the real ones.
pub mod Clock
pub mod Queue
pub mod Publisher
pub mod Run
