-- ===== src/HttpTest.antt =====
-- internal/adapter/httphandler/httphandlertest: what the tests of the handlers share.
pub mod Fakes
pub mod Logs
pub mod Requests
