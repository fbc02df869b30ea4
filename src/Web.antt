-- ===== src/Web.antt =====
-- What the two panels do between a request and its handler: sessions, login limits, one-shot
-- banners, the CSRF test and the secret path prefix.
pub mod AdminSessions
pub mod Limiter
pub mod Flash
pub mod Requests
mod Tests
