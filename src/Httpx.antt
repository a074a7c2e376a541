-- ===== src/Httpx.antt =====
-- packages/chassis/httpx: what every service does around its handlers.
pub mod Sse
pub mod RateLimit
pub mod Writer
pub mod Peer
