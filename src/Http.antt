-- ===== src/Http.antt =====
-- server/internal/httpapi: what stands between the services and the clients.
pub mod Flow
pub mod AdminLogin
pub mod Members
pub mod ChannelAdmin
pub mod ClientAdmin
pub mod AttestorAdmin
pub mod Routes
pub mod Public
pub mod OauthPlane
pub mod Purposes
pub mod Holds
pub mod Guarded
pub mod Untouched
pub mod SteppedUp
pub mod Triples
pub mod Effects
pub mod Cascade
pub mod Scheduling
pub mod Secrets
pub mod Idempotency
pub mod Entries
pub mod Replay
pub mod RateLimit
pub mod Buckets
