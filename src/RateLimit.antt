-- ===== src/RateLimit.antt =====
-- pkg/ratelimit: keyed rate limiters over a sharded store of per-key states.
pub mod Types
pub mod Store
pub mod Limiter
pub mod SlidingWindow
pub mod TokenBucket
pub mod BucketedWindow
pub mod Gcra
pub mod Registry
mod Examples
mod CallExamples
mod TokenExamples
