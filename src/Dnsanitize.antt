-- ===== src/Dnsanitize.antt =====
-- internal/dnsanitize: the server pool, the rate limiter and the scheduler.
pub mod Slots
pub mod Pool
pub mod RateLimiter
pub mod System
pub mod Collect
pub mod Dispatch
pub mod Scheduler
pub mod Invariant
pub mod Once
pub mod Crashes
pub mod Trusted
pub mod Displayed
pub mod Conservation
pub mod Induction
pub mod Failures
pub mod Limits
pub mod Waiting
