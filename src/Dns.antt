-- ===== src/Dns.antt =====
-- internal/dns: answers, templates, glob matching, resolution and the per-server state.
pub mod Answer
pub mod Glob
pub mod Records
pub mod Template
pub mod Resolver
pub mod Server
