-- ===== src/Config.antt =====
-- internal/config: the lists of servers, the options, and their validation.
pub mod ServerList
pub mod Options
pub mod Init
