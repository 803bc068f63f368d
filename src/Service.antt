-- ===== src/Service.antt =====
-- crates/maple_core/src/stdio_server/service.rs: the sessions of providers and plugins.
pub mod Forward
pub mod Session
pub mod Plugins
pub mod Manager
