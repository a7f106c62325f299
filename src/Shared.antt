-- ===== src/Shared.antt =====
-- src/shared/utils: what the services share.
pub mod Ports
