-- ===== src/Contracts.antt =====
-- packages/contracts/src: what the services and the front end share.
mod Tests
pub mod Phone
