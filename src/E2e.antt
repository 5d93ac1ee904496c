-- ===== src/E2e.antt =====
-- cmd/atrium-e2e: the stand-ins that the end-to-end tests run the gateway against.
pub mod Tree
pub mod Reply
pub mod Store
pub mod Contract
pub mod Idp
pub mod Harness
