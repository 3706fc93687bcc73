-- ===== src/Worker.antt =====
-- orders.worker.service.ts: the worker that buys what a paid order is for.
pub mod State
pub mod Products
pub mod Delivery
pub mod Steps
pub mod Interleaved
mod Fences
mod VoucherFence
pub mod VoucherSafety
mod GpnipFence
pub mod GpnipSafety
pub mod Ending
mod Settled
mod Attempts
mod Handover
pub mod Settling
pub mod ProductLaws
pub mod Polling
pub mod Recovery
pub mod Fulfilment
pub mod PollingLaws
pub mod RecoveryLaws
pub mod Expiry
pub mod ExpiryLaws
mod Tests
