-- ===== src/Threshold.antt =====
-- crates/pqc-tls/src/threshold.rs: Shamir's secret sharing over GF(256).
pub mod Gf256
pub mod Interpolation
pub mod Product
pub mod Field
pub mod Lagrange
pub mod Shares
pub mod Recovery
pub mod Codes
pub mod RoundTrip
pub mod Manager
pub mod Quorum
pub mod Signing
pub mod Restore
mod Tests
