-- ===== src/Tron.antt =====
-- crates/browser-web3-signer-tron
pub mod Domain
pub mod Address
pub mod Config
pub mod Signer
pub mod Request
pub mod Wire
pub mod Account
pub mod Bounds
