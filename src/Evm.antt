-- ===== src/Evm.antt =====
-- crates/browser-web3-signer-evm
pub mod Deps
pub mod Domain
pub mod Config
pub mod Signer
pub mod Request
