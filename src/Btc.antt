-- ===== src/Btc.antt =====
-- crates/browser-web3-signer-btc: Bitcoin requests and the checks of a wallet's results.
pub mod Deps
pub mod Domain
pub mod Request
pub mod Wire
pub mod Account
pub mod Answer
pub mod Signer
pub mod Amount
