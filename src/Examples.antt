-- ===== src/Examples.antt =====
-- Concrete values of the third-party parts, and each theorem at an input that meets its hypotheses.
pub mod Json
pub mod Parts
mod Engine
mod Fields
mod Evm
pub mod Btc
mod Signing
pub mod Bytes
pub mod Tron
mod Signers
pub mod Commands
mod Psbts
mod Start
mod Amounts
mod Routes
mod Serving
