-- ===== src/Core.antt =====
-- crates/browser-web3-signer-core
pub mod Json
pub mod Errors
pub mod Parse
pub mod Browser
pub mod Types
pub mod Bytes
pub mod Config
pub mod Oneshot
pub mod Store
pub mod Engine
pub mod Http
