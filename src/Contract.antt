-- ===== src/Contract.antt =====
-- pkg/contract: the wire format of a swap offer and the transactions built on it.
pub mod ArkLib
pub mod Offer
pub mod Script
pub mod Assets
pub mod Taker
pub mod Maker
