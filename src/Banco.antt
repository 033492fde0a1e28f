-- ===== src/Banco.antt =====
-- pkg/banco: the solver plugin for banco swaps and its supporting types.
mod Tests
pub mod Plugin
pub mod Pair
pub mod Offer
pub mod Price
