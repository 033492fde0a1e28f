-- ===== src/Application.antt =====
-- internal/core/application: the service that owns the pairs and the wallet.
pub mod Pairs
pub mod Recorded
pub mod Service
pub mod Loop
