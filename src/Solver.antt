-- ===== src/Solver.antt =====
-- pkg/solver: the plugin runtime, the predicates on transactions and the plugin builder.
pub mod Txmatch
pub mod Builder
pub mod Run
pub mod Source
