-- ===== src/Interface.antt =====
-- internal/interface/grpc: the handler in front of the service.
pub mod Handler
pub mod Json
pub mod Url
pub mod Gateway
