-- ===== src/Reactor.antt =====
-- tokio-uring-reactor: completions delivered to futures, parking, and the operations.
pub mod Registration
pub mod Park
pub mod State
pub mod Queue
pub mod Turn
pub mod Transfer
pub mod Readiness
pub mod World
pub mod Build
pub mod Handle
pub mod Socket
pub mod Wakers
pub mod Net
mod Tests
