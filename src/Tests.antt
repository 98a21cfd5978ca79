-- ===== src/Tests.antt =====
-- Tests by evaluation, and the theorems at concrete inputs.
pub mod Wire
pub mod Memory
pub mod Orchestrator
pub mod Session
mod Registered
pub mod Backend
mod Responded
pub mod Announce
pub mod Registry
mod Latest
mod Tls
mod Dial
mod Plugin
mod Subjects
mod Protogen
mod Generate
pub mod Commentcheck
mod RangeOrder
mod Directives
mod Examples
