-- ===== src/Commentcheck.antt =====
-- tools/commentcheck: the command that refuses stray comments in Go files.
pub mod Text
pub mod Words
pub mod Syntax
mod Empty
pub mod Packages
pub mod Tools
pub mod Directives
pub mod Docs
pub mod Comments
pub mod Report
pub mod Check
