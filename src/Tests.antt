-- ===== src/Tests.antt =====
-- Concrete arrays and lists of the two containers, and the theorems applied to them.
pub mod Arrays
pub mod Lists
pub mod Hashes
pub mod Strings
pub mod Sockets
pub mod Logs
pub mod Events
pub mod Backends
pub mod Sessions
pub mod ListSessions
pub mod Queues
