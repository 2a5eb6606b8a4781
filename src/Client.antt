-- ===== src/Client.antt =====
-- src/lib.rs: the functions of a connection.
pub mod Engine
pub mod Guard
pub mod Resource
pub mod Rows
pub mod Create
pub mod Records
pub mod Patch
pub mod Graph
pub mod Session
pub mod Query
pub mod Auth
pub mod Connect
pub mod Calls
pub mod Outcomes
pub mod Requests
