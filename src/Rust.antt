-- ===== src/Rust.antt =====
-- What the code uses of Rust itself: how a computation ends, UTF-8, `BTreeMap`
-- and `std::time::Duration`.
pub mod Run
pub mod Utf8
pub mod BTree
pub mod Time
