-- ===== src/Types.antt =====
-- The C-compatible types (src/types) and their conversions to and from those of the database.
pub mod Slices
pub mod Strings
pub mod Numbers
pub mod Geometries
pub mod Values
pub mod FromSdb
pub mod ToSdb
pub mod Whole
pub mod Equal
pub mod Owned
pub mod Results
pub mod Objects
pub mod Arrays
pub mod Constructors
pub mod Memory
