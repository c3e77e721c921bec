-- ===== src/Base.antt =====
-- What the components share: tests, slices, signed integers, texts, maps and sorting.
pub mod Tests
pub mod Lists
pub mod Shared
pub mod Int
pub mod Keys
pub mod Maps
pub mod Submaps
pub mod Sorting
pub mod Outcome
pub mod Bits
pub mod Strings
