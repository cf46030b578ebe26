-- ===== src/Prelude.antt =====
-- The names that the other modules share.
pub mod Tests
pub mod Lists
pub mod Text
pub mod Strings
pub mod Pieces
pub mod Exec
pub mod Keeps
pub mod Post
pub mod Ends
pub mod Decimal
pub mod Maps
